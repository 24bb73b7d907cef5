-- ===== src/Http/Lenient.antt =====
-- `Lenient::from_request` of crates/http/src/json.rs: a body read as JSON, whatever its header says.
-- The reading of the body and the JSON parser are parameters.
use servr.Common.{ℕ, ◌⊎◌, [], ◌∷◌, ◌++◌, Bytes, bytes, and_then, map_err}

-- The bytes of a body, or the error's text where it cannot be read.
abbrev pub Request : Type 0
Request = Bytes ⊎ Bytes

-- An empty body stands for an empty object.
abbrev pub or_object : Bytes → Bytes
or_object [] = bytes "{}"
or_object (c ∷ raw) = c ∷ raw

abbrev pub lenient_status : ℕ
lenient_status = 400

unfoldable pub from_request : {T : Type 0} → (Bytes → Bytes ⊎ T) → Request → Bytes ⊎ T
from_request from_slice request = and_then request (λ body.
    map_err (λ e. bytes "body is not valid JSON for this endpoint: " ++ e)
      (from_slice (or_object body)))
