-- ===== src/Telemetry/Collector.antt =====
-- The collector of crates/telemetry/src/lib.rs as the environment configures it: its endpoint, its
-- headers, whether it is reached, and whether spans are exported at all. The environment is a function
-- from names; the tests of header names and values, the resolver of addresses and the connection are
-- parameters.
use servr.Common.{
  ℕ, zero, suc, ◌==◌, ◌||◌, Bool, true, false, Option, none, some, List, [], ◌∷◌, ◌++◌, Text, bytes,
  bytes_beq, bytes_eq, length, split, split_once, rsplit_once, trim, strip_prefix,
  to_ascii_lowercase, insert, any_of, if◌then◌else◌, ◌&&◌,
}
use servr.Core.State.{unwrap_or}
use servr.Mail.Mailer.{parse_u16}

abbrev pub Env : Type 0
Env = Text → Option Text

abbrev pub endpoint_name : Text
endpoint_name = bytes "OTEL_EXPORTER_OTLP_ENDPOINT"

unfoldable pub otlp_endpoint : Env → Text
otlp_endpoint var = unwrap_or (var endpoint_name) (bytes "http://localhost:4317")

-- Which texts are names and values of metadata, by the tonic crate.
pub record Metadata : Type 0 where
  pub is_key : Text → Bool
  pub is_value : Text → Bool

abbrev pub MetadataMap : Type 0
MetadataMap = List (Text × Text)

-- An entry without `=` or that is not usable is passed over.
abbrev pub add_pair : Metadata → Option (Text × Text) → MetadataMap → MetadataMap
add_pair meta none held = held
add_pair meta (some (key, value)) held =
    let k = to_ascii_lowercase (trim key) in
    if meta.is_key k && meta.is_value (trim value) then insert k (trim value) held else held

unfoldable pub add_pairs : Metadata → List Text → MetadataMap → MetadataMap
add_pairs meta [] held = held
add_pairs meta (pair ∷ pairs) held = add_pairs meta pairs (add_pair meta (split_once 61 pair) held)

unfoldable pub otlp_headers : Metadata → Env → MetadataMap
unfolding add_pairs
otlp_headers meta var = elim (var (bytes "OTEL_EXPORTER_OTLP_HEADERS")) [
  | none ↦ []
  | some raw ↦ add_pairs meta (split 44 raw) []
]

-- `trim_start_matches` of a text that is not empty: as many times as it stands there, which is at
-- most the length of the whole.
unfoldable pub strip_times : ℕ → Text → Text → Text
strip_times zero p text = text
strip_times (suc n) p text = elim (strip_prefix p text) [
  | none ↦ text
  | some rest ↦ strip_times n p rest
]

abbrev pub trim_start_matches : Text → Text → Text
trim_start_matches p text = strip_times (length text) p text

-- `trim_end_matches('/')`
abbrev pub trim_slashes : Text → Text
trim_slashes [] = []
trim_slashes (c ∷ cs) = elim (trim_slashes cs) [
  | [] ↦ if c == 47 then [] else c ∷ []
  | d ∷ ds ↦ c ∷ d ∷ ds
]

-- `rsplit(':').next()`
abbrev pub last_piece : Text → Text
last_piece text = elim (rsplit_once 58 text) [ none ↦ text | some (before, after) ↦ after ]

abbrev pub is_some : {A : Type 0} → Option A → Bool
is_some none = false
is_some (some a) = true

-- The host and port that are connected to, the port by the scheme where the endpoint has none.
unfoldable pub authority : Text → Text
unfolding strip_times
authority endpoint =
    let secure = is_some (strip_prefix (bytes "https://") endpoint) in
    let bare =
      trim_slashes
        (trim_start_matches (bytes "https://") (trim_start_matches (bytes "http://") endpoint)) in
    if is_some (parse_u16 (last_piece bare))
    then bare
    else if secure
    then bare ++ bytes ":443"
    else bare ++ bytes ":80"

-- Any address that the name has will do.
unfoldable pub collector_reachable :
    {Addr : Type 0} → (Text → Option (List Addr)) → (Addr → Bool) → Text → Bool
unfolding authority
collector_reachable to_socket_addrs connects endpoint =
    elim (to_socket_addrs (authority endpoint)) [
      | none ↦ false
      | some addrs ↦ any_of connects addrs
    ]

abbrev pub is_yes : Text → Bool
is_yes flag =
    let text = to_ascii_lowercase (trim flag) in
    bytes_beq text (bytes "true") || bytes_beq text (bytes "1")

abbrev pub holds : (Text → Bool) → Option Text → Bool
holds p none = false
holds p (some text) = p text

-- By its switch, or by an endpoint that is set to nothing.
unfoldable pub export_disabled : Env → Bool
export_disabled var =
    holds is_yes (var (bytes "OTEL_SDK_DISABLED"))
    || holds (λ e. bytes_beq (trim e) []) (var endpoint_name)
