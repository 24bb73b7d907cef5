-- ===== src/Mail/Allow.antt =====
-- `Allowlist` of crates/mail/src/allow.rs. A text is the list of its code points.
pub mod Permits
use servr.Common.{
  rsplit_once, Text, trim, split, to_ascii_lowercase, ℕ, ◌+◌, Bool, true, false, ◌&&◌, ◌||◌, Option,
  none, some, List, [], ◌∷◌, ◌++◌, map, Bytes, bytes_beq, any_of, select, leb, ◌==◌, if◌then◌else◌,
}

pub data Entry : Type 0 where
  domain : Text → Entry
  address : Text → Entry
  any : Entry

pub record Allowlist : Type 0 where
  pub entries : List Entry

abbrev pub at_sign : ℕ
at_sign = 64

abbrev pub is_empty : Text → Bool
is_empty [] = true
is_empty (c ∷ cs) = false

unfoldable pub parse_entry : Text → Entry
parse_entry e = entry (to_ascii_lowercase e)
  where
    entry : Text → Entry
    entry [] = address []
    entry (c ∷ cs) =
        if bytes_beq (c ∷ cs) (42 ∷ [])
        then any
        else (if c == at_sign then domain cs else address (c ∷ cs))

unfoldable pub parse : Text → Allowlist
unfolding parse_entry
parse raw = record {
  entries =
      map parse_entry (select (λ e. if is_empty e then false else true) (map trim (split 44 raw)));
}

abbrev pub is_any : Entry → Bool
is_any any = true
is_any (domain d) = false
is_any (address a) = false

unfoldable pub is_unrestricted : Allowlist → Bool
is_unrestricted list = any_of is_any list.entries

abbrev pub entry_permits : Text → Text → Entry → Bool
entry_permits whole after any = true
entry_permits whole after (domain allowed) = bytes_beq after allowed
entry_permits whole after (address allowed) = bytes_beq whole allowed

unfoldable pub permits : Allowlist → Text → Bool
unfolding rsplit_once
permits list raw =
    let whole = to_ascii_lowercase (trim raw) in
    elim (rsplit_once at_sign whole) [
      | none ↦ false
      | some (before, after) ↦ any_of (entry_permits whole after) list.entries
    ]
