-- ===== src/Examples/Mail.antt =====
-- The theorem on crates/mail at a concrete list, and what it refuses.
use servr.Common.{rsplit_once, ◌≡◌, ◌↔◌, refl, true, false, bytes}
use servr.Mail.Allow.{Allowlist, parse, parse_entry, permits}
use servr.Common.{trim, to_ascii_lowercase}
use servr.Mail.Allow.Permits.{Some, Allows, permits-Allows}

abbrev list : Allowlist
list = parse (bytes " @Example.com, ops@example.org ")

permits-Allows_example :
    (permits list (bytes "Someone@example.COM") ≡ true)
    ↔ Some (Allows (to_ascii_lowercase (trim (bytes "Someone@example.COM")))) list.entries
permits-Allows_example = permits-Allows list (bytes "Someone@example.COM")

domain_allowed : permits list (bytes "Someone@example.COM") ≡ true
unfolding permits parse parse_entry rsplit_once
domain_allowed = refl

suffix_refused : permits list (bytes "x@example.com.evil.com") ≡ false
unfolding permits parse parse_entry rsplit_once
suffix_refused = refl
