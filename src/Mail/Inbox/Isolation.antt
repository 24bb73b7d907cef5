-- ===== src/Mail/Inbox/Isolation.antt =====
-- That the inbox of a run, crates/mail/src/inbox.rs, has the mail of that run and no other.
use servr.Common.{
  ℕ, ◌≡◌, ◌⊎◌, inl, inr, refl, ap, ◌∙◌, sym, arith, Bool, true, false, Option, none, some, List, [],
  ◌∷◌, map, Text, bytes_beq, bytes_beq_iff, ◌==◌, All, Lacks, is_whitespace, trim_lem, select,
  if◌then◌else◌, Bool-cases,
}
use servr.Mail.Inbox.{
  MailError, run_header_name, Summary, Message, from_summary, answered, get, Headers, Mailpit,
  messages_path, listing_path, headers_path, eq_ignore_ascii_case, find_header, run_of_headers,
  is_tag, all, run_header, filter_run, for_run,
}

-- The headers carry the run's tag: none of them is the run header, or the first that is has the tag
-- as its first value, with no white space in it.
pub data Carries : Headers → Option Text → Type 0 where
  untagged : Carries [] none
  tagged :
      (name tag : Text) (values : List Text) (hs : Headers)
      → eq_ignore_ascii_case name run_header_name ≡ true
      → Lacks is_whitespace tag
      → Carries ((name, tag ∷ values) ∷ hs) (some tag)
  other :
      (name : Text) (values : List Text) (hs : Headers) (tag : Option Text)
      → eq_ignore_ascii_case name run_header_name ≡ false
      → Carries hs tag
      → Carries ((name, values) ∷ hs) tag

run_of_headers-Carries :
    (hs : Headers) (tag : Option Text) → Carries hs tag → run_of_headers hs ≡ tag
unfolding run_of_headers find_header
run_of_headers-Carries _ _ untagged = refl
run_of_headers-Carries _ _ (tagged name tag values hs e plain) =
    rw (run_of_headers, find_header, e) (ap some (trim_lem tag plain))
run_of_headers-Carries _ _ (other name values hs tag e h) =
    rw (run_of_headers, find_header, e) (run_of_headers-Carries hs tag h)

-- A message that Mailpit holds, and the run that it was sent as, if any.
pub record Held : Type 0 where
  pub summary : Summary
  pub run : Option ℕ

abbrev pub tag_of : (ℕ → Text) → Option ℕ → Option Text
tag_of run_text none = none
tag_of run_text (some run) = some (run_text run)

abbrev pub is_of : ℕ → Option ℕ → Bool
is_of run none = false
is_of run (some k) = k == run

is_tag-tag_of :
    (run_text : ℕ → Text)
    → ((a b : ℕ) → run_text a ≡ run_text b → a ≡ b)
    → (o : Option ℕ) (run : ℕ) → is_tag (tag_of run_text o) (run_text run) ≡ is_of run o
is_tag-tag_of run_text inj none run = refl
is_tag-tag_of run_text inj (some k) run = elim (Bool-cases (k == run)) [
  | inl e ↦
      let same : k ≡ run = ground arith in
      (bytes_beq_iff (run_text k) (run_text run)).1 (ap run_text same) ∙ sym e
  | inr e ↦ elim (Bool-cases (bytes_beq (run_text k) (run_text run))) [
    | inl e' ↦
        let same : k ≡ run = inj k run ((bytes_beq_iff (run_text k) (run_text run)).0 e') in
        let equal : (k == run) ≡ true = ground arith in absurd (cc)
    | inr e' ↦ e' ∙ sym e
  ]
]

map-map :
    (ms : List Held)
    → map from_summary (map (λ m. m.summary) ms) ≡ map (λ m. from_summary m.summary) ms
map-map [] = refl
map-map (m ∷ ms) = ap (λ (xs : List Message). from_summary m.summary ∷ xs) (map-map ms)

module _ (mailpit : Mailpit) (run_text : ℕ → Text) where
  open mailpit use {Box, listing, headers}

  -- Mailpit answers for the headers of a message, and they carry its run.
  pub record Serves (box : Box) (m : Held) : Type 0 where
    pub hs : Headers
    pub answer : headers box (headers_path m.summary.id) ≡ answered 200 (inr hs)
    pub carries : Carries hs (tag_of run_text m.run)

  -- A message as the inbox of a run gives it.
  abbrev pub given : Held → Message
  given m = record (from_summary m.summary) { run = tag_of run_text m.run }

  run_header_lem :
      (box : Box) (m : Held)
      → Serves box m
      → run_header mailpit box m.summary.id ≡ inr (tag_of run_text m.run)
  unfolding run_header get
  run_header_lem box m h =
      rw (h.answer, run_of_headers-Carries h.hs (tag_of run_text m.run) h.carries) refl

  module _ (inj : (a b : ℕ) → run_text a ≡ run_text b → a ≡ b) where
    filter_run_lem :
        (box : Box) (run : ℕ) (ms : List Held)
        → All (Serves box) ms
        → filter_run mailpit box (run_text run) (map (λ m. from_summary m.summary) ms)
          ≡ inr (map given (select (λ m. is_of run m.run) ms))
    unfolding filter_run from_summary
    filter_run_lem box run [] h = refl
    filter_run_lem box run (m ∷ ms) h =
        let tag = is_tag-tag_of run_text inj m.run run in
        rw (filter_run, run_header_lem box m h.0, filter_run_lem box run ms h.1, tag)
          (kept (is_of run m.run))
      where
        kept :
            (b : Bool)
            → ◌≡◌ {A = MailError ⊎ List Message}
                (inr (
                  if b
                  then given m ∷ map given (select (λ m. is_of run m.run) ms)
                  else map given (select (λ m. is_of run m.run) ms)))
                (inr (
                  map given (
                    if b
                    then m ∷ select (λ m. is_of run m.run) ms
                    else select (λ m. is_of run m.run) ms)))
        kept true = refl
        kept false = refl

    -- The inbox of a run, with no query. Where the texts of different runs differ, and Mailpit lists
    -- the messages `ms` (the newest, as many as the limit allows) and answers for the headers of
    -- each, the inbox is made of exactly those of `ms` that were sent as the run, in the same
    -- order, each marked with the run: none of another run, and none that carries no run.
    pub for_run-select :
        (box : Box) (run limit : ℕ) (ms : List Held)
        → listing box (messages_path limit) ≡ answered 200 (inr (map (λ m. m.summary) ms))
        → All (Serves box) ms
        → for_run mailpit box (run_text run) none limit
          ≡ inr (map given (select (λ m. is_of run m.run) ms))
    unfolding for_run all listing_path get
    for_run-select box run limit ms answer h = rw (answer, map-map ms) (filter_run_lem box run ms h)
