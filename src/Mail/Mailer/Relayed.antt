-- ===== src/Mail/Mailer/Relayed.antt =====
-- What a mailer of crates/mail hands to its transport after any sends.
use servr.Common.{
  ℕ, ◌≡◌, ◌⊎◌, inl, inr, refl, ap, sym, subst, ◌∙◌, true, Option, none, some, List, [], ◌∷◌, Text,
  All, trim, to_ascii_lowercase, Bool-cases, Option-cases, and_then-inr, map_err, map_err-inr,
}
use servr.Core.State.{unwrap_or}
use servr.Mail.Allow.{Allowlist, permits}
use servr.Mail.Allow.Permits.{Some, Allows, permits-Allows}
use servr.Mail.Inbox.{MailError, build_error}
use servr.Mail.Mailer.{
  MailConfig, is_relay, OutgoingMail, Lettre, Envelope, Mailer, Readings, default_sender,
  with_client, new, built, build, hand_over, send,
}

-- Some element of the list has the property.
abbrev pub Among : {A : Type 0} → (A → Type 0) → List A → Type 0
Among P [] = ⊥
Among P (x ∷ xs) = P x ⊎ Among P xs

module _ (lettre : Lettre) where
  open lettre use {parse_mailbox, run_text}

  abbrev pub Request : Type 0
  Request = ℕ × OutgoingMail × Readings lettre

  -- An envelope is what a request asked for: to its address, which the allowlist lets through, with
  -- its subject and body, and the tag of the run that it was sent as.
  pub record Proper (allowed : Allowlist) (e : Envelope lettre) (q : Request) : Type 0 where
    pub parsed : parse_mailbox q.1.to ≡ inr e.recipient
    pub allows : Some (Allows (to_ascii_lowercase (trim q.1.to))) allowed.entries
    pub tag : e.run_tag ≡ run_text q.0
    pub subject : e.subject ≡ q.1.subject
    pub body : e.body ≡ q.1.body

  built_lem : (e e' : Envelope lettre) (o : Option Text) → built lettre e o ≡ inr e' → e ≡ e'
  built_lem e e' none h = cc
  built_lem e e' (some message) h = absurd (cc)

  pub record Built (run : ℕ) (mail : OutgoingMail) (e : Envelope lettre) : Type 0 where
    pub parsed : parse_mailbox mail.to ≡ inr e.recipient
    pub tag : e.run_tag ≡ run_text run
    pub subject : e.subject ≡ mail.subject
    pub body : e.body ≡ mail.body

  build_lem :
      (m : Mailer lettre) (run : ℕ) (mail : OutgoingMail) (r : Readings lettre)
      (e : Envelope lettre)
      → build lettre m run mail r ≡ inr e
      → Built run mail e
  unfolding build
  build_lem m run mail r e h =
      let (sender, _, h') =
        and_then-inr
          (map_err build_error (parse_mailbox (unwrap_or mail.from_address m.default_from))) _ e
          h in
      let (recipient, got, last) =
        and_then-inr (map_err build_error (parse_mailbox mail.to)) _ e h' in
      let same = built_lem _ e _ last in
      record {
        parsed =
            map_err-inr build_error (parse_mailbox mail.to) recipient got
            ∙ ap (λ (x : Envelope lettre). inr x.recipient) same;
        tag = ap (λ (x : Envelope lettre). x.run_tag) (sym same);
        subject = ap (λ (x : Envelope lettre). x.subject) (sym same);
        body = ap (λ (x : Envelope lettre). x.body) (sym same);
      }

  -- The mailer has its configuration still, and what it handed over has the property.
  abbrev Handed : MailConfig → (Envelope lettre → Type 0) → Mailer lettre → Type 0
  Handed c P m = (m.config ≡ c) × All P m.handed

  or_later :
      (P : Envelope lettre → Type 0) (c : MailConfig) (q : Request) (mails : List Request)
      (e : Envelope lettre)
      → (P e ⊎ Proper c.allowed e q) ⊎ Among (Proper c.allowed e) mails
      → P e ⊎ Among (Proper c.allowed e) (q ∷ mails)
  or_later P c q mails e (inl (inl p)) = inl p
  or_later P c q mails e (inl (inr p)) = inr (inl p)
  or_later P c q mails e (inr p) = inr (inr p)

  weaken :
      (P Q : Envelope lettre → Type 0) (es : List (Envelope lettre))
      → ((e : Envelope lettre) → P e → Q e)
      → All P es
      → All Q es
  weaken P Q [] f a = tt
  weaken P Q (e ∷ es) f (p, a) = (f e p, weaken P Q es f a)

  hand_over-Handed :
      (c : MailConfig) (P : Envelope lettre → Type 0) (m : Mailer lettre) (run : ℕ)
      (mail : OutgoingMail) (r : Readings lettre) (b : MailError ⊎ Envelope lettre)
      → ((e : Envelope lettre) → b ≡ inr e → P e)
      → Handed c P m
      → Handed c P (hand_over lettre m run mail r b).0
  hand_over-Handed c P m run mail r (inl e) proper h = h
  hand_over-Handed c P m run mail r (inr e) proper h = elim (Option-cases (r.transport_fails e)) [
    | inl never ↦ rw (hand_over, never) (h.0, (proper e refl, h.1))
    | inr (message, fails) ↦ rw (hand_over, fails) (h.0, (proper e refl, h.1))
  ]

  send-Handed :
      (c : MailConfig) (P : Envelope lettre → Type 0) (m : Mailer lettre) (q : Request)
      → is_relay c ≡ true
      → Handed c P m
      → Handed c (λ e. P e ⊎ Proper c.allowed e q) (send lettre m q.0 q.1 q.2).0
  unfolding send
  send-Handed c P m (run, mail, r) relays h =
      let relayed : is_relay m.config ≡ true =
        subst (λ (d : MailConfig). is_relay d ≡ true) (sym h.0) relays in
      let P' : Envelope lettre → Type 0 = λ e. P e ⊎ Proper c.allowed e (run, mail, r) in
      let held : Handed c P' m = (h.0, weaken P P' m.handed (λ e p. inl p) h.1) in
      elim (Bool-cases (permits m.config.allowed mail.to)) [
        | inl allowed ↦
            let listed : permits c.allowed mail.to ≡ true =
              subst (λ (d : MailConfig). permits d.allowed mail.to ≡ true) h.0 allowed in
            let proper = λ (e : Envelope lettre) (made : build lettre m run mail r ≡ inr e).
              let is = build_lem m run mail r e made in
              let it : Proper c.allowed e (run, mail, r) = record {
                parsed = is.parsed;
                allows = (permits-Allows c.allowed mail.to).0 listed;
                tag = is.tag;
                subject = is.subject;
                body = is.body;
              } in
              inr it in
            rw (send, relayed, allowed)
              (hand_over-Handed c P' m run mail r (build lettre m run mail r) proper held)
        | inr refused ↦ rw (send, relayed, refused) held
      ]

  unfoldable pub send_all : Mailer lettre → List Request → Mailer lettre
  send_all m [] = m
  send_all m ((run, mail, r) ∷ mails) = send_all (send lettre m run mail r).0 mails

  send_all-Handed :
      (c : MailConfig) (P : Envelope lettre → Type 0) (m : Mailer lettre) (mails : List Request)
      → is_relay c ≡ true
      → Handed c P m
      → All (λ e. P e ⊎ Among (Proper c.allowed e) mails) (send_all m mails).handed
  unfolding send_all
  send_all-Handed c P m [] relays h =
      weaken P (λ e. P e ⊎ Among (Proper c.allowed e) []) m.handed (λ e p. inl p) h.1
  send_all-Handed c P m (q ∷ mails) relays h =
      let P' : Envelope lettre → Type 0 = λ e. P e ⊎ Proper c.allowed e q in
      weaken (λ e. P' e ⊎ Among (Proper c.allowed e) mails)
        (λ e. P e ⊎ Among (Proper c.allowed e) (q ∷ mails)) (send_all m (q ∷ mails)).handed
        (or_later P c q mails)
        (send_all-Handed c P' (send lettre m q.0 q.1 q.2).0 mails relays
          (send-Handed c P m q relays h))

  only-Proper :
      (c : MailConfig) (mails : List Request) (e : Envelope lettre)
      → ⊥ ⊎ Among (Proper c.allowed e) mails
      → Among (Proper c.allowed e) mails
  only-Proper c mails e (inl never) = absurd never
  only-Proper c mails e (inr p) = p

  with_client-fresh :
      (c : MailConfig) (fails : Option MailError) (from : Text) (m : Mailer lettre)
      → with_client lettre c fails from ≡ inr m
      → (m.config ≡ c) × (m.handed ≡ [])
  with_client-fresh c (some e) from m h = absurd (cc)
  with_client-fresh c none from m h =
      let same = inr_inj h in
      (ap (λ (x : Mailer lettre). x.config) same, ap (λ (x : Mailer lettre). x.handed) same)
    where
      inr_inj : {a b : Mailer lettre} → ◌≡◌ {A = MailError ⊎ Mailer lettre} (inr a) (inr b) → b ≡ a
      inr_inj e = cc

  -- Of a mailer that was built with a relay, after any requests, whoever made them: every message
  -- handed to the transport is one of the requests, to its address, with its subject and body and
  -- the tag of its run, and an entry of the allowlist lets that address through.
  pub relayed-Proper :
      (relay_fails : Text → Option Text) (client_fails : Option MailError) (c : MailConfig)
      (m : Mailer lettre) (mails : List Request)
      → new lettre relay_fails client_fails c ≡ inr m
      → is_relay c ≡ true
      → All (λ e. Among (Proper c.allowed e) mails) (send_all m mails).handed
  unfolding new
  relayed-Proper relay_fails client_fails c m mails built relays =
      let (from, _, made) =
        and_then-inr (default_sender lettre relay_fails c) (with_client lettre c client_fails) m
          built in
      let (same, nothing) = with_client-fresh c client_fails from m made in
      let fresh : Handed c (λ e. ⊥) m = (same, rw nothing tt) in
      weaken (λ e. ⊥ ⊎ Among (Proper c.allowed e) mails) (λ e. Among (Proper c.allowed e) mails)
        (send_all m mails).handed (only-Proper c mails)
        (send_all-Handed c (λ e. ⊥) m mails relays fresh)
