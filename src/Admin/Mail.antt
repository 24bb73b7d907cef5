-- ===== src/Admin/Mail.antt =====
-- The mail routes of crates/admin/src/lib.rs (`mail_router`): the run that a request acts as, sending,
-- the inbox of a run, and the status of an error. The JSON of an answer is left as its values.
use servr.Common.{
  [], ℕ, ◌⊎◌, inl, inr, Bool, true, false, Option, none, some, List, Text, map_err, and_then,
  if◌then◌else◌,
}
use servr.Core.State.{unwrap_or}
use servr.Mail.Inbox.{
  MailError, recipient_not_allowed, no_inbox, default_limit, Message, Mailpit, all, for_run, purge,
}
use servr.Mail.Mailer.{OutgoingMail, SentMail, Lettre, Mailer, Readings, send, has_inbox}

pub data MailApiError : Type 0 where
  unconfigured : MailApiError
  bad_run : Text → MailApiError
  mail_error : MailError → MailApiError

unfoldable pub mail_error_status : MailApiError → ℕ
mail_error_status unconfigured = 503
mail_error_status (bad_run raw) = 400
mail_error_status (mail_error (recipient_not_allowed to)) = 403
mail_error_status (mail_error no_inbox) = 501
mail_error_status (mail_error e) = 502

-- The request's run header, as a text or as bytes that are none, and the parser of run ids.
pub data RunHeader : Type 0 where
  absent : RunHeader
  unreadable : RunHeader
  header_text : Text → RunHeader

abbrev pub or_bad_run : Text → Option ℕ → MailApiError ⊎ ℕ
or_bad_run raw none = inl (bad_run raw)
or_bad_run raw (some run) = inr run

-- The process's own run where the header is absent.
unfoldable pub run_of : (Text → Option ℕ) → RunHeader → ℕ → MailApiError ⊎ ℕ
run_of parse absent own = inr own
run_of parse unreadable own = inl (bad_run [])
run_of parse (header_text raw) own = or_bad_run raw (parse raw)

pub record MailQuery : Type 0 where
  pub query : Option Text
  pub limit : Option ℕ
  pub all_runs : Bool

abbrev pub configured : {A : Type 0} → Option A → MailApiError ⊎ A
configured none = inl unconfigured
configured (some a) = inr a

abbrev pub with_inbox : Bool → MailApiError ⊎ Unit {0}
with_inbox true = inr tt
with_inbox false = inl (mail_error no_inbox)

module _ (lettre : Lettre) (mailpit : Mailpit) (parse_run : Text → Option ℕ) where
  open lettre use {run_text}
  open mailpit use {Box}

  -- The mailer afterwards; none was wired at boot where Mailpit was not reachable.
  abbrev pub sent :
      ℕ
      → OutgoingMail
      → Readings lettre
      → Mailer lettre
      → Mailer lettre × (MailApiError ⊎ (SentMail × ℕ))
  sent run mail r m =
      let (m', result) = send lettre m run mail r in
      (m', map_err mail_error (and_then result (λ s. inr (s, run))))

  abbrev pub as_run :
      Mailer lettre
      → MailApiError ⊎ ℕ
      → OutgoingMail
      → Readings lettre
      → Option (Mailer lettre) × (MailApiError ⊎ (SentMail × ℕ))
  as_run m (inl e) mail r = (some m, inl e)
  as_run m (inr run) mail r = let (m', result) = sent run mail r m in (some m', result)

  unfoldable pub mail_send :
      Option (Mailer lettre)
      → RunHeader
      → ℕ
      → OutgoingMail
      → Readings lettre
      → Option (Mailer lettre) × (MailApiError ⊎ (SentMail × ℕ))
  mail_send none header own mail r = (none, inl unconfigured)
  mail_send (some m) header own mail r = as_run m (run_of parse_run header own) mail r

  abbrev pub read : Box → ℕ → MailQuery → MailError ⊎ List Message
  read box run params =
      let limit = unwrap_or params.limit default_limit in
      if params.all_runs
      then all mailpit box params.query limit
      else for_run mailpit box (run_text run) params.query limit

  -- The run is named in the answer unless every run's mail is read.
  unfoldable pub mail_list :
      Option (Mailer lettre)
      → Box
      → RunHeader
      → ℕ
      → MailQuery
      → MailApiError ⊎ (Option ℕ × List Message)
  mail_list mailer box header own params = and_then (configured mailer) (λ m.
      and_then (run_of parse_run header own) (λ run.
        and_then (with_inbox (has_inbox lettre m)) (λ _.
          and_then (map_err mail_error (read box run params))
            (λ messages. inr (if params.all_runs then none else some run, messages)))))

  abbrev pub purged : Box → MailApiError ⊎ Mailer lettre → Box × (MailApiError ⊎ Unit {0})
  purged box (inl e) = (box, inl e)
  purged box (inr m) = elim (with_inbox (has_inbox lettre m)) [
    | inl e ↦ (box, inl e)
    | inr _ ↦ let (box', result) = purge mailpit box in (box', map_err mail_error result)
  ]

  unfoldable pub mail_purge : Option (Mailer lettre) → Box → Box × (MailApiError ⊎ Unit {0})
  mail_purge mailer box = purged box (configured mailer)
