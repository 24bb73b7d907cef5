-- ===== src/Mail/Mailer.antt =====
-- `Mailer` and `MailConfig` of crates/mail/src/lib.rs, and the sending half of crates/mail/src/send.rs.
-- The parser of addresses, the builder of a message and the SMTP transport are parameters; spans and
-- the stamps of the event are left out.
pub mod Relayed
use servr.Common.{
  rsplit_once, ℕ, ◌==◌, ◌⊎◌, inl, inr, Bool, true, false, ◌&&◌, not, Option, none, some, List, [],
  ◌∷◌, ◌++◌, Text, bytes, leb, parse_unsigned, map_err, and_then, if◌then◌else◌,
}
use servr.Core.State.{unwrap_or}
use servr.Mail.Allow.{Allowlist, permits}
use servr.Mail.Inbox.{
  MailError, config_error, build_error, smtp_error, recipient_not_allowed, no_inbox,
}

abbrev pub smtp_port : ℕ
smtp_port = 1025

abbrev pub mailpit_from : Text
mailpit_from = bytes "testbed@localhost"

pub record Relay : Type 0 where
  pub host : Text
  pub port : ℕ
  pub user : Text
  pub password : Text
  pub from_address : Text

pub record MailConfig : Type 0 where
  pub smtp : Text
  pub api : Text
  pub relay : Option Relay
  pub allowed : Allowlist

unfoldable pub is_relay : MailConfig → Bool
is_relay c = elim c.relay [ none ↦ false | some r ↦ true ]

-- `parse::<u16>()`, which lets a plus sign stand before the digits.
abbrev pub below_65536 : Option ℕ → Option ℕ
below_65536 none = none
below_65536 (some n) = if leb n 65535 then some n else none

unfoldable pub parse_u16 : Text → Option ℕ
parse_u16 [] = none
parse_u16 (c ∷ cs) =
    if c == 43 then below_65536 (parse_unsigned cs) else below_65536 (parse_unsigned (c ∷ cs))

abbrev pub with_port : Text → Text → Option ℕ → MailError ⊎ (Text × ℕ)
with_port smtp host none = inl (config_error smtp)
with_port smtp host (some port) = inr (host, port)

-- A bare host has the standard port.
unfoldable pub smtp_parts : MailConfig → MailError ⊎ (Text × ℕ)
smtp_parts c = elim (rsplit_once 58 c.smtp) [
  | some (host, port) ↦ with_port c.smtp host (parse_u16 port)
  | none ↦ inr (c.smtp, smtp_port)
]

pub record OutgoingMail : Type 0 where
  pub to : Text
  pub subject : Text
  pub body : Text
  pub from_address : Option Text

pub record SentMail : Type 0 where
  pub message_id : Text
  pub to : Text
  pub subject : Text
  pub run : ℕ

pub record MailSent : Type 0 where
  pub to : Text
  pub subject : Text
  pub message_id : Text

-- lettre's addresses, and a run's text.
pub record Lettre : Type 1 where
  pub Mailbox : Type 0
  pub parse_mailbox : Text → Text ⊎ Mailbox
  pub run_text : ℕ → Text

module _ (lettre : Lettre) where
  open lettre use {Mailbox, parse_mailbox, run_text}

  pub record Envelope : Type 0 where
    pub sender : Mailbox
    pub recipient : Mailbox
    pub subject : Text
    pub message_id : Text
    pub run_tag : Text
    pub body : Text

  -- What has been handed to the transport, and the events.
  pub record Mailer : Type 0 where
    pub config : MailConfig
    pub default_from : Text
    pub handed : List Envelope
    pub events : List MailSent

  -- The fresh message id, and how the builder and the transport fail, if they do.
  pub record Readings : Type 0 where
    pub message_id : Text
    pub build_fails : Envelope → Option Text
    pub transport_fails : Envelope → Option Text

  -- `Sender::new`, of which the default sender is kept: a relay's host can be refused, and so can
  -- Mailpit's port.
  abbrev pub refused_relay : Text → Text → Option Text → MailError ⊎ Text
  refused_relay host from none = inr from
  refused_relay host from (some e) = inl (config_error (bytes "relay " ++ host ++ bytes ": " ++ e))

  unfoldable pub default_sender : (Text → Option Text) → MailConfig → MailError ⊎ Text
  unfolding smtp_parts
  default_sender relay_fails c = elim c.relay [
    | some r ↦ refused_relay r.host r.from_address (relay_fails r.host)
    | none ↦ and_then (smtp_parts c) (λ parts. inr mailpit_from)
  ]

  -- How the inbox's client fails, if it does.
  abbrev pub with_client : MailConfig → Option MailError → Text → MailError ⊎ Mailer
  with_client c (some e) from = inl e
  with_client c none from =
      inr (record { config = c; default_from = from; handed = []; events = [] })

  unfoldable pub new : (Text → Option Text) → Option MailError → MailConfig → MailError ⊎ Mailer
  unfolding default_sender
  new relay_fails client_fails c =
      and_then (default_sender relay_fails c) (with_client c client_fails)

  abbrev pub built : Envelope → Option Text → MailError ⊎ Envelope
  built e none = inr e
  built e (some message) = inl (build_error message)

  unfoldable pub build : Mailer → ℕ → OutgoingMail → Readings → MailError ⊎ Envelope
  build m run mail r =
      and_then (map_err build_error (parse_mailbox (unwrap_or mail.from_address m.default_from)))
        (λ sender. and_then (map_err build_error (parse_mailbox mail.to)) (λ recipient.
          let e : Envelope = record {
            sender = sender;
            recipient = recipient;
            subject = mail.subject;
            message_id = r.message_id;
            run_tag = run_text run;
            body = mail.body;
          } in
          built e (r.build_fails e)))

  -- `Sender::send`, and the event of a mail that the transport took.
  abbrev pub hand_over :
      Mailer → ℕ → OutgoingMail → Readings → MailError ⊎ Envelope → Mailer × (MailError ⊎ SentMail)
  hand_over m run mail r (inl e) = (m, inl e)
  hand_over m run mail r (inr e) = elim (r.transport_fails e) [
    | some message ↦ (record m { handed = e ∷ m.handed }, inl (smtp_error message))
    | none ↦ (
      record m {
        handed = e ∷ m.handed;
        events =
            record { to = mail.to; subject = mail.subject; message_id = r.message_id } ∷ m.events;
      },
      inr (record { message_id = r.message_id; to = mail.to; subject = mail.subject; run = run }),
    )
  ]

  unfoldable pub send : Mailer → ℕ → OutgoingMail → Readings → Mailer × (MailError ⊎ SentMail)
  send m run mail r =
      let sent = hand_over m run mail r (build m run mail r) in
      if is_relay m.config && not (permits m.config.allowed mail.to)
      then (m, inl (recipient_not_allowed mail.to))
      else sent

  -- `Mailer::inbox`: whether there is a read side.
  unfoldable pub has_inbox : Mailer → Bool
  has_inbox m = not (is_relay m.config)
