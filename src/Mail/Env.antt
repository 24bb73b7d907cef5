-- ===== src/Mail/Env.antt =====
-- `MailConfig::from_env` of crates/mail/src/lib.rs: the mail surface as the environment configures
-- it. The environment is a function from names; a variable that is no text counts as unset.
use servr.Common.{Option, none, some, ◌++◌, [], Text, bytes, show_ℕ, ℕ}
use servr.Core.State.{unwrap_or}
use servr.Mail.Allow.{parse}
use servr.Mail.Mailer.{Relay, MailConfig, smtp_port, mailpit_from, parse_u16}

abbrev pub Env : Type 0
Env = Text → Option Text

abbrev pub http_port : ℕ
http_port = 8025

-- The submission port.
abbrev pub relay_port : ℕ
relay_port = 587

unfoldable pub default : MailConfig
unfolding parse
default = record {
  smtp = bytes "localhost:" ++ show_ℕ smtp_port;
  api = bytes "http://localhost:" ++ show_ℕ http_port;
  relay = none;
  allowed = record { entries = [] };
}

abbrev pub first_set : Option Text → Option Text → Option Text
first_set none b = b
first_set (some a) b = some a

-- `and_then(|p| p.parse().ok())`
abbrev pub parsed_port : Option Text → Option ℕ
parsed_port none = none
parsed_port (some p) = parse_u16 p

unfoldable pub relay_of : Env → Text → Relay
relay_of var host = record {
  host = host;
  port = unwrap_or (parsed_port (var (bytes "SMTP_PORT"))) relay_port;
  user = unwrap_or (var (bytes "SMTP_USER")) [];
  password = unwrap_or (var (bytes "SMTP_PASS")) [];
  from_address =
      unwrap_or (first_set (var (bytes "MAIL_FROM")) (var (bytes "SMTP_USER"))) mailpit_from;
}

-- The presence of `SMTP_HOST` is the switch.
unfoldable pub from_env : Env → MailConfig
unfolding relay_of default
from_env var = record {
  smtp = unwrap_or (var (bytes "MAILPIT_SMTP")) default.smtp;
  api = unwrap_or (first_set (var (bytes "MAILPIT_API")) (var (bytes "MAILPIT_HTTP"))) default.api;
  relay = elim (var (bytes "SMTP_HOST")) [ none ↦ none | some host ↦ some (relay_of var host) ];
  allowed = parse (unwrap_or (var (bytes "MAIL_ALLOWED_RECIPIENTS")) []);
}
