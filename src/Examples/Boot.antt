-- ===== src/Examples/Boot.antt =====
-- Runs of what reads the environment and the arguments at the start: crates/telemetry/src/lib.rs,
-- crates/mail/src/lib.rs and server/src/main.rs.
use servr.Common.{
  ◌≡◌, refl, true, false, none, some, inl, inr, [], ◌∷◌, ◌++◌, Bytes, bytes, bytes_beq,
  if◌then◌else◌, rsplit_once, parse_unsigned,
}
use servr.Telemetry.Collector.{Metadata, authority, otlp_headers, export_disabled, endpoint_name}
use servr.Mail.Mailer.{mailpit_from, parse_u16}
use servr.Mail.Env.{Env, from_env, relay_of}
use servr.Server.{restore_path, port}

-- An environment in which one variable is set.
abbrev only : Bytes → Bytes → Env
only name value asked = if bytes_beq name asked then some value else none

abbrev any_text : Metadata
any_text = record { is_key = λ t. true; is_value = λ t. true }

bare_host : authority (bytes "https://collector.example/") ≡ bytes "collector.example:443"
unfolding authority parse_u16 rsplit_once parse_unsigned
bare_host = refl

host_with_port : authority (bytes "http://localhost:4317") ≡ bytes "localhost:4317"
unfolding authority parse_u16 rsplit_once parse_unsigned
host_with_port = refl

-- A value keeps its own `=`, and an entry that is malformed is passed over.
two_headers :
    otlp_headers any_text (
      only
        (bytes "OTEL_EXPORTER_OTLP_HEADERS")
        (bytes "Authorization=Basic a==, nonsense,x-team=1"))
    ≡ (bytes "authorization", bytes "Basic a==") ∷ (bytes "x-team", bytes "1") ∷ []
unfolding otlp_headers
two_headers = refl

empty_endpoint : export_disabled (only endpoint_name (bytes " ")) ≡ true
unfolding export_disabled
empty_endpoint = refl

nothing_set : export_disabled (λ name. none) ≡ false
unfolding export_disabled
nothing_set = refl

-- A relay of which only the host is set sends from Mailpit's address.
relay_without_sender :
    (relay_of
      (only (bytes "SMTP_HOST") (bytes "relay.example"))
      (bytes "relay.example")).from_address
    ≡ mailpit_from
unfolding relay_of
relay_without_sender = refl

no_relay : (from_env (λ name. none)).relay ≡ none
unfolding from_env
no_relay = refl

-- A variable that is no port hides the other one.
abbrev two_ports : Env
two_ports asked =
    if bytes_beq (bytes "TESTBED_PORT") asked
    then some (bytes "http")
    else if bytes_beq (bytes "PORT") asked
    then some (bytes "9000")
    else none

hidden_port : port two_ports ≡ 8080
unfolding port parse_u16 parse_unsigned
hidden_port = refl

fallback_port : port (only (bytes "PORT") (bytes "9000")) ≡ 9000
unfolding port parse_u16 parse_unsigned
fallback_port = refl

mistyped :
    restore_path (λ t. t) (bytes "--restore" ∷ bytes "a" ∷ bytes "b" ∷ [])
    ≡ inl (bytes "error: unexpected argument " ++ bytes "b")
unfolding restore_path
mistyped = refl

no_arguments : restore_path (λ t. t) [] ≡ inr none
unfolding restore_path
no_arguments = refl
