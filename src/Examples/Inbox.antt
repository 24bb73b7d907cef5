-- ===== src/Examples/Inbox.antt =====
-- The theorems on crates/mail's inbox and mailer at concrete inputs: two runs that share a Mailpit, and
-- a relay with one allowed domain.
use servr.Common.{
  ℕ, arith, ◌+◌, Lacks, is_whitespace, ◌≡◌, refl, inr, true, none, some, List, [], ◌∷◌, ◌++◌, map,
  bytes, bytes_beq, Text, All, if◌then◌else◌,
}
use servr.Mail.Allow.{parse}
use servr.Mail.Inbox.{Summary, answered, Headers, Mailpit, headers_path, for_run}
use servr.Mail.Inbox.Isolation.{
  Held, Carries, untagged, tagged, other, Serves, given, for_run-select,
}
use servr.Mail.Mailer.{
  MailConfig, OutgoingMail, Lettre, Mailer, Readings, is_relay, default_sender, new,
}
use servr.Mail.Mailer.Relayed.{Among, Proper, send_all, relayed-Proper}

abbrev summary : Text → Summary
summary id = record {
  id = id;
  message_id = id ++ bytes "@testbed";
  from_address = some (bytes "testbed@localhost");
  to_addresses = some (bytes "a@example.com" ∷ []);
  subject = bytes "hello";
  snippet = [];
  created = [];
}

abbrev run_text : ℕ → Text
run_text run = 114 ∷ (run + 97) ∷ []

abbrev stamped : ℕ → Headers
stamped run =
    (bytes "Subject", bytes "hello" ∷ []) ∷ (bytes "x-testbed-run", run_text run ∷ []) ∷ []

-- One message of each of two runs, and one that no run sent.
abbrev held : List Held
held =
    record { summary = summary (bytes "c"); run = some 2 }
    ∷ record { summary = summary (bytes "b"); run = none }
    ∷ record { summary = summary (bytes "a"); run = some 1 }
    ∷ []

abbrev mailpit : Mailpit
mailpit = record {
  Box = List Held;
  listing = λ box path. answered 200 (inr (map (λ m. m.summary) box));
  headers = λ box path.
      if bytes_beq path (headers_path (bytes "a"))
      then answered 200 (inr (stamped 1))
      else (if bytes_beq path (headers_path (bytes "c"))
          then answered 200 (inr (stamped 2))
          else answered 200 (inr []));
  delete_messages = λ box. ([], inr 200);
}

run_text_inj : (a b : ℕ) → run_text a ≡ run_text b → a ≡ b
run_text_inj a b h = ground arith

stamped-Carries :
    (run : ℕ) → Lacks is_whitespace (run_text run) → Carries (stamped run) (some (run_text run))
stamped-Carries run plain =
    other (bytes "Subject") (bytes "hello" ∷ []) ((bytes "x-testbed-run", run_text run ∷ []) ∷ [])
      (some (run_text run)) refl (tagged (bytes "x-testbed-run") (run_text run) [] [] refl plain)

held-Serves : All (Serves mailpit run_text held) held
unfolding headers_path
held-Serves = (
  record { hs = stamped 2; answer = refl; carries = stamped-Carries 2 (refl, (refl, tt)) },
  (
    record { hs = []; answer = refl; carries = untagged },
    (record { hs = stamped 1; answer = refl; carries = stamped-Carries 1 (refl, (refl, tt)) }, tt),
  ),
)

for_run-select_example :
    for_run mailpit held (run_text 1) none 200
    ≡ inr (given mailpit run_text (record { summary = summary (bytes "a"); run = some 1 }) ∷ [])
for_run-select_example =
    for_run-select mailpit run_text run_text_inj held 1 200 held refl held-Serves

abbrev lettre : Lettre
lettre = record { Mailbox = Text; parse_mailbox = λ raw. inr raw; run_text = run_text }

abbrev relaying : MailConfig
relaying = record {
  smtp = bytes "localhost:1025";
  api = bytes "http://localhost:8025";
  relay = some (record {
    host = bytes "smtp.example.test";
    port = 587;
    user = bytes "user";
    password = bytes "pass";
    from_address = bytes "testbed@example.com";
  });
  allowed = parse (bytes "@example.com");
}

abbrev mail_to : Text → OutgoingMail
mail_to to = record { to = to; subject = bytes "hi"; body = bytes "x"; from_address = none }

abbrev readings : Readings lettre
readings = record {
  message_id = bytes "1@testbed";
  build_fails = λ e. none;
  transport_fails = λ e. none;
}

abbrev mails : List (ℕ × OutgoingMail × Readings lettre)
mails =
    (1, mail_to (bytes "a@example.com"), readings)
    ∷ (2, mail_to (bytes "b@evil.example"), readings)
    ∷ []

relaying-is_relay : is_relay relaying ≡ true
unfolding is_relay
relaying-is_relay = refl

abbrev built : Mailer lettre
built = record {
  config = relaying;
  default_from = bytes "testbed@example.com";
  handed = [];
  events = [];
}

relayed-Proper_example :
    All (λ e. Among (Proper lettre relaying.allowed e) mails) (send_all lettre built mails).handed
unfolding new default_sender
relayed-Proper_example =
    relayed-Proper lettre (λ host. none) none relaying built mails refl relaying-is_relay
