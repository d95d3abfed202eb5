-- ===== src/Tests/Wiring.antt =====
-- Examples for the log and the mails.
use task_mgt_app.Base.{ℕ, String, ◌≡◌, refl, Option, none, some, List, [], ◌∷◌, if◌then◌else◌}
use task_mgt_app.Base.Dict.{Dict, lookup}
use task_mgt_app.Http.Auth.{send_verification_email}
use task_mgt_app.Logging.{redact}
use task_mgt_app.Logging.Configured.{Loggers, configure_logging, write_lines, is_secret, logged}
use task_mgt_app.Notifications.Delivery.{written, conversation, EndsIn, never_lost}
use task_mgt_app.Notifications.Smtp.{SmtpError, smtp_exception, Message, Smtp, run_mail}
use task_mgt_app.Tests.Auth.{settings}
use task_mgt_app.Tests.Operations.{log_record}

abbrev loggers : Loggers
loggers = record { handlers = []; level = "WARNING"; levels = [] }

-- A conversion that adds a field.
abbrev with_level : Dict String → Dict String
with_level d = ("levelname", "INFO") ∷ d

logged_example :
    (line : Dict String) × (write_lines
        (λ s. s)
        "[REDACTED]"
        with_level
        "abc"
        (configure_logging settings loggers).handlers
        log_record
      ≡ line ∷ [])
    × (lookup "request_id" line ≡ some "abc")
    × (lookup "password" line ≡ (
        if is_secret (λ s. s) "[REDACTED]" with_level "password"
        then redact "[REDACTED]" (lookup "password" log_record)
        else lookup "password" log_record))
unfolding lookup
logged_example =
    logged (λ s. s) "[REDACTED]" with_level settings loggers "abc" log_record "password" refl
      (λ d. refl) (λ d. refl) refl

-- A server that takes every message, and refuses a login without a password.
abbrev login_step : String → List Message → Option SmtpError × List Message
login_step String.[] s = (some smtp_exception, s)
login_step (String.◌∷◌ _ _) s = (none, s)

login_step_taken : (password : String) (s : List Message) → (login_step password s).1 ≡ s
login_step_taken String.[] s = refl
login_step_taken (String.◌∷◌ _ _) s = refl

abbrev server : Smtp
server = record {
  State = List Message;
  taken = λ s. s;
  connect = λ host port s. (none, s);
  starttls = λ s. (none, s);
  login = λ user password s. login_step password s;
  send_message = λ m s. (none, m ∷ s);
  quit = λ s. (none, s);
  connect_taken = λ host port s. refl;
  starttls_taken = λ s. refl;
  login_taken = λ user password s. login_step_taken password s;
  send_message_taken = λ m s h. refl;
  quit_taken = λ s. refl;
}

abbrev decimal : ℕ → String
decimal n = "24"

never_lost_example :
    let mail = send_verification_email "ann@x.org" "tok" in
    let m = written server settings decimal mail in
    let (r, t) = conversation server settings m [] in
    let d = run_mail server settings decimal mail [] in
    EndsIn server settings m [] r d × (d.server ≡ t)
never_lost_example =
    never_lost server settings decimal (send_verification_email "ann@x.org" "tok") []
