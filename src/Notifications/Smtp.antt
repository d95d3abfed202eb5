-- ===== src/Notifications/Smtp.antt =====
-- `GmailSMTPSender` of app/notifications/email_sender.py: a mail over a session with the SMTP
-- server, and what of a failure is logged. smtplib is a parameter: the steps of a session on a state
-- that is not given, each of which may raise.
use task_mgt_app.Base.{ℕ, String, ◌++◌, ◌≡◌, Option, none, some, List, [], ◌∷◌}
use task_mgt_app.Notifications.{Email, send_verification_email, send_password_reset_email}
use task_mgt_app.Http.Auth.{Mail}
use task_mgt_app.Http.Auth as Auth
use task_mgt_app.Settings.{Settings}

-- What smtplib raises: an `SMTPException`, or an error of the connection.
pub data SmtpError : Type 0 where
  smtp_exception os_error : SmtpError

-- `EmailMessage`
pub record Message : Type 0 where
  pub subject : String
  pub from_ : String
  pub to : String
  pub content : String

-- `Email` with its fields is what `EmailSender.send` gets.
unfoldable pub message_of : Settings → Email → Message
message_of settings email = record {
  subject = email.subject;
  from_ = settings.mail_from_name ++ (" <" ++ (settings.gmail_user ++ ">"));
  to = email.to;
  content = email.body;
}

abbrev pub smtp_host : String
smtp_host = "smtp.gmail.com"

abbrev pub smtp_port : ℕ
smtp_port = 587

-- The steps of a session, with the messages that the server has taken. `quit` ends a session, also
-- one in which a step has raised; its own error takes the place of that step's.
pub record Smtp : Type 1 where
  pub State : Type 0
  pub taken : State → List Message
  pub connect : String → ℕ → State → Option SmtpError × State
  pub starttls : State → Option SmtpError × State
  pub login : String → String → State → Option SmtpError × State
  pub send_message : Message → State → Option SmtpError × State
  pub quit : State → Option SmtpError × State
  pub connect_taken :
      (host : String) (port : ℕ) (s : State) → taken (connect host port s).1 ≡ taken s
  pub starttls_taken : (s : State) → taken (starttls s).1 ≡ taken s
  pub login_taken : (user password : String) (s : State) → taken (login user password s).1 ≡ taken s
  pub send_message_taken :
      (m : Message) (s : State)
      → (send_message m s).0 ≡ none
      → taken (send_message m s).1 ≡ m ∷ taken s
  pub quit_taken : (s : State) → taken (quit s).1 ≡ taken s

-- `logger.error("email_send_failed", extra=…)`
pub record Failure : Type 0 where
  pub to : String
  pub subject : String

-- What a call of `send` leaves: what it raises, what it logs, and the server.
pub record Sent (S : Type 0) : Type 0 where
  pub raised : Option SmtpError
  pub logged : List Failure
  pub server : S

module _ (smtp : Smtp) where
  abbrev pub Step : Type 0
  Step = smtp.State → Option SmtpError × smtp.State

  -- A step behind one that may have raised.
  abbrev pub behind : Option SmtpError × smtp.State → Step → Option SmtpError × smtp.State
  behind (none, s) step = step s
  behind (some e, s) step = (some e, s)

  -- The end of the `with` block: the error of `quit`, or the one that was there.
  abbrev pub closed :
      Option SmtpError → Option SmtpError × smtp.State → Option SmtpError × smtp.State
  closed before (none, s) = (before, s)
  closed before (some e, s) = (some e, s)

  abbrev pub close : Option SmtpError × smtp.State → Option SmtpError × smtp.State
  close (r, s) = closed r (smtp.quit s)

  -- The body of the `with` block.
  unfoldable pub body : Settings → Message → Step
  body settings m s =
      behind (behind (smtp.starttls s) (smtp.login settings.gmail_user settings.gmail_app_password))
        (smtp.send_message m)

  unfoldable pub session : Settings → Message → Step
  unfolding body
  session settings m s =
      behind (smtp.connect smtp_host smtp_port s) (λ s'. close (body settings m s'))

  -- `except smtplib.SMTPException`
  abbrev pub caught : Email → Option SmtpError × smtp.State → Sent smtp.State
  caught email (none, s) = record { raised = none; logged = []; server = s }
  caught email (some smtp_exception, s) = record {
    raised = none;
    logged = record { to = email.to; subject = email.subject } ∷ [];
    server = s;
  }
  caught email (some os_error, s) = record { raised = some os_error; logged = []; server = s }

  unfoldable pub send : Settings → Email → smtp.State → Sent smtp.State
  unfolding session message_of
  send settings email s = caught email (session settings (message_of settings email) s)

  -- A background task of the router: the message that `NotificationService` builds, sent.
  unfoldable pub run_mail : Settings → (ℕ → String) → Mail → smtp.State → Sent smtp.State
  unfolding send send_verification_email send_password_reset_email
  run_mail settings decimal (Auth.send_verification_email to_email token) =
      send settings (send_verification_email settings decimal to_email token)
  run_mail settings decimal (Auth.send_password_reset_email to_email token) =
      send settings (send_password_reset_email settings decimal to_email token)
