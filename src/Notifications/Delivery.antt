-- ===== src/Notifications/Delivery.antt =====
-- A mail is delivered, or its failure is logged or raised: `send` of
-- app/notifications/email_sender.py for the mails of app/notifications/service.py.
use task_mgt_app.Base.{ℕ, String, ◌++◌, ◌≡◌, refl, Option, none, some, List, [], ◌∷◌, arith}
use task_mgt_app.Http.Auth.{Mail}
use task_mgt_app.Http.Auth as Auth
use task_mgt_app.Notifications.{
  Email, send_verification_email, send_password_reset_email, verification_link, reset_link,
}
use task_mgt_app.Notifications.Smtp.{
  SmtpError, smtp_exception, os_error, Message, message_of, smtp_host, smtp_port, Smtp, Sent, body,
  session, caught, send, run_mail,
}
use task_mgt_app.Settings.{Settings}

pub data SessionStep : Type 0 where
  connect_to : String → ℕ → SessionStep
  start_tls : SessionStep
  log_in : String → String → SessionStep
  deliver : Message → SessionStep

module _ (smtp : Smtp) (settings : Settings) where
  -- The states of a session in which no step raises.
  abbrev connected : smtp.State → smtp.State
  connected s = (smtp.connect smtp_host smtp_port s).1

  abbrev secured : smtp.State → smtp.State
  secured s = (smtp.starttls s).1

  abbrev known : smtp.State → smtp.State
  known s = (smtp.login settings.gmail_user settings.gmail_app_password (secured s)).1

  body_taken :
      (m : Message) (s : smtp.State)
      → (body smtp settings m s).0 ≡ none
      → smtp.taken (body smtp settings m s).1 ≡ m ∷ smtp.taken s
  unfolding body
  body_taken m s h = ground (
    arith,
    smtp.starttls_taken s,
    smtp.login_taken settings.gmail_user settings.gmail_app_password (secured s),
    smtp.send_message_taken m (known s),
  )

  session_taken :
      (m : Message) (s : smtp.State)
      → (session smtp settings m s).0 ≡ none
      → smtp.taken (session smtp settings m s).1 ≡ m ∷ smtp.taken s
  unfolding session
  session_taken m s h = ground (
    arith,
    smtp.connect_taken smtp_host smtp_port s,
    body_taken m (connected s),
    smtp.quit_taken (body smtp settings m (connected s)).1,
  )

  -- A step of a session, and the steps one after the other up to the first that raises.
  abbrev pub perform : SessionStep → smtp.State → Option SmtpError × smtp.State
  perform (connect_to host port) = smtp.connect host port
  perform start_tls = smtp.starttls
  perform (log_in user password) = smtp.login user password
  perform (deliver m) = smtp.send_message m

  abbrev pub walk : List SessionStep → smtp.State → Option SmtpError × smtp.State
  walk [] s = (none, s)
  walk (c ∷ l) s = let (r, s') = perform c s in elim r [ none ↦ walk l s' | some e ↦ (some e, s') ]

  -- QUIT ends the session, and its own error comes before another.
  abbrev pub hang_up : Option SmtpError × smtp.State → Option SmtpError × smtp.State
  hang_up (r, s) = let (q, s') = smtp.quit s in elim q [ none ↦ (r, s') | some e ↦ (some e, s') ]

  -- The session for a message: Gmail's server by STARTTLS, with the account of the settings.
  abbrev pub conversation : Message → smtp.State → Option SmtpError × smtp.State
  conversation m s =
      let (r, s') = perform (connect_to "smtp.gmail.com" 587) s in
      elim r [
        | none ↦ hang_up (
            walk
              (start_tls ∷ log_in settings.gmail_user settings.gmail_app_password ∷ deliver m ∷ [])
              s')
        | some e ↦ (some e, s')
      ]

  -- The message for a mail: its address, and the link with the token.
  abbrev pub written : (ℕ → String) → Mail → Message
  written decimal (Auth.send_verification_email to_email token) = record {
    subject = "Verify your email";
    from_ = settings.mail_from_name ++ (" <" ++ (settings.gmail_user ++ ">"));
    to = to_email;
    content =
        "Welcome to Task Manager!\n\n"
        ++ ("Please verify your email address by visiting:\n"
            ++ ((settings.frontend_url ++ ("/verify-email?token=" ++ token))
                ++ ("\n\n"
                    ++ ("This link expires in "
                        ++ (decimal settings.email_verification_ttl_hours ++ " hours.")))));
  }
  written decimal (Auth.send_password_reset_email to_email token) = record {
    subject = "Reset your password";
    from_ = settings.mail_from_name ++ (" <" ++ (settings.gmail_user ++ ">"));
    to = to_email;
    content =
        "A password reset was requested for your account.\n\n"
        ++ ("Reset it by visiting:\n"
            ++ ((settings.frontend_url ++ ("/reset-password?token=" ++ token))
                ++ ("\n\n"
                    ++ ("This link expires in "
                        ++ (decimal settings.password_reset_ttl_minutes
                            ++ (" minutes. "
                                ++ "If you didn't request this, you can safely ignore this email."))))));
  }

  -- The end of a mail, for what its session raises.
  abbrev pub EndsIn : Message → smtp.State → Option SmtpError → Sent smtp.State → Type 0
  EndsIn m s none d = (d.raised ≡ none) × (d.logged ≡ []) × (smtp.taken d.server ≡ m ∷ smtp.taken s)
  EndsIn m s (some smtp_exception) d =
      (d.raised ≡ none) × (d.logged ≡ record { to = m.to; subject = m.subject } ∷ [])
  EndsIn m s (some os_error) d = (d.raised ≡ some os_error) × (d.logged ≡ [])

  session_lem : (m : Message) (s : smtp.State) → session smtp settings m s ≡ conversation m s
  unfolding session body
  session_lem m s = ground arith

  caught_ends :
      (email : Email) (s : smtp.State) (r : Option SmtpError × smtp.State)
      → (r.0 ≡ none → smtp.taken r.1 ≡ message_of settings email ∷ smtp.taken s)
      → EndsIn (message_of settings email) s r.0 (caught smtp email r)
        × ((caught smtp email r).server ≡ r.1)
  unfolding message_of
  caught_ends email s (none, t) h = ((refl, refl, h refl), refl)
  caught_ends email s (some smtp_exception, t) h = ((refl, refl), refl)
  caught_ends email s (some os_error, t) h = ((refl, refl), refl)

  send_ends :
      (email : Email) (s : smtp.State)
      → let m = message_of settings email in
        let (r, t) = conversation m s in
        let d = send smtp settings email s in EndsIn m s r d × (d.server ≡ t)
  unfolding send
  send_ends email s =
      let m = message_of settings email in
      rw⁻¹ (session_lem m s) (caught_ends email s (session smtp settings m s) (session_taken m s))

  -- For a mail that a request leaves behind, take the session with smtp.gmail.com, port 587, by
  -- STARTTLS with the account of the settings, that sends the message with the mail's address and
  -- the link with its token, each step only if none before it raises, and QUIT in the end once
  -- there is a connection. The server is left as by this session. If it raises nothing, the server
  -- has taken the message, and nothing is raised or logged; if it raises an SMTPException, the
  -- sender raises nothing and logs one failure, with the address and the subject and nothing else;
  -- if it raises another error, of the connection, that leaves the sender and nothing is logged.
  pub never_lost :
      (decimal : ℕ → String) (mail : Mail) (s : smtp.State)
      → let m = written decimal mail in
        let (r, t) = conversation m s in
        let d = run_mail smtp settings decimal mail s in EndsIn m s r d × (d.server ≡ t)
  unfolding run_mail message_of send_verification_email send_password_reset_email verification_link
      reset_link
  never_lost decimal (Auth.send_verification_email to_email token) s =
      send_ends (send_verification_email settings decimal to_email token) s
  never_lost decimal (Auth.send_password_reset_email to_email token) s =
      send_ends (send_password_reset_email settings decimal to_email token) s
