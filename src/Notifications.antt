-- ===== src/Notifications.antt =====
-- `NotificationService` of app/notifications/service.py: the two messages, as they are handed to
-- the sender. How Python writes an integer is a parameter.
pub mod Smtp
pub mod Delivery
use task_mgt_app.Base.{ℕ, String, ◌++◌}
use task_mgt_app.Settings.{Settings}

pub record Email : Type 0 where
  pub to : String
  pub subject : String
  pub body : String

module _ (settings : Settings) (decimal : ℕ → String) where
  unfoldable pub verification_link : String → String
  verification_link token = settings.frontend_url ++ ("/verify-email?token=" ++ token)

  unfoldable pub send_verification_email : String → String → Email
  unfolding verification_link
  send_verification_email to_email token = record {
    to = to_email;
    subject = "Verify your email";
    body =
        "Welcome to Task Manager!\n\n"
        ++ ("Please verify your email address by visiting:\n"
            ++ (verification_link token
                ++ ("\n\n"
                    ++ ("This link expires in "
                        ++ (decimal settings.email_verification_ttl_hours ++ " hours.")))));
  }

  unfoldable pub reset_link : String → String
  reset_link token = settings.frontend_url ++ ("/reset-password?token=" ++ token)

  unfoldable pub send_password_reset_email : String → String → Email
  unfolding reset_link
  send_password_reset_email to_email token = record {
    to = to_email;
    subject = "Reset your password";
    body =
        "A password reset was requested for your account.\n\n"
        ++ ("Reset it by visiting:\n"
            ++ (reset_link token
                ++ ("\n\n"
                    ++ ("This link expires in "
                        ++ (decimal settings.password_reset_ttl_minutes
                            ++ (" minutes. "
                                ++ "If you didn't request this, you can safely ignore this email."))))));
  }
