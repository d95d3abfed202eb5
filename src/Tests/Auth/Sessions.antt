-- ===== src/Tests/Auth/Sessions.antt =====
-- Examples for the sessions: a refresh, a logout, a reset, and access tokens.
use task_mgt_app.Base.{ℕ, ◌+◌, ◌<◌, String, ◌≡◌, refl, false, some, arith, str_eq}
use task_mgt_app.Auth.Access.{
  IsAccessToken, kinds_apart, access_survives_reset, issued-IsAccessToken,
}
use task_mgt_app.Auth.Calls.{issue_token_pair_lem}
use task_mgt_app.Auth.Keys.{refresh_token_key}
use task_mgt_app.Auth.Reset.{reset_once, with_password}
use task_mgt_app.Auth.Deps.{bad_token, get_current_user}
use task_mgt_app.Auth.Reach.{waits}
use task_mgt_app.Auth.Revoked.Forever.{here, next, exchanged, ended_forever}
use task_mgt_app.Auth.Service.{bad_reset, bad_refresh, reset_password, refresh_access_token}
use task_mgt_app.Auth.Sessions.{IsRefreshToken, refresh_exchanged}
use task_mgt_app.Auth.Sessions.Lifetime.{
  issued_token, issued_world, issued-IsRefreshToken, issued_entry, now-wait,
}
use task_mgt_app.Auth.World.{World, wait}
use task_mgt_app.Errors.{ok, err}
use task_mgt_app.Security.{create_access_token}
use task_mgt_app.Tests.Auth.{env, libs, settings, draws, draws', id_text, ann, with_ann}
use task_mgt_app.Tests.Auth.Tokens.{IsValid-ann, asked, reset_token}

-- The refresh token of a login of ann's, and the world that the login left.
abbrev pub session : String
session = issued_token env draws 5 with_ann

abbrev pub signed_in : World env
signed_in = wait 0 (issued_world env draws 5 with_ann)

pub session_now : IsRefreshToken env session (id_text 12) (id_text 5) signed_in.now
session_now = rw now-wait (issued-IsRefreshToken env draws 5 with_ann 0 (omega arith))

pub entry : env.redis.get (refresh_token_key (id_text 12)) signed_in.redis ≡ some (id_text 5)
entry = issued_entry env draws 5 with_ann 0 (omega arith)

pub other_session : str_eq (id_text 22) (id_text 12) ≡ false
other_session = refl

session_at : (n : ℕ) → n < 604800 → IsRefreshToken env session (id_text 12) (id_text 5) (100 + n)
session_at n h = issued-IsRefreshToken env draws 5 with_ann n h

session_rotated :
    IsRefreshToken env session
      (id_text 12)
      (id_text 5)
      (wait 60 (refresh_access_token env draws' session signed_in).1).now
unfolding wait
session_rotated =
    rw (refresh_exchanged env draws' 5 signed_in session_now entry, issue_token_pair_lem, now-wait)
      (session_at 60 (omega arith))

ended_forever_example :
    refresh_access_token env draws session
      (wait 60 (refresh_access_token env draws' session signed_in).1)
    ≡ (err bad_refresh, wait 60 (refresh_access_token env draws' session signed_in).1)
ended_forever_example =
    ended_forever env (id_text 12) draws 5
      (exchanged draws' signed_in session_now entry other_session)
      (next here (waits 60 (refresh_access_token env draws' session signed_in).1) tt)
      session_rotated

-- The access token of a login of ann's, at the time of the login.
abbrev pub access : String
access = create_access_token libs settings 100 11 5

pub access-IsAccessToken : IsAccessToken env access (id_text 5) 100
access-IsAccessToken = issued-IsAccessToken env 100 11 5 0 (omega arith)

session_new : IsRefreshToken env session (id_text 12) (id_text 5) with_ann.now
session_new = session_at 0 (omega arith)

kinds_apart_example :
    (refresh_access_token env draws access with_ann ≡ (err bad_refresh, with_ann))
    × (get_current_user env session with_ann ≡ (err bad_token, with_ann))
kinds_apart_example = kinds_apart env draws with_ann access-IsAccessToken session_new

access_survives_reset_example :
    (get_current_user env access (reset_password env draws "tok" "Secret2!" asked).1).0
    ≡ ok (with_password env draws "Secret2!" ann)
access_survives_reset_example =
    access_survives_reset env draws "Secret2!" ann asked IsValid-ann reset_token refl refl
      access-IsAccessToken

reset_once_example :
    reset_password env draws' "tok" "Secret3!" (reset_password env draws "tok" "Secret2!" asked).1
    ≡ (err bad_reset, (reset_password env draws "tok" "Secret2!" asked).1)
reset_once_example = reset_once env draws draws' "tok" "Secret2!" "Secret3!" ann asked reset_token
