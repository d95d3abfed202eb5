-- ===== src/Tests/Auth/Tokens.antt =====
-- Examples for the registration, the password reset and the lifetime of refresh tokens.
use task_mgt_app.Base.{◌*◌, String, ◌≡◌, refl, some, arith, ltb, str_eq_refl, if◌then◌else◌}
use task_mgt_app.Auth.Fake.{get_by_email, get_by_id, find, live, scan}
use task_mgt_app.Auth.Good.{Good}
use task_mgt_app.Auth.Index.Tokens.{dropped}
use task_mgt_app.Auth.Keys.{pwd_reset_key, login_lock_key, key_laws}
use task_mgt_app.Auth.Login.{IsOpen}
use task_mgt_app.Auth.Reach.{here, next, logs_in, waits, Reach-Good}
use task_mgt_app.Auth.Registration.{IsNew}
use task_mgt_app.Auth.Registration.Verification.{register_then_verify, register_verify_login}
use task_mgt_app.Auth.Reset.{IsResetToken, login_after_reset}
use task_mgt_app.Auth.Reset.Request.{request_then_reset}
use task_mgt_app.Auth.Service.{
  bad_refresh, bad_reset, bad_verification, register, verify_email, login, request_password_reset,
  reset_password, refresh_access_token, issue_token_pair,
}
use task_mgt_app.Auth.Sessions.Lifetime.{issued_token, issued_world, usable_until, refused_from}
use task_mgt_app.Auth.World.{World, wait}
use task_mgt_app.Errors.{ok, err}
use task_mgt_app.Tests.Auth.{env, draws, draws', id_text, ann, with_ann, nobody, empty_redis}

found_ann : get_by_email (λ s. s) "ann@x.org" with_ann.users ≡ ok (some ann)
unfolding get_by_email scan
found_ann = refl

pub found_ann_id : get_by_id 5 with_ann.users ≡ ok (some ann)
unfolding get_by_id find live
found_ann_id = refl

pub IsValid-ann : env.users.IsValid with_ann.users
unfolding find
IsValid-ann = (refl, tt)

new_ann : IsNew env draws "ann@x.org" "Secret1!" "Ann" nobody
unfolding find get_by_email scan
new_ann = record { valid = tt; fresh = refl; free = refl }

register_then_verify_example :
    (verify_email env "tok"
      (wait 86400 (register env draws "ann@x.org" "Secret1!" "Ann" nobody).1)).0
    ≡ (if ltb 86400 (24 * 3600) then ok tt else err bad_verification)
register_then_verify_example =
    register_then_verify env draws "ann@x.org" "Secret1!" "Ann" nobody new_ann 86400

register_verify_login_example :
    (tokens : String × String) × ((login env draws' "ann@x.org" "Secret1!"
        (verify_email env "tok"
          (wait 60 (register env draws "ann@x.org" "Secret1!" "Ann" nobody).1)).1).0
      ≡ ok tokens)
register_verify_login_example =
    register_verify_login env draws "ann@x.org" "Secret1!" "Ann" nobody new_ann 60 (omega arith)
      draws' tt

-- The world in which ann asked for a reset.
abbrev pub asked : World env
asked = record with_ann { redis = env.redis.set (pwd_reset_key "tok") (id_text 5) 1800 empty_redis }

pub reset_token : IsResetToken env "tok" ann asked
reset_token = record { holds = simp (env.redis.get-set, str_eq_refl); found = found_ann_id }

IsOpen-asked : IsOpen (env.redis.ttl (login_lock_key "ann@x.org") asked.redis)
IsOpen-asked = simp (env.redis.ttl-set, key_laws) tt

request_then_reset_example :
    (reset_password env draws' "tok" "Secret2!"
      (wait 1799 (request_password_reset env draws "ann@x.org" with_ann).1)).0
    ≡ (if ltb 1799 (30 * 60) then ok tt else err bad_reset)
request_then_reset_example =
    request_then_reset env draws draws' "ann@x.org" "Secret2!" ann with_ann 1799 IsValid-ann
      found_ann

login_after_reset_example :
    (tokens : String × String) × ((login env draws' "ann@x.org" "Secret2!"
        (reset_password env draws "tok" "Secret2!" asked).1).0
      ≡ ok tokens)
login_after_reset_example =
    login_after_reset env draws draws' "tok" "Secret2!" "ann@x.org" ann asked IsValid-ann
      reset_token found_ann IsOpen-asked refl refl refl

pub Good-with_ann : Good env with_ann
Good-with_ann = record { listed = λ jti user e. cc; kept = λ user. tt }

-- The worlds that a login and a day of waiting lead to.
Reach-Good_example : Good env (wait 86400 (login env draws "ann@x.org" "Secret1!" with_ann).1)
Reach-Good_example =
    Reach-Good env Good-with_ann
      (next (next here (logs_in draws "ann@x.org" "Secret1!" with_ann)) (waits 86400 _))

usable_until_example :
    refresh_access_token env draws'
      (issued_token env draws 5 with_ann)
      (wait 3600 (issued_world env draws 5 with_ann))
    ≡ issue_token_pair env draws' 5 (record (wait 3600 (issued_world env draws 5 with_ann)) {
      redis =
          dropped env.redis
            (id_text 12)
            (id_text 5)
            (wait 3600 (issued_world env draws 5 with_ann)).redis;
    })
usable_until_example = usable_until env draws draws' 5 with_ann 3600 (omega arith)

refused_from_example :
    refresh_access_token env draws'
      (issued_token env draws 5 with_ann)
      (wait 604800 (issued_world env draws 5 with_ann))
    ≡ (err bad_refresh, wait 604800 (issued_world env draws 5 with_ann))
refused_from_example = refused_from env draws draws' 5 with_ann 604800 (omega arith)
