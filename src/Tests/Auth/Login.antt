-- ===== src/Tests/Auth/Login.antt =====
-- Examples for the login and its lockout.
use task_mgt_app.Base.{
  String, ◌≡◌, refl, true, false, none, some, List, [], ◌∷◌, map, arith, pos, ◌*◌, ◌-◌, ap, ◌∙◌,
  str_eq_refl,
}
use task_mgt_app.Auth.Calls.{issue_token_pair_lem}
use task_mgt_app.Auth.Concurrent.Logins.{check_lock, attempt, run_attempts, overtaken}
use task_mgt_app.Auth.Fake.{get_by_email, scan}
use task_mgt_app.Auth.Keys.{login_lock_key}
use task_mgt_app.Auth.Lockout.{run_logins, locks_at_limit, unlocked_after}
use task_mgt_app.Auth.Login.{IsRejected, login_passes}
use task_mgt_app.Auth.Login.Outcomes.{refusals_alike, login_sound, HasPassed}
use task_mgt_app.Auth.Service.{bad_credentials, login, credentials_valid}
use task_mgt_app.Auth.World.{World, Draws, wait, ◌>>=◌}
use task_mgt_app.Errors.{ok, err, app, account_locked}
use task_mgt_app.Security.{verify_password, create_access_token, create_refresh_token}
use task_mgt_app.Tests.Auth.{env, draws, draws', ann, with_ann, nobody, empty_redis, libs, settings}

pub wrong_password : IsRejected env "ann@x.org" "guess" with_ann.users
unfolding get_by_email credentials_valid verify_password
wrong_password = record {
  row = some ann;
  valid = false;
  found = refl;
  checked = refl;
  refused = refl;
}

unknown_address : IsRejected env "ann@x.org" "guess" nobody.users
unfolding get_by_email credentials_valid
unknown_address = record { row = none; valid = false; found = refl; checked = refl; refused = refl }

refusals_alike_example :
    let other = login env draws' "ann@x.org" "guess" nobody in
    ((login env draws "ann@x.org" "guess" with_ann).0 ≡ other.0)
    × ((login env draws "ann@x.org" "guess" with_ann).1.redis ≡ other.1.redis)
refusals_alike_example =
    refusals_alike env draws draws' "ann@x.org" "guess" "guess" with_ann nobody.users tt
      wrong_password unknown_address

abbrev pub guesses : List (Draws × String)
guesses = (draws, "guess") ∷ (draws, "guess") ∷ (draws', "guess") ∷ []

locks_at_limit_example :
    ((run_logins env "ann@x.org" guesses with_ann).0 ≡ map (λ _. err bad_credentials) guesses)
    × ((login env draws "ann@x.org" "Secret1!"
          (wait 60 (run_logins env "ann@x.org" guesses with_ann).1)).0
        ≡ err (
            app (account_locked "Too many failed login attempts. Try again later." (15 * 60 - 60))))
locks_at_limit_example =
    locks_at_limit env "ann@x.org" guesses with_ann 60 draws "Secret1!" tt
      (wrong_password, (wrong_password, (wrong_password, tt))) refl refl (omega arith)

abbrev two_guesses : List (Draws × String)
two_guesses = (draws, "guess") ∷ (draws', "guess") ∷ []

-- The world in which ann's address is locked.
abbrev locked : World env
locked = record with_ann { redis = env.redis.set (login_lock_key "ann@x.org") "1" 900 empty_redis }

lock_set : env.redis.ttl (login_lock_key "ann@x.org") locked.redis ≡ pos 900
lock_set = simp (env.redis.ttl-set, str_eq_refl)

ann_found : get_by_email (λ s. s) "ann@x.org" with_ann.users ≡ ok (some ann)
unfolding get_by_email scan
ann_found = refl

right_password : verify_password env.libs env.settings "Secret1!" ann.password_hash ≡ ok true
unfolding verify_password
right_password = refl

unlocked_after_example :
    (tokens : String × String) × ((login env draws "ann@x.org" "Secret1!" (wait 900 locked)).0
      ≡ ok tokens)
unlocked_after_example =
    unlocked_after env "ann@x.org" draws "Secret1!" ann locked 900 lock_set (omega arith) ann_found
      right_password refl refl

logged_in :
    (login env draws "ann@x.org" "Secret1!" with_ann).0
    ≡ ok (
      create_access_token libs settings 100 11 5,
      (create_refresh_token libs settings 100 13 12 5).0,
    )
logged_in =
    ap (λ p. p.0)
      (login_passes env draws "ann@x.org" "Secret1!" ann with_ann tt ann_found right_password refl
          refl
        ∙ issue_token_pair_lem env draws 5 _)

login_sound_example : HasPassed env "ann@x.org" "Secret1!" with_ann
login_sound_example = login_sound env draws "ann@x.org" "Secret1!" with_ann logged_in

overtaken_example :
    let after = run_attempts env "ann@x.org" guesses with_ann in
    (login env draws "ann@x.org" "Secret1!" with_ann
      ≡ (check_lock env "ann@x.org" >>= (λ _. attempt env draws "ann@x.org" "Secret1!")) with_ann)
    × (check_lock env "ann@x.org" with_ann ≡ (ok tt, with_ann))
    × (after.0 ≡ map (λ _. err bad_credentials) guesses)
    × ((login env draws "ann@x.org" "Secret1!" after.1).0
        ≡ err (app (account_locked "Too many failed login attempts. Try again later." (15 * 60))))
    × ((tokens : String × String) × ((attempt env draws "ann@x.org" "Secret1!" after.1).0
          ≡ ok tokens))
overtaken_example =
    overtaken env "ann@x.org" guesses draws "Secret1!" ann with_ann tt
      (wrong_password, (wrong_password, (wrong_password, tt))) (omega arith) refl ann_found
      right_password refl refl
