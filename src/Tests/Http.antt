-- ===== src/Tests/Http.antt =====
-- Examples for the pages, the exception handlers and the auth endpoints.
use task_mgt_app.Base.{ℕ, ◌≡◌, refl, Option, none, some, List, [], ◌∷◌}
use task_mgt_app.Auth.Fake.{get_by_email, scan}
use task_mgt_app.Errors.{ok, app, account_locked}
use task_mgt_app.Http.{Starlette, Class, registered, first_of, answer, handle}
use task_mgt_app.Http.Auth.{forgot_password, body, mails, send_password_reset_email, forgot_alike}
use task_mgt_app.Http.Statuses.{answered}
use task_mgt_app.Tests.Auth.{env, draws, draws', ann, with_ann}

abbrev pub lookup : List (Class × ℕ) → List Class → Option ℕ
lookup handlers [] = none
lookup handlers (c ∷ cs) = first_of (registered c handlers) (lookup handlers cs)

abbrev pub starlette : Starlette
starlette = record {
  lookup_handler = lookup;
  lookup_handler_none = λ handlers. refl;
  lookup_handler_cons = λ handlers c cs. refl;
}

answered_example :
    answer starlette none (app (account_locked "Locked." 900))
    ≡ handle none (account_locked "Locked." 900) (some 423)
answered_example = answered starlette none (account_locked "Locked." 900)

found_ann : get_by_email (λ s. s) "ann@x.org" with_ann.users ≡ ok (some ann)
unfolding get_by_email scan
found_ann = refl

found_nobody : get_by_email (λ s. s) "bob@x.org" with_ann.users ≡ ok none
unfolding get_by_email scan
found_nobody = refl

forgot_alike_example :
    (body env (forgot_password env draws "ann@x.org" with_ann).0
      ≡ body env (forgot_password env draws' "bob@x.org" with_ann).0)
    × (mails env (forgot_password env draws "ann@x.org" with_ann).0
        ≡ send_password_reset_email "ann@x.org" "tok" ∷ [])
    × (mails env (forgot_password env draws' "bob@x.org" with_ann).0 ≡ [])
    × ((forgot_password env draws' "bob@x.org" with_ann).1 ≡ with_ann)
forgot_alike_example =
    forgot_alike env draws draws' "ann@x.org" "bob@x.org" ann with_ann found_ann found_nobody
