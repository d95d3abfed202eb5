-- ===== src/Tests/Auth/Race.antt =====
-- Two refreshes with the token of one login of ann's at the same time.
use task_mgt_app.Base.{◌≡◌, List, [], ◌∷◌, arith}
use task_mgt_app.Auth.Concurrent.{called, returned, undisturbed}
use task_mgt_app.Auth.Concurrent.Race.{Side, left, right, interleave, two, HasPair, race}
use task_mgt_app.Auth.Service.{bad_refresh, refresh_access_token}
use task_mgt_app.Errors.{err}
use task_mgt_app.Tests.Auth.{env, draws, draws', id_text}
use task_mgt_app.Tests.Auth.Sessions.{session, signed_in, session_now, entry, other_session}

abbrev turns : List Side
turns = left ∷ right ∷ left ∷ right ∷ right ∷ left ∷ left ∷ right ∷ []

race_example :
    let start = two env (id_text 12) draws' draws session 5 signed_in turns in
    let alone = refresh_access_token env draws' session signed_in in
    (undisturbed env (called draws' session) signed_in ≡ (returned alone.0, alone.1))
    × HasPair env (interleave env (left ∷ right ∷ turns) start).first
    × HasPair env (interleave env (left ∷ right ∷ turns) start).second
    × ((interleave env (left ∷ left ∷ turns) start).second ≡ returned (err bad_refresh))
race_example =
    race env (id_text 12) draws' draws session 5 signed_in turns session_now entry other_session
      (omega arith) (omega arith)
