-- ===== src/Auth/Concurrent/Race.antt =====
-- Two calls of `refresh_access_token` (app/auth/service.py) with the same token at the same time, at
-- one instant: the check of the token and its removal are two commands.
use task_mgt_app.Base.{
  ℕ, suc, ◌-◌, ◌≤◌, String, ◌≡◌, refl, ap, sym, subst, ◌∙◌, Bool, true, false, Option, none, some,
  List, [], ◌∷◌, arith, str_eq,
}
use task_mgt_app.Auth.Concurrent.{
  Coroutine, called, found, removed, unlisted, kept, returned, read_entry, unlist, advance,
  undisturbed, undisturbed_lem,
}
use task_mgt_app.Auth.Keys.{refresh_token_key, key_laws}
use task_mgt_app.Auth.Service.{bad_refresh, refresh_access_token}
use task_mgt_app.Auth.Sessions.{
  IsRefreshToken, decode_refresh_token_lem, text_claim_lem, mismatched_same, mismatched_ne,
}
use task_mgt_app.Auth.World.{Env, World, Draws}
use task_mgt_app.Entity.{Uuid}
use task_mgt_app.Errors.{Result, ok, err}
use task_mgt_app.Libraries.{Libraries}

pub data Side : Type 0 where
  left right : Side

-- The other side goes on, or this one.
abbrev pub times : Side → List Side → ℕ
times side [] = 0
times left (left ∷ s) = suc (times left s)
times left (right ∷ s) = times left s
times right (left ∷ s) = times right s
times right (right ∷ s) = suc (times right s)

-- What is left of a call that has found its token: four commands at most, none of which raises.
abbrev commands : Coroutine → ℕ
commands (called _ _) = 5
commands (found _ _ _) = 4
commands (removed _ _ _) = 3
commands (unlisted _ _) = 2
commands (kept _ _ _) = 1
commands (returned _) = 0

abbrev is_ok : Result (String × String) → Bool
is_ok (ok _) = true
is_ok (err _) = false

abbrev IsUuid : Libraries → String → Type 0
IsUuid libs user_id = (i : Uuid) × (libs.uuid_parse user_id ≡ some i)

module _ (env : Env) where
  abbrev IsSure : Coroutine → Type 0
  IsSure (called _ _) = false ≡ true
  IsSure (found _ _ user_id) = IsUuid env.libs user_id
  IsSure (removed _ _ user_id) = IsUuid env.libs user_id
  IsSure (unlisted _ _) = Unit {0}
  IsSure (kept _ _ _) = Unit {0}
  IsSure (returned r) = is_ok r ≡ true

  advance-IsSure :
      (c : Coroutine) (w : World env)
      → IsSure c
      → IsSure (advance env c w).0 × (commands (advance env c w).0 ≡ commands c - 1)
  unfolding advance
  advance-IsSure (called _ _) w h = cc
  advance-IsSure (found d jti user_id) w h = (h, refl)
  advance-IsSure (removed d jti user_id) w (i, h) = rw h (tt, refl)
  advance-IsSure (unlisted d user_id) w h = (tt, refl)
  advance-IsSure (kept user_id jti pair) w h = (refl, refl)
  advance-IsSure (returned r) w h = (h, refl)

  -- Two calls, and what they share.
  pub record Two : Type 0 where
    pub first : Coroutine
    pub second : Coroutine
    pub world : World env

  unfoldable pub go : Side → Two → Two
  unfolding advance
  go left p =
      let (c, w) = advance env p.first p.world in record { first = c; second = p.second; world = w }
  go right p =
      let (c, w) = advance env p.second p.world in record { first = p.first; second = c; world = w }

  unfoldable pub interleave : List Side → Two → Two
  unfolding go
  interleave [] p = p
  interleave (side ∷ s) p = interleave s (go side p)

  interleave-IsSure :
      (s : List Side) (p : Two)
      → IsSure p.first
      → IsSure p.second
      → let q = interleave s p in
        (IsSure q.first × (commands q.first ≡ commands p.first - times left s))
        × (IsSure q.second × (commands q.second ≡ commands p.second - times right s))
  unfolding interleave go
  interleave-IsSure [] p h k = ((h, omega arith), (k, omega arith))
  interleave-IsSure (left ∷ s) p h k =
      let (sure, fewer) = advance-IsSure p.first p.world h in
      let ((a, b), rest) = interleave-IsSure s (go left p) sure k in
      ((a, b ∙ ground (arith, fewer)), rest)
  interleave-IsSure (right ∷ s) p h k =
      let (sure, fewer) = advance-IsSure p.second p.world k in
      let (rest, (a, b)) = interleave-IsSure s (go right p) h sure in
      (rest, (a, b ∙ ground (arith, fewer)))

  -- A call that has returned a pair.
  abbrev pub HasPair : Coroutine → Type 0
  HasPair c = (pair : String × String) × (c ≡ returned (ok pair))

  HasPair-IsSure : (c : Coroutine) → IsSure c → commands c ≡ 0 → HasPair c
  HasPair-IsSure (called _ _) h z = ground arith
  HasPair-IsSure (found _ _ _) h z = ground arith
  HasPair-IsSure (removed _ _ _) h z = ground arith
  HasPair-IsSure (unlisted _ _) h z = ground arith
  HasPair-IsSure (kept _ _ _) h z = ground arith
  HasPair-IsSure (returned (ok pair)) h z = (pair, refl)
  HasPair-IsSure (returned (err e)) h z = cc

  go_first :
      (p : Two) {c : Coroutine} {v : World env}
      → advance env p.first p.world ≡ (c, v)
      → go left p ≡ record { first = c; second = p.second; world = v }
  unfolding go
  go_first p h = ap (λ r. record { first = r.0; second = p.second; world = r.1 }) h

  go_second :
      (p : Two) {c : Coroutine} {v : World env}
      → advance env p.second p.world ≡ (c, v)
      → go right p ≡ record { first = p.first; second = c; world = v }
  unfolding go
  go_second p h = ap (λ r. record { first = p.first; second = r.0; world = r.1 }) h

  returned_stays :
      (r : Result (String × String)) (s : List Side) (c : Coroutine) (w : World env)
      → (interleave s (record { first = c; second = returned r; world = w })).second ≡ returned r
  unfolding interleave go advance
  returned_stays r [] c w = refl
  returned_stays r (left ∷ s) c w = returned_stays r s (advance env c w).0 (advance env c w).1
  returned_stays r (right ∷ s) c w = returned_stays r s c w

  module _ (jti : String) where
    -- A call that has removed the token, and keeps another one.
    abbrev IsPast : Coroutine → Type 0
    IsPast (called _ _) = false ≡ true
    IsPast (found _ _ _) = false ≡ true
    IsPast (removed d _ _) = str_eq (env.libs.uuid_str d.refresh_jti) jti ≡ false
    IsPast (unlisted d _) = str_eq (env.libs.uuid_str d.refresh_jti) jti ≡ false
    IsPast (kept _ _ _) = Unit {0}
    IsPast (returned _) = Unit {0}

    abbrev IsGone : World env → Type 0
    IsGone w = env.redis.get (refresh_token_key jti) w.redis ≡ none

    -- A step of such a call leaves the token gone, and takes no time.
    abbrev Stays : World env → Coroutine × World env → Type 0
    Stays w (c, v) = IsPast c × IsGone v × (v.now ≡ w.now)

    unlist-Stays :
        (d : Draws) (j : String) (o : Option Uuid) (w : World env)
        → str_eq (env.libs.uuid_str d.refresh_jti) jti ≡ false
        → IsGone w
        → Stays w (unlist env d j o w)
    unlist-Stays d j none w other gone = (tt, gone, refl)
    unlist-Stays d j (some i) w other gone =
        (other, simp (env.redis.get-srem, key_laws, gone), refl)

    advance-Stays :
        (c : Coroutine) (w : World env) → IsPast c → IsGone w → Stays w (advance env c w)
    unfolding advance
    advance-Stays (called _ _) w h gone = cc
    advance-Stays (found _ _ _) w h gone = cc
    advance-Stays (removed d j user_id) w h gone =
        unlist-Stays d j (env.libs.uuid_parse user_id) w h gone
    advance-Stays (unlisted d user_id) w h gone =
        (tt, simp (env.redis.get-set, env.positive.refresh, key_laws, h, gone), refl)
    advance-Stays (kept user_id j pair) w h gone =
        (tt, simp (env.redis.get-sadd, key_laws, gone), refl)
    advance-Stays (returned r) w h gone = (tt, gone, refl)

    -- A call that looks for a token that is gone.
    called_refused :
        (d : Draws) {token user : String} (w : World env)
        → IsRefreshToken env token jti user w.now
        → IsGone w
        → advance env (called d token) w ≡ (returned (err bad_refresh), w)
    unfolding advance read_entry
    called_refused d {user} w t gone = ground (
      arith,
      decode_refresh_token_lem env w t,
      text_claim_lem env "jti" jti t.payload t.name,
      text_claim_lem env "sub" user t.payload t.owner,
      mismatched_ne env none user,
    )

    called_found :
        (d : Draws) {token : String} (user : Uuid) (w : World env)
        → IsRefreshToken env token jti (env.libs.uuid_str user) w.now
        → env.redis.get (refresh_token_key jti) w.redis ≡ some (env.libs.uuid_str user)
        → advance env (called d token) w ≡ (found d jti (env.libs.uuid_str user), w)
    unfolding advance read_entry
    called_found d user w t entry = ground (
      arith,
      decode_refresh_token_lem env w t,
      text_claim_lem env "jti" jti t.payload t.name,
      text_claim_lem env "sub" (env.libs.uuid_str user) t.payload t.owner,
      mismatched_same env (env.libs.uuid_str user),
    )

    late_refused :
        (d : Draws) {token user : String} (s : List Side) (c : Coroutine) (w : World env)
        → IsRefreshToken env token jti user w.now
        → IsPast c
        → IsGone w
        → 1 ≤ times right s
        → (interleave s (record { first = c; second = called d token; world = w })).second
          ≡ returned (err bad_refresh)
    unfolding interleave go
    late_refused d [] c w t past gone n = ground arith
    late_refused d {token} {user} (left ∷ s) c w t past gone n =
        let (past', gone', now) = advance-Stays c w past gone in
        late_refused d s (advance env c w).0 (advance env c w).1
          (subst (IsRefreshToken env token jti user) (sym now) t) past' gone' n
    late_refused d {token} (right ∷ s) c w t past gone n =
        ap (λ p. (interleave s p).second)
          (go_second (record { first = c; second = called d token; world = w })
            (called_refused d w t gone))
        ∙ returned_stays (err bad_refresh) s c w

    module _ (d d' : Draws) (token : String) (user : Uuid) (w : World env) (s : List Side) where
      abbrev pub two : Two
      two = record { first = called d token; second = called d' token; world = w }

      both_found :
          IsRefreshToken env token jti (env.libs.uuid_str user) w.now
          → env.redis.get (refresh_token_key jti) w.redis ≡ some (env.libs.uuid_str user)
          → interleave (left ∷ right ∷ s) two
            ≡ interleave s (record {
              first = found d jti (env.libs.uuid_str user);
              second = found d' jti (env.libs.uuid_str user);
              world = w;
            })
      unfolding interleave
      both_found t entry =
          ap (λ p. interleave s (go right p)) (go_first two (called_found d user w t entry))
          ∙ ap (interleave s) (
              go_second (record two { first = found d jti (env.libs.uuid_str user) })
                (called_found d' user w t entry))

      both_return :
          (p : Two)
          → IsSure p.first × (commands p.first ≡ 4)
          → IsSure p.second × (commands p.second ≡ 4)
          → 4 ≤ times left s
          → 4 ≤ times right s
          → HasPair (interleave s p).first × HasPair (interleave s p).second
      both_return p (h, four) (k, four') n m =
          let ((a, b), (c, e)) = interleave-IsSure s p h k in
          (
            HasPair-IsSure (interleave s p).first a (b ∙ omega arith),
            HasPair-IsSure (interleave s p).second c (e ∙ omega arith),
          )

      one_removed :
          IsRefreshToken env token jti (env.libs.uuid_str user) w.now
          → env.redis.get (refresh_token_key jti) w.redis ≡ some (env.libs.uuid_str user)
          → interleave (left ∷ left ∷ s) two
            ≡ interleave s (record {
              first = removed d jti (env.libs.uuid_str user);
              second = called d' token;
              world = record w { redis = env.redis.delete (refresh_token_key jti ∷ []) w.redis };
            })
      unfolding interleave
      one_removed t entry =
          ap (λ p. interleave s (go left p)) (go_first two (called_found d user w t entry))
          ∙ ap (interleave s) (
              go_first (record two { first = found d jti (env.libs.uuid_str user) })
                (unfold advance in refl))

      -- Run from one command of Redis to the next, a call of `refresh_access_token` that nobody
      -- interrupts is the call as a whole. Let two such calls with the same stored refresh token
      -- run at one instant, and go on in turns in any order behind their first commands, each at
      -- least four times. If both have read the entry of the token before one removes it, both
      -- return a new pair. If one has removed it before the other reads it, the other is refused,
      -- as long as the pair of the one gets another jti.
      pub race :
          IsRefreshToken env token jti (env.libs.uuid_str user) w.now
          → env.redis.get (refresh_token_key jti) w.redis ≡ some (env.libs.uuid_str user)
          → str_eq (env.libs.uuid_str d.refresh_jti) jti ≡ false
          → 4 ≤ times left s
          → 4 ≤ times right s
          → let at_once = interleave (left ∷ right ∷ s) two in
            let late = interleave (left ∷ left ∷ s) two in
            let alone = refresh_access_token env d token w in
            (undisturbed env (called d token) w ≡ (returned alone.0, alone.1))
            × HasPair at_once.first
            × HasPair at_once.second
            × (late.second ≡ returned (err bad_refresh))
      race t entry other n m =
          let id : IsUuid env.libs (env.libs.uuid_str user) =
            (user, env.libs.uuid_parse-uuid_str user) in
          let at_check : Two = record {
            first = found d jti (env.libs.uuid_str user);
            second = found d' jti (env.libs.uuid_str user);
            world = w;
          } in
          let (one, another) = both_return at_check (id, refl) (id, refl) n m in
          rw (both_found t entry, one_removed t entry)
            (
              undisturbed_lem env d token w,
              one,
              another,
              late_refused d' s _ _ t other (simp (env.redis.get-delete, key_laws)) (omega arith),
            )
