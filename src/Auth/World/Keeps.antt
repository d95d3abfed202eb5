-- ===== src/Auth/World/Keeps.antt =====
-- Invariants of actions: a rule for each way to build an action.
use task_mgt_app.Base.{Bool, true, false, Option, none, some, if◌then◌else◌}
use task_mgt_app.Auth.World.{Env, World, Action, ◌>>=◌, pure, raise, lift, or_raise}
use task_mgt_app.Errors.{Exception, Result, ok, err}

-- Whether it returns or raises, the action leads from a world with `P` to one with `P`.
pub record Keeps {env : Env} {A : Type 0} (P : World env → Type 0) (m : Action env A) : Type 0 where
  pub at : (w : World env) → P w → P (m w).1

module _ {env : Env} {P : World env → Type 0} where
  pub Keeps-pure : {A : Type 0} (a : A) → Keeps P (pure a)
  Keeps-pure a = record { at = λ w h. h }

  pub Keeps-raise : {A : Type 0} (e : Exception) → Keeps P (raise {A = A} e)
  Keeps-raise e = record { at = λ w h. h }

  pub Keeps-lift : {A : Type 0} (r : Result A) → Keeps P (lift r)
  Keeps-lift r = record { at = λ w h. h }

  pub Keeps-or_raise : {A : Type 0} (o : Option A) (e : Exception) → Keeps P (or_raise o e)
  Keeps-or_raise none e = record { at = λ w h. h }
  Keeps-or_raise (some a) e = record { at = λ w h. h }

  -- An action that reads.
  pub Keeps-read : {A : Type 0} (f : World env → Result A) → Keeps P (λ w. (f w, w))
  Keeps-read f = record { at = λ w h. h }

  pub Keeps-if :
      {A : Type 0} (b : Bool) (m n : Action env A)
      → Keeps P m
      → Keeps P n
      → Keeps P (if b then m else n)
  Keeps-if true m n km kn = km
  Keeps-if false m n km kn = kn

  Keeps-after :
      {A B : Type 0} (f : A → Action env B) (r : Result A) (w : World env)
      → P w
      → ((a : A) → Keeps P (f a))
      → P (◌>>=◌ (λ v. (r, v)) f w).1
  Keeps-after f (ok a) w h kf = (kf a).at w h
  Keeps-after f (err e) w h kf = h

  pub Keeps-bind :
      {A B : Type 0} (m : Action env A) (f : A → Action env B)
      → Keeps P m
      → ((a : A) → Keeps P (f a))
      → Keeps P (m >>= f)
  Keeps-bind m f km kf = record {
    at = λ w h. let (r, w') = m w in Keeps-after f r w' (km.at w h) kf;
  }
