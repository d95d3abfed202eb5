-- ===== src/Errors.antt =====
-- app/common/exceptions.py, and the exceptions of other libraries that reach a caller unhandled.
use task_mgt_app.Base.{ℕ, String, List, ◌∷◌, ◌≡◌, refl, ◌⊎◌, inl, inr}

-- An exception object of `AppError` or of one of its subclasses, with its constructor's arguments.
pub data AppError : Type 0 where
  app_error : String → AppError
  not_found : String → AppError
  user_not_found : String → AppError
  project_not_found : String → AppError
  task_not_found : String → AppError
  conflict : String → AppError
  email_already_registered : String → AppError
  invalid_credentials : String → AppError
  account_locked : String → ℕ → AppError
  email_not_verified : String → AppError
  invalid_token : String → AppError
  forbidden : String → AppError

-- What a request may raise. Only `app` has handlers in app/main.py.
pub data Exception : Type 0 where
  app : AppError → Exception
  -- `uuid.UUID` on a malformed text, a missing dictionary key
  value_error key_error : Exception
  -- argon2's errors other than a mismatch
  hash_error : Exception
  -- a violated database constraint, more than one row for `scalar_one_or_none`
  integrity_error multiple_results_found : Exception
  -- an object that the response model of an endpoint refuses
  response_validation_error : Exception

pub data Result {ℓ} (A : Type ℓ) : Type ℓ where
  ok : A → Result A
  err : Exception → Result A

pub Result-cases {ℓ} :
    {A : Type ℓ} (r : Result A) → ((a : A) × (r ≡ ok a)) ⊎ ((e : Exception) × (r ≡ err e))
Result-cases (ok a) = inl (a, refl)
Result-cases (err e) = inr (e, refl)

-- A head and a tail that may both have raised, the head first.
abbrev pub joined {ℓ} : {A : Type ℓ} → Result A → Result (List A) → Result (List A)
joined (err e) _ = err e
joined (ok a) (err e) = err e
joined (ok a) (ok l) = ok (a ∷ l)
