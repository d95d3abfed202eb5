-- ===== src/Logging.antt =====
-- `RedactingJsonFormatter` of app/core/logging.py, on a record whose values are of any type, up to
-- the call of `JsonFormatter.process_log_record`.
pub mod Configured
use task_mgt_app.Base.{
  String, ◌≡◌, refl, Bool, ◌&&◌, Option, none, some, List, [], ◌∷◌, any, arith, str_eq, str_eq_iff,
  if◌then◌else◌, ◌∙◌, map,
}
use task_mgt_app.Base.Dict.{Dict, lookup, insert, lookup-insert}

abbrev pub redacted_keys : List String
redacted_keys =
    "password" ∷ "password_hash" ∷ "hashed_password" ∷ "token" ∷ "access_token" ∷ "refresh_token"
    ∷ "authorization" ∷ []

-- `key.lower() in _REDACTED_KEYS`
unfoldable pub is_redacted : (String → String) → String → Bool
is_redacted lower key = any (λ k. str_eq k (lower key)) redacted_keys

-- What becomes of the value of a redacted key.
abbrev pub redact : {V : Type 0} → V → Option V → Option V
redact redacted none = none
redact redacted (some _) = some redacted

module _ (lower : String → String) {V : Type 0} (redacted : V) where
  -- The loop over `list(log_record.keys())`.
  unfoldable pub redact_keys : List String → Dict V → Dict V
  unfolding insert
  redact_keys [] log_record = log_record
  redact_keys (key ∷ keys) log_record =
      redact_keys keys
        (if is_redacted lower key then insert key redacted log_record else log_record)

  -- The record that is handed on to `super().process_log_record`.
  unfoldable pub process_log_record : Dict V → Dict V
  process_log_record log_record = redact_keys (map (λ e. e.0) log_record) log_record

  lookup-redact_keys :
      (j : String) (keys : List String) (d : Dict V)
      → lookup j (redact_keys keys d)
        ≡ (if any (λ k. str_eq k j) keys && is_redacted lower j then some redacted else lookup j d)
  unfolding redact_keys
  lookup-redact_keys j [] d = refl
  lookup-redact_keys j (key ∷ keys) d =
      lookup-redact_keys j keys (if is_redacted lower key then insert key redacted d else d)
      ∙ ground (arith, lookup-insert key j redacted d, str_eq_iff key j)

  lookup-keys :
      (j : String) (d : Dict V)
      → (if any (λ k. str_eq k j) (map (λ e. e.0) d) then some redacted else none)
        ≡ redact redacted (lookup j d)
  unfolding lookup
  lookup-keys j [] = refl
  lookup-keys j ((k, v) ∷ d) = ground (arith, lookup-keys j d)

  -- In the record that `process_log_record` hands on, a key whose lower case form is one of the
  -- redacted keys has the redaction if it had a value, and every other key has the value it had.
  -- The statement is about the keys of the record itself, not about what a value holds.
  pub redacted_lookup :
      (j : String) (log_record : Dict V)
      → lookup j (process_log_record log_record) ≡ (
          if is_redacted lower j
          then redact redacted (lookup j log_record)
          else lookup j log_record)
  unfolding process_log_record
  redacted_lookup j d = lookup-redact_keys j (map (λ e. e.0) d) d ∙ ground (arith, lookup-keys j d)
