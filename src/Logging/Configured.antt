-- ===== src/Logging/Configured.antt =====
-- `RequestIdFilter` and `configure_logging` of app/core/logging.py: the root logger that they leave,
-- and what becomes of a record that it handles. A record is the dictionary of its fields, and a line
-- the dictionary that is written as JSON. The comparison of levels is left out.
use task_mgt_app.Base.{
  any, String, ◌≡◌, refl, ap, append, ◌∙◌, Bool, true, false, Option, none, some, List, [], ◌∷◌,
  str_eq, if◌then◌else◌,
}
use task_mgt_app.Base.Dict.{Dict, lookup, insert, lookup-insert}
use task_mgt_app.Logging.{is_redacted, process_log_record, redact, redacted_lookup}
use task_mgt_app.Settings.{Settings}

pub data Stream : Type 0 where
  stdout stderr : Stream

pub data Filter : Type 0 where
  request_id_filter : Filter

-- `RedactingJsonFormatter` with its format, or the formatter that logging uses by itself.
pub data Formatter : Type 0 where
  redacting_json : String → Formatter
  default_formatter : Formatter

pub record Handler : Type 0 where
  pub stream : Stream
  pub filters : List Filter
  pub formatter : Formatter

-- The root logger, and the levels that are set on loggers by name.
pub record Loggers : Type 0 where
  pub handlers : List Handler
  pub level : String
  pub levels : Dict String

unfoldable pub configure_logging : Settings → Loggers → Loggers
unfolding insert
configure_logging settings loggers = record {
  handlers =
      record {
        stream = stdout;
        filters = request_id_filter ∷ [];
        formatter = redacting_json "%(asctime)s %(levelname)s %(name)s %(request_id)s %(message)s";
      }
      ∷ [];
  level = settings.log_level;
  levels = insert "uvicorn.access" "WARNING" loggers.levels;
}

-- The keys that must not show, in lower case.
abbrev pub secret_keys : List String
secret_keys =
    "password" ∷ "password_hash" ∷ "hashed_password" ∷ "token" ∷ "access_token" ∷ "refresh_token"
    ∷ "authorization" ∷ []

-- `converted` is the dictionary that `JsonFormatter` makes of a record, with the fields of its format
-- and the extra ones.
module _ (lower : String → String) {V : Type 0} (redacted : V) (converted : Dict V → Dict V) where
  -- `RequestIdFilter.filter`, with the value of the context variable: the record, and whether the
  -- handler takes it.
  unfoldable pub filter : V → Dict V → Bool × Dict V
  unfolding insert
  filter request_id log_record = (true, insert "request_id" request_id log_record)

  -- The filters of a handler one after the other.
  unfoldable pub filter_all : V → List Filter → Dict V → Option (Dict V)
  unfolding filter
  filter_all request_id [] log_record = some log_record
  filter_all request_id (request_id_filter ∷ more) log_record =
      let (taken, changed) = filter request_id log_record in
      let rest = filter_all request_id more changed in if taken then rest else none

  unfoldable pub format : Formatter → Dict V → Dict V
  unfolding process_log_record
  format (redacting_json _) log_record = process_log_record lower redacted (converted log_record)
  format default_formatter log_record = log_record

  abbrev pub formatted : Formatter → Option (Dict V) → List (Dict V)
  formatted f none = []
  formatted f (some log_record) = format f log_record ∷ []

  -- The lines that the handlers write for a record.
  unfoldable pub write_lines : V → List Handler → Dict V → List (Dict V)
  unfolding filter_all format
  write_lines request_id [] log_record = []
  write_lines request_id (h ∷ more) log_record =
      append (formatted h.formatter (filter_all request_id h.filters log_record))
        (write_lines request_id more log_record)

  configured_lem :
      (settings : Settings) (loggers : Loggers) (request_id : V) (log_record : Dict V)
      → write_lines request_id (configure_logging settings loggers).handlers log_record
        ≡ process_log_record lower redacted (converted (insert "request_id" request_id log_record))
          ∷ []
  unfolding write_lines configure_logging filter_all filter format
  configured_lem settings loggers request_id log_record = refl

  -- Whether a key is secret, whatever its case.
  abbrev pub is_secret : String → Bool
  is_secret key = any (λ k. str_eq k (lower key)) secret_keys

  redacted_secret :
      (j : String) (d : Dict V)
      → lookup j (process_log_record lower redacted d)
        ≡ (if is_secret j then redact redacted (lookup j d) else lookup j d)
  unfolding is_redacted
  redacted_secret j d = redacted_lookup lower redacted j d

  -- After `configure_logging`, whatever handlers there were before, a record that the root logger
  -- handles gives exactly one line. The line has the id of the request; a key whose lower case form
  -- is one of seven - password, password_hash, hashed_password, token, access_token, refresh_token,
  -- authorization - has the redaction there if it had a value, and every other key has the value it
  -- had. The conditions: "request_id" is its own lower case form, and the dictionary that
  -- JsonFormatter makes of a record has the same value as the record under "request_id" and under
  -- the key that is looked at. The statement is about the keys of the record itself, not about what
  -- a value contains.
  pub logged :
      (settings : Settings) (loggers : Loggers) (request_id : V) (log_record : Dict V) (j : String)
      → lower "request_id" ≡ "request_id"
      → ((d : Dict V) → lookup "request_id" (converted d) ≡ lookup "request_id" d)
      → ((d : Dict V) → lookup j (converted d) ≡ lookup j d)
      → str_eq "request_id" j ≡ false
      → (line : Dict V) × (write_lines request_id
            (configure_logging settings loggers).handlers
            log_record
          ≡ line ∷ [])
        × (lookup "request_id" line ≡ some request_id)
        × (lookup j line
            ≡ (if is_secret j then redact redacted (lookup j log_record) else lookup j log_record))
  logged settings loggers request_id log_record j plain keeps_id keeps other =
      let marked = insert "request_id" request_id log_record in
      (
        process_log_record lower redacted (converted marked),
        configured_lem settings loggers request_id log_record,
        redacted_secret "request_id" (converted marked)
            ∙ rw (plain, keeps_id) (lookup-insert "request_id" "request_id" request_id log_record),
        redacted_secret j (converted marked)
            ∙ ap (λ o. if is_secret j then redact redacted o else o)
                (keeps marked ∙ lookup-insert "request_id" j request_id log_record ∙ rw other),
      )
