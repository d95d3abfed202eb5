-- ===== src/Http/RequestId.antt =====
-- `RequestIdMiddleware` of app/core/middleware.py: the id of a request, the context variable that
-- holds it meanwhile, and the log line of the request.
use task_mgt_app.Base.{ℕ, String, ◌≡◌, refl, Option, none, some, List, [], ◌∷◌}
use task_mgt_app.Errors.{Exception, Result, ok, err}

-- `request.headers.get(REQUEST_ID_HEADER) or str(uuid.uuid4())`
unfoldable pub request_id_of : Option String → String → String
request_id_of none drawn = drawn
request_id_of (some String.[]) drawn = drawn
request_id_of (some (String.◌∷◌ c s)) drawn = String.◌∷◌ c s

-- A record of the logger "app.request", with the id that `RequestIdFilter` puts on it.
pub data Event : Type 0 where
  request_failed : Exception → Event
  request_completed : (status_code duration_ms : ℕ) → Event

pub record Line : Type 0 where
  pub event : Event
  pub method : String
  pub path : String
  pub request_id : Option String

pub record Dispatched (A S : Type 0) : Type 0 where
  -- the response with its X-Request-ID header, or what is raised on
  pub result : Result (A × String)
  pub state : S
  pub lines : List Line
  -- the context variable behind the `finally`
  pub context : Option String

-- What comes out for what the rest of the application does.
abbrev pub with_header : {A : Type 0} → String → Result A → Result (A × String)
with_header request_id (ok response) = ok (response, request_id)
with_header request_id (err e) = err e

-- The line of a request that ends so.
abbrev pub line_of : {A : Type 0} → (A → ℕ) → String → String → String → ℕ → Result A → Line
line_of status_code method path request_id duration_ms (ok response) = record {
  event = request_completed (status_code response) duration_ms;
  method = method;
  path = path;
  request_id = some request_id;
}
line_of status_code method path request_id duration_ms (err e) = record {
  event = request_failed e;
  method = method;
  path = path;
  request_id = some request_id;
}

module _ {A S : Type 0} (status_code : A → ℕ) (method path : String) where
  -- `except Exception: logger.exception(…); raise`, or the rest of the body.
  unfoldable pub completed : String → ℕ → Option String → Result A × S → Dispatched A S
  completed request_id duration_ms before (ok response, s) = record {
    result = ok (response, request_id);
    state = s;
    lines =
        record {
          event = request_completed (status_code response) duration_ms;
          method = method;
          path = path;
          request_id = some request_id;
        }
        ∷ [];
    context = before;
  }
  completed request_id duration_ms before (err e, s) = record {
    result = err e;
    state = s;
    lines =
        record {
          event = request_failed e;
          method = method;
          path = path;
          request_id = some request_id;
        }
        ∷ [];
    context = before;
  }

  -- `dispatch`, given the header, the drawn id, the measured time, the rest of the application as a
  -- function of the context variable, and the variable's value before.
  unfoldable pub dispatch :
      Option String → String → ℕ → (Option String → Result A × S) → Option String → Dispatched A S
  unfolding request_id_of completed
  dispatch header drawn duration_ms call_next before =
      let request_id : String = request_id_of header drawn in
      completed request_id duration_ms before (call_next (some request_id))

  completed_lem :
      (request_id : String) (duration_ms : ℕ) (before : Option String) (r : Result A × S)
      → let d = completed request_id duration_ms before r in
        (d.result ≡ with_header request_id r.0)
        × (d.state ≡ r.1)
        × (d.context ≡ before)
        × (d.lines ≡ line_of status_code method path request_id duration_ms r.0 ∷ [])
  unfolding completed
  completed_lem request_id duration_ms before (ok response, s) = (refl, refl, refl, refl)
  completed_lem request_id duration_ms before (err e, s) = (refl, refl, refl, refl)

  pub dispatch_lem :
      (header : Option String) (drawn : String) (duration_ms : ℕ)
      (call_next : Option String → Result A × S) (before : Option String)
      → let request_id = request_id_of header drawn in
        let d = dispatch header drawn duration_ms call_next before in
        (d.result ≡ with_header request_id (call_next (some request_id)).0)
        × (d.state ≡ (call_next (some request_id)).1)
        × (d.context ≡ before)
        × (d.lines
            ≡ line_of status_code method path request_id duration_ms (call_next (some request_id)).0
              ∷ [])
  unfolding dispatch
  dispatch_lem header drawn duration_ms call_next before =
      completed_lem (request_id_of header drawn) duration_ms before
        (call_next (some (request_id_of header drawn)))
