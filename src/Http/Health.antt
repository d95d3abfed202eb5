-- ===== src/Http/Health.antt =====
-- `health_check` of app/core/health.py, given which of the two probes raised.
use task_mgt_app.Base.{ℕ, String, Bool, ◌&&◌, if◌then◌else◌}

pub record Health : Type 0 where
  pub status_code : ℕ
  pub status : String
  pub database : Bool
  pub redis : Bool

unfoldable pub health_check : Bool → Bool → Health
health_check database redis =
    let healthy : Bool = database && redis in
    record {
      status_code = if healthy then 200 else 503;
      status = if healthy then "ok" else "unavailable";
      database = database;
      redis = redis;
    }
