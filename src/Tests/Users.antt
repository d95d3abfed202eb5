-- ===== src/Tests/Users.antt =====
-- The users table over the SQL engine of the examples, and an environment with it.
use task_mgt_app.Base.{◌≡◌, refl, some, [], ◌∷◌}
use task_mgt_app.Auth.Repository.{add, get_by_email, has_email}
use task_mgt_app.Auth.Repository.Finds.{IsKept}
use task_mgt_app.Auth.Repository.Store.{sql_users, insert_clash}
use task_mgt_app.Auth.World.{Env}
use task_mgt_app.Errors.{ok, err, integrity_error}
use task_mgt_app.Repository.{active}
use task_mgt_app.Tests.Auth.{libs, settings, settings-IsPositive, ann}
use task_mgt_app.Tests.MemoryRedis.{memory_redis}
use task_mgt_app.Tests.Sql.{sql}
use task_mgt_app.Auth.Model.{User}

-- The service over the SQL store.
abbrev sql_env : Env
sql_env = record {
  libs = libs;
  settings = settings;
  positive = settings-IsPositive;
  users = sql_users sql (λ s. s);
  redis = memory_redis;
}

abbrev second_ann : User
second_ann = record ann { entity = record ann.entity { id = 9 } }

ann_alone : IsKept (ann ∷ [])
ann_alone = record { ids = (refl, tt); emails = (refl, tt) }

ann_found : get_by_email sql (λ s. s) "ann@x.org" (ann ∷ []) ≡ ok (some ann)
unfolding get_by_email has_email active
ann_found = refl

insert_clash_example : add sql (λ s. s) second_ann (ann ∷ []) ≡ (err integrity_error, ann ∷ [])
insert_clash_example =
    insert_clash sql (λ s. s) "ann@x.org" second_ann ann (ann ∷ []) ann_alone refl refl ann_found
