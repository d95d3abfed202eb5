-- ===== src/Projects/Update.antt =====
-- A PATCH of a project: `ProjectService.update`.
use task_mgt_app.Db.{Db}
use task_mgt_app.Sql.{Sql}
