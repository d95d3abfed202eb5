-- ===== src/Entity.antt =====
-- app/core/mixins.py: what every row has. A UUID is a number, an instant a number of seconds.
use task_mgt_app.Base.{ℕ, Bool, not, Option, some, is_none, if◌then◌else◌}

abbrev pub Uuid : Type 0
Uuid = ℕ

abbrev pub Instant : Type 0
Instant = ℕ

-- `Entity`, with the columns of `TimestampMixin` and `SoftDeleteMixin`.
pub record Entity : Type 0 where
  pub id : Uuid
  pub created_at : Instant
  pub updated_at : Instant
  pub deleted_at : Option Instant

unfoldable pub is_deleted : Entity → Bool
is_deleted e = not (is_none e.deleted_at)

-- What `onupdate=func.now()` adds to an UPDATE, given whether a column has changed: without a change
-- there is none. The `now()` of the transaction and the clock of the application are one instant.
abbrev pub stamped : Bool → Instant → Entity → Entity
stamped modified now e = record e { updated_at = if modified then now else e.updated_at }

unfoldable pub mark_deleted : Instant → Entity → Entity
mark_deleted now e = record e { deleted_at = some now }
