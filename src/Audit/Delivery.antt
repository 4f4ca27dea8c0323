-- ===== src/Audit/Delivery.antt =====
-- From a write of a student to its audit row: the audit message that the transaction has kept in the
-- outbox (service/student_service.go), delivered to the consumer of kafka/audit_consumer.go.
use student_service.Common.{ℕ, ◌≡◌, String}
use student_service.Model.{AuditMessage, AuditLog}
use student_service.Env.{Env}
use student_service.Redis.{Redis}
use student_service.Store.{Gorm}
use student_service.Store.Rows.{Tables}
use student_service.Audit.{Consumer}
use student_service.Dao

module _ {S Seed : Type 0} (env : Env S Seed) where
  -- What JSON keeps of an audit message: all but the types of the two payloads.
  abbrev pub Keeps : AuditMessage S → AuditMessage S → Type 0
  Keeps m m' =
      (m'.trace_id ≡ m.trace_id)
      × (m'.operate_type ≡ m.operate_type)
      × (m'.module_name ≡ m.module_name)
      × (m'.data_id ≡ m.data_id)
      × (m'.operator ≡ m.operator)

  module _ {R Db Session : Type 0} (redis : Redis R) (gorm : Gorm S Db Session)
      (view : Db → Tables S) where
    -- The row of an operation on a student.
    abbrev pub IsRow : String → ℕ → ℕ → AuditLog → Type 0
    IsRow trace_id operate_type data_id row =
        (row.trace_id ≡ trace_id) × (row.operate_type ≡ operate_type) × (row.data_id ≡ data_id)
