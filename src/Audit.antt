-- ===== src/Audit.antt =====
-- kafka/audit_consumer.go: the consumer that writes the audit rows, once for each trace id.
pub mod Once
pub mod Delivery
pub mod Handover
pub mod Direct
mod Tests
use student_service.Common.{
  ℕ, Bool, true, false, not, ◌||◌, Option, none, some, List, [], ◌∷◌, ◌++◌, String, text_append,
  contains, if◌then◌else◌,
}
use student_service.Model.{AuditMessage, AuditLog}
use student_service.Result.{Error, Result, ok, err, is_duplicated_key}
use student_service.Env.{Env}
use student_service.Redis.{Redis}
use student_service.Store.{Gorm}
use student_service.Students.World.{text_of}
use student_service.Import.Consumer.{Message}
use student_service.Dao

abbrev pub audit_idempotent_key : String → String
audit_idempotent_key trace_id = text_append "audit:consumed:" trace_id

-- 24 hours, in seconds.
abbrev day : ℕ
day = 86_400

unfoldable pub is_duplicate_key_error : Error → Bool
is_duplicate_key_error e = is_duplicated_key e || contains e.text "Error 1062"

pub record Consumer (R Db : Type 0) : Type 0 where
  pub redis : R
  pub db : Db
  pub marked : List Message

module _ {S Seed R Db Session : Type 0} (env : Env S Seed) (redis : Redis R)
    (gorm : Gorm S Db Session) where
  -- The row for a message.
  unfoldable pub audit_log : AuditMessage S → AuditLog
  audit_log msg = record {
    trace_id = msg.trace_id;
    operate_type = msg.operate_type;
    module_name = msg.module_name;
    data_id = msg.data_id;
    operator = msg.operator;
    before_data = text_of (env.json.marshal_payload msg.before_data);
    after_data = text_of (env.json.marshal_payload msg.after_data);
    ip = msg.ip;
  }

  -- What follows once the message is known to be new.
  unfoldable pub write_audit_log : AuditMessage S → Consumer R Db → Option Error × Consumer R Db
  write_audit_log msg c =
      let (failed, db') = Dao.create_audit_log gorm (audit_log msg) c.db in
      let c' = record c { db = db' } in
      elim failed [
        | none ↦ (none, c')
        | some e ↦ if is_duplicate_key_error e then (none, c') else (some e, c')
      ]

  unfoldable pub consume_audit_log : AuditMessage S → Consumer R Db → Option Error × Consumer R Db
  consume_audit_log msg c =
      let (exist, redis') = redis.set_nx (audit_idempotent_key msg.trace_id) "1" day c.redis in
      let c' = record c { redis = redis' } in
      elim exist [
        | err e ↦ (some e, c')
        | ok new ↦ if new then write_audit_log msg c' else (none, c')
      ]

  abbrev pub mark_message : Message → Consumer R Db → Consumer R Db
  mark_message msg c = record c { marked = c.marked ++ msg ∷ [] }

  -- One turn of the loop of `ConsumeClaim`.
  unfoldable pub consume_message : Message → Consumer R Db → Consumer R Db
  consume_message msg c = elim (env.json.unmarshal_audit msg.value) [
    | err e ↦ mark_message msg c
    | ok audit_msg ↦
        let (failed, c') = consume_audit_log audit_msg c in
        elim failed [ some e ↦ c' | none ↦ mark_message msg c' ]
  ]

  unfoldable pub consume_claim : List Message → Consumer R Db → Consumer R Db
  consume_claim [] c = c
  consume_claim (msg ∷ msgs) c = consume_claim msgs (consume_message msg c)
