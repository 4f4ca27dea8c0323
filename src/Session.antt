-- ===== src/Session.antt =====
-- What a request keeps beside the database, and the audit messages that it writes to the outbox:
-- `buildAuditMessage` and `auditMsgPool` of service/student_service.go, and `SaveAuditMessage` of
-- service/local_message_service.go.

use student_service.Common.{ℕ, pos, Option, some, List, [], ◌∷◌, String}
use student_service.Model.{Student, LocalMessage, AuditMessage, Payload, nil}
use student_service.Result.{Error, ok, err}
use student_service.Store.{Gorm}
use student_service.Env.{Env}
use student_service.Dao

-- `student` is the handler's variable, which the body of a transaction writes through a pointer.
pub record Session (S Seed : Type 0) : Type 0 where
  pub seed : Seed
  pub clock : ℕ
  pub pool : List (AuditMessage S)
  pub student : Student S

module _ {S : Type 0} where
  -- `&model.AuditMessage{}`, and what `SaveAuditMessage` puts back.
  abbrev pub blank_audit : AuditMessage S
  blank_audit = record {
    trace_id = "";
    operate_type = 0;
    module_name = "";
    data_id = 0;
    operator = "";
    before_data = nil;
    after_data = nil;
    ip = "";
  }

  -- `auditMsgPool.Get()`: one that was put back, or a new one. `sync.Pool` may also drop what it
  -- holds, which makes no difference to what follows.
  abbrev pub get_audit : List (AuditMessage S) → AuditMessage S × List (AuditMessage S)
  get_audit [] = (blank_audit, [])
  get_audit (msg ∷ pool) = (msg, pool)

module _ {S Seed : Type 0} (env : Env S Seed) where
  abbrev pub uuid : Session S Seed → String × Session S Seed
  uuid s = let (id, seed) = env.new_uuid s.seed in (id, record s { seed = seed })

  abbrev pub time_now : Session S Seed → ℕ × Session S Seed
  time_now s = (s.clock, record s { clock = env.later s.clock })

  unfoldable pub build_audit_message :
      ℕ
      → String
      → ℕ
      → String
      → Payload S
      → Payload S
      → Session S Seed
      → AuditMessage S × Session S Seed
  build_audit_message operate_type module_name data_id operator before_data after_data s =
      let (msg, pool) = get_audit s.pool in
      let (id, s') = uuid (record s { pool = pool }) in
      (
        record msg {
          trace_id = id;
          operate_type = operate_type;
          module_name = module_name;
          data_id = data_id;
          operator = operator;
          before_data = before_data;
          after_data = after_data;
          ip = "";
        },
        s',
      )

  -- The deferred reset, and `auditMsgPool.Put`.
  abbrev pub put_audit : AuditMessage S → Session S Seed → Session S Seed
  put_audit msg s = record s {
    pool =
        record msg {
          trace_id = "";
          operate_type = 0;
          module_name = "";
          data_id = 0;
          operator = "";
          before_data = nil;
          after_data = nil;
          ip = "";
        }
        ∷ s.pool;
  }

  abbrev pub audit_record : String → String → ℕ → LocalMessage
  audit_record key value now = record {
    id = 0;
    topic = env.topic_audit_log;
    key = key;
    value = value;
    status = 0;
    retry_count = pos 0;
    max_retry = pos 5;
    next_retry = now;
    error_msg = "";
    updated_at = 0;
  }

module _ {S Seed Db : Type 0} (env : Env S Seed) (gorm : Gorm S Db (Session S Seed)) where
  unfoldable pub save_audit_message :
      AuditMessage S → Session S Seed → Db → Option Error × Session S Seed × Db
  save_audit_message audit_msg s tx = elim (env.json.marshal_audit audit_msg) [
    | err e ↦ (some e, put_audit env audit_msg s, tx)
    | ok value ↦
        let (now, s') = time_now env s in
        let (e, tx') =
          Dao.create_local_message gorm (audit_record env audit_msg.trace_id value now) tx in
        (e, put_audit env audit_msg s', tx')
  ]
