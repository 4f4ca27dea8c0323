-- ===== src/Audit/Tests.antt =====
-- The consumer of audit messages on a message that is delivered twice.
use student_service.Common.{ℕ, suc, ◌≤◌, ◌≡◌, refl, arith, true, List, [], ◌∷◌, String}
use student_service.Model.{AuditMessage, module_student, nil, student}
use student_service.Result.{ok}
use student_service.Env.{Env}
use student_service.Store.Rows.{Tables}
use student_service.Session.{blank_audit, audit_record}
use student_service.Students.Write.Commit.{Committed}
use student_service.Store.Memory.{Memory}
use student_service.Store.Memory.Meets.{view, memory-AuditLaws}
use student_service.Common.{ℤ}
use student_service.Session.{Session}
use student_service.Redis.Memory.{Cache, cache, held, cache-RedisLaws}
use student_service.Import.Consumer.{Message}
use student_service.Audit.{Consumer, audit_idempotent_key, consume_claim}
use student_service.Audit.Handover.{send_pending_messages-committed}
use student_service.Broker.{Cluster, cluster, cluster-ProducerLaws}
use student_service.Outbox.{Sender, send_pending_messages}
use student_service.Outbox.Row.{Has}
use student_service.Store.Memory.Meets.{memory-MessageLaws}
use student_service.Model.{LocalMessage}
use student_service.Audit.Once.{rows_of, consume_claim_once}
use student_service.Fixture.{
  NoFaults, AllAccepted, in_health, ann, cents, env, exact, gorm, holding, nothing,
}

abbrev twice : List Message
twice =
    record { offset = 1; value = "a" }
    ∷ record { offset = 2; value = "b" }
    ∷ record { offset = 3; value = "a" }
    ∷ []

abbrev idle : Consumer Cache (Memory ℤ)
idle = record { redis = record { texts = []; refused = [] }; db = holding nothing []; marked = [] }

consume_claim_once_example :
    let c' = consume_claim env cache gorm twice idle in
    (rows_of "a" [] ≤ rows_of "a" (view c'.db).audits)
    × (rows_of "a" (view c'.db).audits ≤ suc (rows_of "a" []))
    × (held (audit_idempotent_key "a") idle.redis ≡ true
        → rows_of "a" (view c'.db).audits ≡ rows_of "a" [])
consume_claim_once_example =
    consume_claim_once env cache gorm held view cache-RedisLaws
      (memory-AuditLaws (Session ℤ ℕ) exact cents.is_zero) "a" twice idle

-- A JSON of the one audit message below.
abbrev added_ann : String → AuditMessage ℤ
added_ann id = record blank_audit {
  trace_id = id;
  operate_type = 1;
  module_name = module_student;
  data_id = 1;
  after_data = student ann;
}

abbrev telling : Env ℤ ℕ
telling = record env { json = record env.json { unmarshal_audit = λ t. ok (added_ann t) } }

abbrev ann_added : Tables ℤ
ann_added = record nothing {
  students = ann ∷ [];
  messages = record (audit_record telling "t" "t" 5) { id = 1; updated_at = 5 } ∷ [];
}

abbrev ann_committed : Committed telling nothing ann_added (ann ∷ []) 1 1 nil (student ann)
ann_committed = record {
  message = added_ann "t";
  value = "t";
  key = 1;
  stamp = 5;
  now = 5;
  is_operation = refl;
  is_student = refl;
  is_of = refl;
  has_before = refl;
  has_after = refl;
  encoded = refl;
  fresh = tt;
  tables = refl;
}

abbrev sender : Sender (Memory ℤ) Cluster
sender = record {
  db = holding ann_added [];
  producer_state = record { log = []; fates = [] };
  clock = 100;
}

send_pending_messages-committed_example :
    let s' = send_pending_messages gorm cluster env.later sender in
    (s'.producer_state.log ≡ record { topic = "audit.log"; key = "t"; value = "t" } ∷ [])
    × ((m : LocalMessage) × Has m (view s'.db).messages × (m.id ≡ 1) × (m.status ≡ 1))
send_pending_messages-committed_example =
    send_pending_messages-committed telling gorm cluster env.later view (λ k. k.log)
      (memory-MessageLaws (Session ℤ ℕ) exact cents.is_zero) cluster-ProducerLaws NoFaults
      AllAccepted in_health ann_committed sender refl (omega arith) (omega arith) refl refl
