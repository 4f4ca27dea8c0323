-- ===== src/Audit/Direct.antt =====
-- service/audit_service.go: an audit message sent without the outbox.
use student_service.Model.{AuditMessage}
use student_service.Result.{ok, err}
use student_service.Env.{Env}
use student_service.Broker.{Producer, send_message}

module _ {S Seed K : Type 0} (env : Env S Seed) (producer : Producer K) where
  -- The goroutine of `SendAuditMessage`, which logs its errors only.
  unfoldable pub send_audit_message : AuditMessage S → K → K
  send_audit_message msg k = elim (env.json.marshal_audit msg) [
    | err e ↦ k
    | ok value ↦ (send_message producer env.topic_audit_log msg.trace_id value k).1
  ]
