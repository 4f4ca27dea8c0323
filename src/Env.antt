-- ===== src/Env.antt =====
-- What the services take from elsewhere: the type of scores, encoding/json, google/uuid, the clock,
-- and the topics of the configuration (config/config.go). `Seed` is the state of the random source.
use student_service.Common.{ℕ, String}
use student_service.Model.{Student, Class, AuditMessage, Payload, StudentEvent}
use student_service.Result.{Result}
use student_service.Float.{Float}

-- `json.Marshal` and `json.Unmarshal` at the types that the code uses. `marshal` fails on a score
-- that has no JSON form, such as NaN.
pub record Json (S : Type 0) : Type 0 where
  pub marshal_student : Student S → Result String
  pub unmarshal_student : String → Result (Student S)
  pub marshal_class : Class → Result String
  pub unmarshal_class : String → Result Class
  pub marshal_audit : AuditMessage S → Result String
  pub unmarshal_audit : String → Result (AuditMessage S)
  pub marshal_payload : Payload S → Result String
  pub marshal_event : StudentEvent S → Result String
  pub unmarshal_event : String → Result (StudentEvent S)

pub record Env (S Seed : Type 0) : Type 0 where
  pub float : Float S
  pub json : Json S
  pub new_uuid : Seed → String × Seed
  -- The clock moves between two readings; it is in nanoseconds.
  pub later : ℕ → ℕ
  pub topic_student_event : String
  pub topic_audit_log : String
  pub topic_import : String
