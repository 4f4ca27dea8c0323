-- ===== src/Events.antt =====
-- kafka/student_consumer.go: the consumer of the events on students.
pub mod Marks
pub mod Repeats
mod Tests
use student_service.Common.{
  ℕ, zero, suc, ltb, ℤ, Bool, true, false, ◌&&◌, Option, none, some, List, [], ◌∷◌, ◌++◌, String,
  str_eq, text_append, show_int, if◌then◌else◌,
}
use student_service.Model.{StudentEvent}
use student_service.Result.{Error, Result, ok, err, new_error}
use student_service.Env.{Env}
use student_service.Redis.{Redis}
use student_service.Broker.{Producer, send_message}
use student_service.Students.World.{text_of}
use student_service.Import.Consumer.{Message}

abbrev pub idempotent_prefix : String
idempotent_prefix = "kafka:idempotent:"

-- 24 hours, in seconds.
abbrev pub idempotent_expire : ℕ
idempotent_expire = 86_400

abbrev pub max_retry_times : ℕ
max_retry_times = 3

-- `log` has the lines that `processEvent` writes, which are all that it does with an event.
pub record Consumer (R K : Type 0) : Type 0 where
  pub redis : R
  pub producer_state : K
  pub log : List String
  pub marked : List Message

module _ {S Seed R K : Type 0} (env : Env S Seed) (redis : Redis R) (producer : Producer K) where
  abbrev line_of : StudentEvent S → String
  line_of event =
      if str_eq event.event_type "create"
      then text_append "收到学生创建事件：ID=" (show_int event.student_id)
      else if str_eq event.event_type "update"
      then text_append "收到学生更新事件:ID=" (show_int event.student_id)
      else if str_eq event.event_type "delete"
      then text_append "收到学生删除事件:ID=" (show_int event.student_id)
      else text_append "未知事件类型:" event.event_type

  unfoldable pub process_event : StudentEvent S → Consumer R K → Option Error × Consumer R K
  process_event event c = (none, record c { log = c.log ++ line_of event ∷ [] })

  -- An error of the send is logged only.
  unfoldable pub send_to_dlq : StudentEvent S → Consumer R K → Consumer R K
  send_to_dlq event c =
      let dlq_topic = text_append env.topic_student_event "_dlq" in
      let event_json = text_of (env.json.marshal_event event) in
      record c {
        producer_state =
            (send_message producer dlq_topic event.event_id event_json c.producer_state).1;
      }

  -- The loop of `processEventWithRetry`, with the rounds that are left.
  unfoldable pub process_rounds : ℕ → StudentEvent S → Consumer R K → Option Error × Consumer R K
  process_rounds zero event c = (some (new_error "重试3次全部失败，已转入死信队列"), send_to_dlq event c)
  process_rounds (suc rounds) event c =
      let (failed, c') = process_event event c in
      let again = process_rounds rounds event c' in
      elim failed as (λ _. Option Error × Consumer R K) [ none ↦ (none, c') | some e ↦ again ]

  unfoldable pub process_event_with_retry :
      StudentEvent S → Consumer R K → Option Error × Consumer R K
  process_event_with_retry = process_rounds max_retry_times

  abbrev pub mark_message : Message → Consumer R K → Consumer R K
  mark_message msg c = record c { marked = c.marked ++ msg ∷ [] }

  -- Whether redis says that the event was handled before; an error says no.
  abbrev pub is_repeated : Result ℕ → Bool
  is_repeated (err e) = false
  is_repeated (ok exist) = ltb 0 exist

  -- One turn of the loop of `ConsumeClaim`.
  unfoldable pub consume_message : Message → Consumer R K → Consumer R K
  consume_message msg c = elim (env.json.unmarshal_event msg.value) [
    | err e ↦ mark_message msg c
    | ok event ↦
        let key = text_append idempotent_prefix event.event_id in
        let (exist, redis') = redis.exists key c.redis in
        let c' = record c { redis = redis' } in
        let (failed, c'') = process_event_with_retry event c' in
        let (unset, redis'') = redis.set key "1" idempotent_expire c''.redis in
        if is_repeated exist then mark_message msg c' else elim failed [
          | some e ↦ mark_message msg c''
          | none ↦ mark_message msg (record c'' { redis = redis'' })
        ]
  ]

  unfoldable pub consume_claim : List Message → Consumer R K → Consumer R K
  consume_claim [] c = c
  consume_claim (msg ∷ msgs) c = consume_claim msgs (consume_message msg c)
