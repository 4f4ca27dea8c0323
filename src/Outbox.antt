-- ===== src/Outbox.antt =====
-- The outbox of messages on their way to Kafka: service/local_message_service.go on the statements
-- of dao/local_message.go. A state of the sender holds the database, the producer and the clock
-- of `time.Now`, in nanoseconds; `later` is how far the clock has moved at the next reading.
-- Log output is left out.
pub mod Row
pub mod Process
pub mod Batch
pub mod Scan
pub mod Progress
pub mod History
pub mod Backoff
mod Tests
use student_service.Common.{
  ℕ, ℤ, pos, negsuc, ◌+◌, ◌-◌, ◌*◌, ◌^◌, ◌+ℤ◌, ltb_ℤ, leb_ℤ, int64, ◌==◌, ◌&&◌, Bool, true, false,
  Option, none, some, List, [], ◌∷◌, ◌++◌, String, if◌then◌else◌,
}
use student_service.Model.{LocalMessage}
use student_service.Result.{Error, Result, ok, err}
use student_service.Store.{Gorm}
use student_service.Store.Rows.{
  MessageCond, message_is, status_is, due_by, MessageAssign, status_to, retry_count_to,
  error_msg_to, next_retry_to, updated_at_to, Select, any_row, where_cond,
}
use student_service.Broker.{Producer, send_message}

pub record Sender (Db K : Type 0) : Type 0 where
  pub db : Db
  pub producer_state : K
  pub clock : ℕ

-- What the sender waits for: the end of its context, or its ticker.
pub data Signal : Type 0 where
  done ticked : Signal

-- `time.Second`.
abbrev pub second : ℕ
second = 1_000_000_000

-- A `time.Duration` times a `time.Second`.
abbrev pub times_second : ℤ → ℤ
times_second (pos n) = int64 (pos (n * second))
times_second (negsuc n) = int64 (negsuc (n * second + (second - 1)))

-- `time.Duration(5<<(retryCount-1)) * time.Second`.
unfoldable pub backoff : ℤ → ℤ
backoff (pos n) = times_second (int64 (pos (5 * 2 ^ (n - 1))))
backoff (negsuc n) = pos 0

-- `t.Add(d)`.
abbrev pub add_time : ℕ → ℤ → ℕ
add_time t (pos d) = t + d
add_time t (negsuc d) = t - (d + 1)

module _ {S Db Session K : Type 0} (gorm : Gorm S Db Session) (producer : Producer K)
    (later : ℕ → ℕ) where
  -- `time.Now()`.
  abbrev pub now : Sender Db K → ℕ × Sender Db K
  now s = (s.clock, record s { clock = later s.clock })

  unfoldable pub get_pending_messages : ℤ → Sender Db K → Result (List LocalMessage) × Sender Db K
  get_pending_messages limit s =
      let (t, s') = now s in
      let q = where_cond (due_by t) (where_cond (status_is 0) any_row) in
      let (r, db) = gorm.find_messages (record q { by_id = true; limit = some limit }) s'.db in
      (r, record s' { db = db })

  -- `DB.Model(&model.LocalMessage{}).Where("id=?", id).Updates(updates)`.
  abbrev pub update_by_id : ℕ → List MessageAssign → Sender Db K → Option Error × Sender Db K
  update_by_id id updates s =
      let (e, db) = gorm.update_messages (message_is id ∷ []) updates s.db in
      (e, record s { db = db })

  unfoldable pub mark_message_sent : ℕ → Sender Db K → Option Error × Sender Db K
  mark_message_sent id s =
      let (t, s') = now s in update_by_id id (status_to 1 ∷ updated_at_to t ∷ []) s'

  unfoldable pub update_message_status :
      ℕ → ℕ → ℤ → String → Sender Db K → Option Error × Sender Db K
  update_message_status id status retry_count err_msg s =
      let (t, s') = now s in
      let updates =
        status_to status
        ∷ retry_count_to retry_count
        ∷ error_msg_to err_msg
        ∷ updated_at_to t
        ∷ [] in
      let (t', s'') = now s' in
      if status == 0 && ltb_ℤ (pos 0) retry_count
      then update_by_id id (updates ++ next_retry_to (add_time t' (backoff retry_count)) ∷ []) s''
      else update_by_id id updates s'

  unfoldable pub mark_message_failed : ℕ → String → Sender Db K → Option Error × Sender Db K
  mark_message_failed id err_msg s =
      let (t, s') = now s in
      update_by_id id (status_to 2 ∷ error_msg_to err_msg ∷ updated_at_to t ∷ []) s'

  -- Errors of the two updates are logged only.
  unfoldable pub handle_send_failure : LocalMessage → Error → Sender Db K → Sender Db K
  handle_send_failure msg send_err s =
      let new_retry_count = int64 (msg.retry_count +ℤ pos 1) in
      if leb_ℤ msg.max_retry new_retry_count
      then (mark_message_failed msg.id send_err.text s).1
      else (update_message_status msg.id 0 new_retry_count send_err.text s).1

  unfoldable pub process_one_message : LocalMessage → Sender Db K → Sender Db K
  process_one_message msg s =
      let (e, k) = send_message producer msg.topic msg.key msg.value s.producer_state in
      let s' = record s { producer_state = k } in
      elim e [
        | some send_err ↦ handle_send_failure msg send_err s'
        | none ↦ (mark_message_sent msg.id s').1
      ]

  -- The loop `for _, msg := range messages`.
  unfoldable pub process_messages : List LocalMessage → Sender Db K → Sender Db K
  process_messages [] s = s
  process_messages (msg ∷ msgs) s = process_messages msgs (process_one_message msg s)

  unfoldable pub send_pending_messages : Sender Db K → Sender Db K
  send_pending_messages s =
      let (r, s') = get_pending_messages (pos 100) s in
      elim r [ err e ↦ s' | ok messages ↦ process_messages messages s' ]

  -- The loop of the sender, over the signals that its `select` receives.
  unfoldable pub start_local_message_sender : List Signal → Sender Db K → Sender Db K
  start_local_message_sender [] s = s
  start_local_message_sender (done ∷ signals) s = s
  start_local_message_sender (ticked ∷ signals) s =
      start_local_message_sender signals (send_pending_messages s)
