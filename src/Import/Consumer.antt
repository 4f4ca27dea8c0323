-- ===== src/Import/Consumer.antt =====
-- kafka/import_consumer.go: the consumer that writes the students of the topic to the database in
-- batches. A handler serves every claim of its session, one goroutine for each, which share the
-- buffer `pending` under a mutex; a step below is what a goroutine does between two of its waits.
pub mod Batches
pub mod Claims
use student_service.Common.{
  ℕ, zero, suc, ◌+◌, ℤ, pos, negsuc, leb_ℤ, Bool, true, false, Option, none, some, List, [], ◌∷◌,
  ◌++◌, String, length, ltb, ◌==◌, if◌then◌else◌,
}
use student_service.Model.{Student}
use student_service.Result.{Error, Result, ok, err}
use student_service.Env.{Env}
use student_service.Store.{Gorm}
use student_service.Dao

pub record Message : Type 0 where
  pub offset : ℕ
  pub value : String

-- What the `select` of `ConsumeClaim` receives.
pub data Received : Type 0 where
  message : Message → Received
  closed timed_out : Received

-- `ImportHandler`, the database, and the messages marked as consumed.
pub record Importer (S Db : Type 0) : Type 0 where
  pub batch_size : ℤ
  pub pending : List (Student S)
  pub db : Db
  pub marked : List Message

module _ {S Seed Db Session : Type 0} (env : Env S Seed) (gorm : Gorm S Db Session) where
  unfoldable pub setup : Importer S Db → Importer S Db
  setup h = record h {
    batch_size = if leb_ℤ h.batch_size (pos 0) then pos 100 else h.batch_size;
    pending = [];
  }

  -- `flushBatch`.
  unfoldable pub flush_batch : List (Student S) → Db → Option Error × Db
  flush_batch [] db = (none, db)
  flush_batch (s ∷ ss) db =
      let (r, db') = Dao.batch_create_student gorm (s ∷ ss) db in
      (elim r [ err e ↦ some e | ok created ↦ none ], db')

  -- A flush whose error is logged only.
  abbrev pub flushed : List (Student S) → Importer S Db → Importer S Db
  flushed batch h = record h { db = (flush_batch batch h.db).1 }

  unfoldable pub cleanup : Importer S Db → Importer S Db
  cleanup h =
      let h' = record (flushed h.pending h) { pending = [] } in
      if ltb 0 (length h.pending) then h' else h

  -- The beginning of `ConsumeClaim`.
  unfoldable pub start_claim : Importer S Db → Importer S Db
  start_claim h = record h { pending = [] }

  -- A student into the buffer, and the buffer to the database once it is full.
  unfoldable pub buffer_student : Student S → Importer S Db → Importer S Db
  buffer_student student h =
      let pending = h.pending ++ student ∷ [] in
      if leb_ℤ h.batch_size (pos (length pending))
      then flushed pending (record h { pending = [] })
      else record h { pending = pending }

  abbrev pub mark_message : Message → Importer S Db → Importer S Db
  mark_message msg h = record h { marked = h.marked ++ msg ∷ [] }

  -- A message in the loop of `ConsumeClaim`.
  unfoldable pub consume_message : Message → Importer S Db → Importer S Db
  consume_message msg h = elim (env.json.unmarshal_student msg.value) [
    | err e ↦ mark_message msg h
    | ok student ↦ mark_message msg (buffer_student student h)
  ]

  -- `flushAndExit`.
  unfoldable pub flush_and_exit : Importer S Db → Importer S Db
  flush_and_exit h =
      if ltb 0 (length h.pending) then flushed h.pending (record h { pending = [] }) else h

  -- The loop, over what the `select` receives.
  unfoldable pub consume_loop : List Received → Importer S Db → Importer S Db
  consume_loop [] h = h
  consume_loop (closed ∷ rs) h = flush_and_exit h
  consume_loop (timed_out ∷ rs) h = flush_and_exit h
  consume_loop (message msg ∷ rs) h = consume_loop rs (consume_message msg h)

  unfoldable pub consume_claim : List Received → Importer S Db → Importer S Db
  consume_claim rs h = consume_loop rs (start_claim h)
