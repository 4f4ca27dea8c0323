-- ===== src/Import/Consumer/Claims.antt =====
-- kafka/import_consumer.go: the claims of a session, which share the buffer of their handler. Each step
-- is what one goroutine does while it holds the mutex, or outside it; a full buffer is taken under the
-- mutex and written to the database later, so that batches of several claims can be under way.
pub mod Conserved
use student_service.Common.{
  ℕ, ◌+◌, ◌≡◌, refl, sym, subst, ◌∙◌, pos, leb_ℤ, ltb, Bool, true, false, Option, none, some, List,
  [], ◌∷◌, ◌++◌, length, any, pick, total, total-append, total-pick, Bool-cases, Option-cases, inl,
  inr, arith, if◌then◌else◌,
}
use student_service.Model.{Student}
use student_service.Result.{ok, err, Result-cases}
use student_service.Env.{Env}
use student_service.Store.{Gorm}
use student_service.Import.Consumer.{Message, Importer, flush_batch}

-- A batch that was taken out of the buffer, with the message that its goroutine marks afterwards.
pub record Batch (S : Type 0) : Type 0 where
  pub students : List (Student S)
  pub message : Option Message

-- The handler and what its claims are doing. `written` are the students handed to the database in
-- batches, and `dropped` those that were in the buffer when a claim emptied it.
pub record Claims (S Db : Type 0) : Type 0 where
  pub importer : Importer S Db
  pub under_way : List (Batch S)
  pub written : List (Student S)
  pub dropped : List (Student S)

pub data ClaimAction : Type 0 where
  -- A claim begins, receives a message, writes the batch that it has taken (by its place), or ends.
  begin_claim : ClaimAction
  receive : Message → ClaimAction
  write_batch : ℕ → ClaimAction
  end_claim : ClaimAction

abbrev pub marks_of : Option Message → List Message
marks_of none = []
marks_of (some m) = m ∷ []

module _ {S Seed Db Session : Type 0} (env : Env S Seed) (gorm : Gorm S Db Session) where
  -- A student into the buffer, which is taken if it is full; the message is marked at once if not.
  unfoldable pub take_or_mark : Message → Student S → Claims S Db → Claims S Db
  take_or_mark msg student c =
      let pending = c.importer.pending ++ student ∷ [] in
      if leb_ℤ c.importer.batch_size (pos (length pending))
      then record c {
        importer = record c.importer { pending = [] };
        under_way = c.under_way ++ record { students = pending; message = some msg } ∷ [];
      }
      else record c {
        importer = record c.importer { pending = pending; marked = c.importer.marked ++ msg ∷ [] };
      }

  unfoldable pub claim_step : ClaimAction → Claims S Db → Claims S Db
  claim_step begin_claim c = record c {
    importer = record c.importer { pending = [] };
    dropped = c.dropped ++ c.importer.pending;
  }
  claim_step (receive msg) c = elim (env.json.unmarshal_student msg.value) [
    | err e ↦ record c { importer = record c.importer { marked = c.importer.marked ++ msg ∷ [] } }
    | ok student ↦ take_or_mark msg student c
  ]
  claim_step (write_batch n) c = elim (pick n c.under_way) [
    | none ↦ c
    | some (batch, rest) ↦ record c {
      importer = record c.importer {
        db = (flush_batch env gorm batch.students c.importer.db).1;
        marked = c.importer.marked ++ marks_of batch.message;
      };
      under_way = rest;
      written = c.written ++ batch.students;
    }
  ]
  claim_step end_claim c =
      if ltb 0 (length c.importer.pending)
      then record c {
        importer = record c.importer { pending = [] };
        under_way = c.under_way ++ record { students = c.importer.pending; message = none } ∷ [];
      }
      else c

  unfoldable pub claim_steps : List ClaimAction → Claims S Db → Claims S Db
  claim_steps [] c = c
  claim_steps (a ∷ actions) c = claim_steps actions (claim_step a c)
