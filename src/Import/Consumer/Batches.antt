-- ===== src/Import/Consumer/Batches.antt =====
-- One claim of the import consumer, from its first message to its exit: the batches that it writes.
use student_service.Common.{ℕ, ◌<◌, ◌≡◌, Bool, true, false, List, [], ◌∷◌, ◌++◌, length}
use student_service.Model.{Student}
use student_service.Result.{ok, err}
use student_service.Env.{Env}
use student_service.Store.{Gorm}
use student_service.Import.Consumer.{
  Message, Received, message, closed, timed_out, Importer, flush_batch,
}

module _ {A : Type 0} where
  -- A list cut into full batches of `n`, the last of which may be smaller.
  pub data Batched (n : ℕ) : List (List A) → List A → Type 0 where
    none_left : Batched n [] []
    rest_left : (b : List A) → 0 < length b → length b < n → Batched n (b ∷ []) b
    full_batch :
        (b : List A) {bs : List (List A)} {xs : List A}
        → length b ≡ n
        → Batched n bs xs
        → Batched n (b ∷ bs) (b ++ xs)

-- The receipts that end a claim.
abbrev pub is_end : Received → Bool
is_end (message m) = false
is_end closed = true
is_end timed_out = true

module _ {S Seed Db Session : Type 0} (env : Env S Seed) (gorm : Gorm S Db Session) where
  -- The students that the messages hold; the others are passed over.
  abbrev pub decoded : List Message → List (Student S)
  decoded [] = []
  decoded (m ∷ ms) = elim (env.json.unmarshal_student m.value) [
    | err e ↦ decoded ms
    | ok s ↦ s ∷ decoded ms
  ]

  abbrev pub write_all : List (List (Student S)) → Db → Db
  write_all [] db = db
  write_all (b ∷ bs) db = write_all bs (flush_batch env gorm b db).1

  -- How the loop ends that began with `h`.
  abbrev Done : ℕ → Importer S Db → List Message → Importer S Db → Type 0
  Done n h ms h' =
      (batches : List (List (Student S))) × Batched n batches (h.pending ++ decoded ms)
      × (h'.db ≡ write_all batches h.db)
      × (h'.marked ≡ h.marked ++ ms)
      × (h'.pending ≡ [])

  -- The message was added to the marks, and its student, if it holds one, to the buffer.
  abbrev marked_with : Message → Importer S Db → Importer S Db
  marked_with m h = record h { marked = h.marked ++ m ∷ [] }

  -- The buffer with one more student, and the buffer written with it.
  abbrev filled_up : Importer S Db → Student S → Importer S Db
  filled_up h s = record h { pending = h.pending ++ s ∷ [] }

  abbrev emptied : Importer S Db → Student S → Importer S Db
  emptied h s = record h { pending = []; db = (flush_batch env gorm (h.pending ++ s ∷ []) h.db).1 }
