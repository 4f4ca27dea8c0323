-- ===== src/Import/Consumer/Claims/Conserved.antt =====
-- kafka/import_consumer.go: what becomes of the students and the messages that the claims of a session
-- receive.
use student_service.Common.{ℕ, ◌+◌, ◌≡◌, Bool, true, false, List, [], ◌∷◌, ◌++◌, any, total}
use student_service.Model.{Student}
use student_service.Result.{ok, err}
use student_service.Env.{Env}
use student_service.Store.{Gorm}
use student_service.Import.Consumer.{Message}
use student_service.Import.Consumer.Claims.{Claims, ClaimAction, begin_claim, receive, marks_of}

module _ {S Seed Db Session : Type 0} (env : Env S Seed) (gorm : Gorm S Db Session) where
  -- The students that the messages received hold, and the messages.
  abbrev student_of : Message → List (Student S)
  student_of msg = elim (env.json.unmarshal_student msg.value) [ err e ↦ [] | ok s ↦ s ∷ [] ]

  abbrev students_in : ClaimAction → List (Student S)
  students_in (receive msg) = student_of msg
  students_in a = []

  abbrev messages_in : ClaimAction → List Message
  messages_in (receive msg) = msg ∷ []
  messages_in a = []

  abbrev pub received_students : List ClaimAction → List (Student S)
  received_students [] = []
  received_students (a ∷ actions) = students_in a ++ received_students actions

  abbrev pub received_messages : List ClaimAction → List Message
  received_messages [] = []
  received_messages (a ∷ actions) = messages_in a ++ received_messages actions

  -- A measure of the students that the state holds, and of the messages.
  abbrev pub held_students : (Student S → ℕ) → Claims S Db → ℕ
  held_students f c =
      total f c.written
      + total f c.importer.pending
      + total (λ b. total f b.students) c.under_way
      + total f c.dropped

  abbrev pub held_messages : (Message → ℕ) → Claims S Db → ℕ
  held_messages f c =
      total f c.importer.marked + total (λ b. total f (marks_of b.message)) c.under_way

  abbrev is_begin : ClaimAction → Bool
  is_begin begin_claim = true
  is_begin a = false

  -- From one state to another, with students and messages received and perhaps a claim begun.
  abbrev ConservedBy : List (Student S) → List Message → Bool → Claims S Db → Claims S Db → Type 0
  ConservedBy ss ms begun c c' =
      ((f : Student S → ℕ) → held_students f c' ≡ held_students f c + total f ss)
      × ((f : Message → ℕ) → held_messages f c' ≡ held_messages f c + total f ms)
      × (begun ≡ false → c'.dropped ≡ c.dropped)

  abbrev pub Conserved : List ClaimAction → Claims S Db → Claims S Db → Type 0
  Conserved actions =
      ConservedBy (received_students actions) (received_messages actions) (any is_begin actions)
