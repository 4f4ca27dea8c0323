-- ===== src/Store/Laws.antt =====
-- What the code relies on of gorm and MySQL, as hypotheses over what a session sees of the tables.
-- A call that reports an error may have failed for any reason that the laws leave open.
use student_service.Common.{
  ℕ, ℤ, pos, ◌≡◌, ◌≢◌, ◌⊎◌, ◌<◌, Bool, true, false, Option, none, some, List, [], ◌∷◌, ◌++◌, String,
  find, any, All, eqb_ℤ, str_eq,
}
use student_service.Model.{Student, LocalMessage, AuditLog}
use student_service.Result.{Error, ok, err, is_record_not_found}
use student_service.Store.{Gorm}
use student_service.Store.Rows.{
  StudentCond, StudentAssign, MessageCond, MessageAssign, Select, Tables, update_where,
  select_messages, update_message_rows, select_students, in_update, assign_all, student_assign,
  live_with_id, place_all,
}

module _ {S Db Session : Type 0} (gorm : Gorm S Db Session) where
  -- Statements on the table of messages.
  pub record MessageLaws (view : Db → Tables S) : Type 0 where
    pub find_messages_ok :
        (q : Select MessageCond) (db : Db) (ms : List LocalMessage)
        → (gorm.find_messages q db).0 ≡ ok ms
        → ms ≡ select_messages q (view db).messages
    pub find_messages_view :
        (q : Select MessageCond) (db : Db) → view (gorm.find_messages q db).1 ≡ view db
    pub update_messages_ok :
        (cs : List MessageCond) (as_ : List MessageAssign) (db : Db)
        → (gorm.update_messages cs as_ db).0 ≡ none
        → view (gorm.update_messages cs as_ db).1
          ≡ record (view db) { messages = update_message_rows cs as_ (view db).messages }
    -- One statement is done whole or not at all, also when its outcome is reported as an error.
    pub update_messages_whole :
        (cs : List MessageCond) (as_ : List MessageAssign) (db : Db)
        → (view (gorm.update_messages cs as_ db).1 ≡ view db)
          ⊎ (view (gorm.update_messages cs as_ db).1
              ≡ record (view db) { messages = update_message_rows cs as_ (view db).messages })
    -- A new message gets a key above all others, and gorm stamps it.
    pub create_message_ok :
        (m : LocalMessage) (db : Db)
        → (gorm.create_message m db).0 ≡ none
        → (k stamp : ℕ) × All (λ r. r.id < k) (view db).messages
          × (view (gorm.create_message m db).1 ≡ record (view db) {
            messages = (view db).messages ++ record m { id = k; updated_at = stamp } ∷ [];
          })

  -- Statements on the table of students; `is_zero` tells Go's zero score.
  pub record StudentLaws (like : String → String → Bool) (is_zero : S → Bool) (view : Db → Tables S)
      : Type 0 where
    pub first_student_ok :
        (i : ℤ) (db : Db) (s : Student S)
        → (gorm.first_student i db).0 ≡ ok s
        → find (live_with_id i) (view db).students ≡ some s
    pub first_student_missing :
        (i : ℤ) (db : Db) (e : Error)
        → (gorm.first_student i db).0 ≡ err e
        → is_record_not_found e ≡ true
        → find (live_with_id i) (view db).students ≡ none
    pub first_student_view : (i : ℤ) (db : Db) → view (gorm.first_student i db).1 ≡ view db
    pub find_students_ok :
        (q : Select StudentCond) (db : Db) (ss : List (Student S))
        → (gorm.find_students q db).0 ≡ ok ss
        → ss ≡ select_students like q (view db)
    pub find_students_view :
        (q : Select StudentCond) (db : Db) → view (gorm.find_students q db).1 ≡ view db
    pub update_students_ok :
        (cs : List StudentCond) (as_ : List (StudentAssign S)) (db : Db) (n : ℕ)
        → (gorm.update_students cs as_ db).0 ≡ ok n
        → view (gorm.update_students cs as_ db).1 ≡ record (view db) {
          students =
              update_where
                (in_update like cs)
                (assign_all (student_assign is_zero) as_)
                (view db).students;
        }
    -- A count above zero says that a row met the conditions, and a count of zero that nothing changed.
    pub update_students_some :
        (cs : List StudentCond) (as_ : List (StudentAssign S)) (db : Db) (n : ℕ)
        → (gorm.update_students cs as_ db).0 ≡ ok n
        → 0 < n
        → any (in_update like cs) (view db).students ≡ true
    pub update_students_none :
        (cs : List StudentCond) (as_ : List (StudentAssign S)) (db : Db)
        → (gorm.update_students cs as_ db).0 ≡ ok 0
        → view (gorm.update_students cs as_ db).1 ≡ view db
    -- `Save` of a student that the table holds writes every column of its row.
    pub save_student_ok :
        (s : Student S) (db : Db)
        → any (live_with_id s.id) (view db).students ≡ true
        → (gorm.save_student s db).0 ≡ none
        → view (gorm.save_student s db).1 ≡ record (view db) {
          students = update_where (live_with_id s.id) (λ _. s) (view db).students;
        }
    pub save_student_whole :
        (s : Student S) (db : Db)
        → any (live_with_id s.id) (view db).students ≡ true
        → (view (gorm.save_student s db).1 ≡ view db)
          ⊎ (view (gorm.save_student s db).1 ≡ record (view db) {
            students = update_where (live_with_id s.id) (λ _. s) (view db).students;
          })
    -- A soft delete stamps the live row.
    pub delete_student_ok :
        (i : ℤ) (db : Db)
        → (gorm.delete_student i db).0 ≡ none
        → (t : ℕ) × (view (gorm.delete_student i db).1 ≡ record (view db) {
          students =
              update_where
                (live_with_id i)
                (λ s. record s { deleted_at = some t })
                (view db).students;
        })
    -- Creating one student keeps its fields, fills in its key if that is zero, and needs a key that
    -- no row has, soft-deleted rows included.
    pub create_student_ok :
        (s : Student S) (db : Db) (ss : List (Student S))
        → (gorm.create_students (s ∷ []) db).0 ≡ ok ss
        → (i : ℤ) × (ss ≡ record s { id = i } ∷ [])
          × (s.id ≢ pos 0 → i ≡ s.id)
          × (any (λ r. eqb_ℤ r.id i) (view db).students ≡ false)
          × (view (gorm.create_students (s ∷ []) db).1
              ≡ record (view db) { students = place_all ss (view db).students })

  -- Reading a class changes nothing.
  pub record ClassLaws (view : Db → Tables S) : Type 0 where
    pub first_class_view : (i : ℤ) (db : Db) → view (gorm.first_class i db).1 ≡ view db

  -- The table of audit rows has a unique index on the trace id. A row whose creation reports an error
  -- may be there all the same.
  pub record AuditLaws (view : Db → Tables S) : Type 0 where
    pub create_audit_ok :
        (a : AuditLog) (db : Db)
        → (gorm.create_audit a db).0 ≡ none
        → (any (λ r. str_eq r.trace_id a.trace_id) (view db).audits ≡ false)
          × (view (gorm.create_audit a db).1
              ≡ record (view db) { audits = (view db).audits ++ a ∷ [] })
    pub create_audit_whole :
        (a : AuditLog) (db : Db)
        → (view (gorm.create_audit a db).1 ≡ view db)
          ⊎ (view (gorm.create_audit a db).1
              ≡ record (view db) { audits = (view db).audits ++ a ∷ [] })

  -- A transaction is kept whole or not at all, and an error of its body is what it returns.
  pub record TransactionLaws (view : Db → Tables S) : Type 0 where
    pub transaction_ok :
        (body : Session → Db → Option Error × Session × Db) (s : Session) (db : Db)
        → (gorm.transaction body s db).0 ≡ none
        → (opened : Db) × (view opened ≡ view db)
          × ((body s opened).0 ≡ none)
          × ((gorm.transaction body s db).1 ≡ (body s opened).1)
          × (view (gorm.transaction body s db).2 ≡ view (body s opened).2)
    pub transaction_err :
        (body : Session → Db → Option Error × Session × Db) (s : Session) (db : Db) (e : Error)
        → (gorm.transaction body s db).0 ≡ some e
        → view (gorm.transaction body s db).2 ≡ view db

  -- The explicit form. `saved` is what a rollback restores.
  pub record SessionLaws (view saved : Db → Tables S) : Type 0 where
    pub begin_view : (db : Db) → view (gorm.begin db).1 ≡ view db
    pub begin_saved : (db : Db) → saved (gorm.begin db).1 ≡ view db
    pub first_student_saved : (i : ℤ) (db : Db) → saved (gorm.first_student i db).1 ≡ saved db
    pub save_student_saved : (s : Student S) (db : Db) → saved (gorm.save_student s db).1 ≡ saved db
    pub rollback_view : (db : Db) → view (gorm.rollback db) ≡ saved db
    pub commit_ok : (db : Db) → (gorm.commit db).0 ≡ none → view (gorm.commit db).1 ≡ view db
    pub commit_err :
        (db : Db) (e : Error) → (gorm.commit db).0 ≡ some e → view (gorm.commit db).1 ≡ saved db
