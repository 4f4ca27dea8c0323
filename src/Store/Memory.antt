-- ===== src/Store/Memory.antt =====
-- A database in memory that meets the laws: the tables, what a rollback restores, and a script of
-- faults, of which each call takes the next. It shows that the hypotheses can hold, and runs the
-- code in tests.
pub mod Meets
use student_service.Common.{
  ℕ, ℤ, zero, suc, ◌+◌, pos, ◌≡◌, refl, Bool, true, false, not, Option, none, some, List, [], ◌∷◌,
  ◌++◌, map, String, find, any, All, str_eq, length, eqb_ℤ, if◌then◌else◌, arith, inl, inr, ltb,
  ltb_ℤ, ◌+ℤ◌, Option-cases, Bool-cases,
}
use student_service.Model.{Student, Class, LocalMessage, AuditLog}
use student_service.Result.{Error, ErrorKind, Result, ok, err, is_record_not_found, new_error}
use student_service.Store.{Gorm}
use student_service.Store.Rows.{
  StudentCond, StudentAssign, MessageCond, MessageAssign, Select, Tables, is_live, update_where,
  select_messages, update_message_rows, select_students, in_update, assign_all, student_assign,
  live_with_id, place_all,
}

-- What becomes of the next call.
pub data Fault : Type 0 where
  pass timeout : Fault
  broken : String → Fault

pub record Memory (S : Type 0) : Type 0 where
  pub tables : Tables S
  pub saved : Tables S
  pub faults : List Fault

abbrev pub not_found : Error
not_found = record { kind = ErrorKind.record_not_found; text = "record not found" }

abbrev pub duplicated : Error
duplicated = record { kind = ErrorKind.duplicated_key; text = "Error 1062: Duplicate entry" }

abbrev pub next_fault : List Fault → Option Error
next_fault [] = none
next_fault (pass ∷ fs) = none
next_fault (timeout ∷ fs) =
    some (record { kind = ErrorKind.deadline_exceeded; text = "context deadline exceeded" })
next_fault (broken t ∷ fs) = some (new_error t)

abbrev pub later_faults : List Fault → List Fault
later_faults [] = []
later_faults (f ∷ fs) = fs

-- A key above those of the rows.
abbrev pub next_id : List LocalMessage → ℕ
next_id [] = 1
next_id (r ∷ rs) = r.id + next_id rs

abbrev pub class_result : Option Class → Result Class
class_result none = err not_found
class_result (some c) = ok c

module _ {S : Type 0} where
  abbrev pub fault : Memory S → Option Error
  fault m = next_fault m.faults

  abbrev pub passed : Memory S → Memory S
  passed m = record m { faults = later_faults m.faults }

module _ {S A : Type 0} where
  -- A read takes its fault, or gives its answer.
  abbrev pub read : Result A → Memory S → Result A × Memory S
  read r m = (elim (fault m) [ some e ↦ err e | none ↦ r ], passed m)

module _ {S : Type 0} where
  -- A write takes its fault, or changes the tables.
  abbrev pub write : (Tables S → Tables S) → Memory S → Option Error × Memory S
  write f m = elim (fault m) [
    | some e ↦ (some e, passed m)
    | none ↦ (none, record (passed m) { tables = f m.tables })
  ]

  abbrev pub to_result : Option (Student S) → Result (Student S)
  to_result none = err not_found
  to_result (some s) = ok s

  -- The rows that pass a test.
  abbrev pub count : (Student S → Bool) → List (Student S) → ℕ
  count p [] = 0
  count p (r ∷ rs) = if p r then suc (count p rs) else count p rs

  abbrev pub next_student_id : List (Student S) → ℤ
  next_student_id [] = pos 1
  next_student_id (r ∷ rs) =
      if ltb_ℤ (next_student_id rs) (r.id +ℤ pos 1) then r.id +ℤ pos 1 else next_student_id rs

  abbrev pub with_key : Student S → List (Student S) → Student S
  with_key s rs = if eqb_ℤ s.id (pos 0) then record s { id = next_student_id rs } else s

  abbrev pub has_id : ℤ → Student S → Bool
  has_id i r = eqb_ℤ r.id i

  -- Students are created one after the other, all or none.
  abbrev pub create_rows :
      List (Student S) → List (Student S) → Option (List (Student S) × List (Student S))
  create_rows [] rs = some ([], rs)
  create_rows (s ∷ ss) rs =
      let t = with_key s rs in
      if any (has_id t.id) rs then none else elim (create_rows ss (place_all (t ∷ []) rs)) [
        | none ↦ none
        | some (ts, rs') ↦ some (t ∷ ts, rs')
      ]

  abbrev pub created :
      Option (List (Student S) × List (Student S)) → Memory S → Result (List (Student S)) × Memory S
  created none m = (err duplicated, passed m)
  created (some (ts, rs)) m =
      (ok ts, record (passed m) { tables = record m.tables { students = rs } })

  abbrev pub create : List (Student S) → Memory S → Result (List (Student S)) × Memory S
  create ss m = elim (fault m) [
    | some e ↦ (err e, passed m)
    | none ↦ created (create_rows ss m.tables.students) m
  ]

  abbrev pub update : (Student S → Bool) → (Student S → Student S) → Memory S → Result ℕ × Memory S
  update p f m = elim (fault m) [
    | some e ↦ (err e, passed m)
    | none ↦ (
      ok (count p m.tables.students),
      record (passed m) {
        tables = record m.tables { students = update_where p f m.tables.students };
      },
    )
  ]

module _ {S Session : Type 0} where
  abbrev pub close_transaction :
      Tables S → Option Error × Session × Memory S → Option Error × Session × Memory S
  close_transaction t (some e, s, m) = (some e, s, record m { tables = t })
  close_transaction t (none, s, m) = elim (fault m) [
    | some e ↦ (some e, s, record (passed m) { tables = t })
    | none ↦ (none, s, passed m)
  ]

  abbrev pub run_transaction :
      (Session → Memory S → Option Error × Session × Memory S)
      → Session
      → Memory S
      → Option Error × Session × Memory S
  run_transaction body s m = elim (fault m) [
    | some e ↦ (some e, s, passed m)
    | none ↦ close_transaction m.tables (body s (passed m))
  ]

  abbrev pub memory : (String → String → Bool) → (S → Bool) → Gorm S (Memory S) Session
  memory like is_zero = record {
    first_student = λ i m. read (to_result (find (live_with_id i) m.tables.students)) m;
    find_students = λ q m. read (ok (select_students like q m.tables)) m;
    create_students = create;
    update_students =
        λ cs as_. update (in_update like cs) (assign_all (student_assign is_zero) as_);
    save_student = λ s.
        write λ t. record t { students = update_where (live_with_id s.id) (λ _. s) t.students };
    delete_student = λ i. write λ t. record t {
      students = update_where (live_with_id i) (λ s. record s { deleted_at = some 1 }) t.students;
    };
    first_class = λ i m. read (class_result (find (λ c. eqb_ℤ c.id i) m.tables.classes)) m;
    find_messages = λ q m. read (ok (select_messages q m.tables.messages)) m;
    update_messages =
        λ cs as_. write λ t. record t { messages = update_message_rows cs as_ t.messages };
    create_message = λ x.
        write λ t. record t { messages = t.messages ++ record x { id = next_id t.messages } ∷ [] };
    create_audit = λ a m.
        if any (λ r. str_eq r.trace_id a.trace_id) m.tables.audits
        then (some duplicated, passed m)
        else write (λ t. record t { audits = t.audits ++ a ∷ [] }) m;
    transaction = run_transaction;
    begin = λ m. (fault m, record (passed m) { saved = m.tables });
    commit = λ m. elim (fault m) [
      | some e ↦ (some e, record (passed m) { tables = m.saved })
      | none ↦ (none, passed m)
    ];
    rollback = λ m. record m { tables = m.saved };
  }
