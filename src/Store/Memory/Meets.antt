-- ===== src/Store/Memory/Meets.antt =====
-- The database in memory meets the laws, whatever the script of faults.
use student_service.Common.{
  ℕ, ◌+◌, ◌<◌, ◌≡◌, refl, Bool, true, false, none, List, [], ◌∷◌, ◌++◌, String, any, All, arith,
  subst,
}
use native.Mathlib.Nat.{add_assoc, zero-add}
use student_service.Model.{Student, LocalMessage}
use student_service.Result.{ok}
use student_service.Store.{Gorm}
use student_service.Store.Rows.{
  Tables, update_where, in_update, assign_all, student_assign, place_all,
}
use student_service.Store.Laws.{
  MessageLaws, StudentLaws, TransactionLaws, SessionLaws, AuditLaws, ClassLaws,
}
use student_service.Store.Memory.{Memory, memory, next_id, count, passed, with_key, has_id}

next_id_pos : (ms : List LocalMessage) → 0 < next_id ms
next_id_pos [] = omega arith
next_id_pos (r ∷ rs) = omega (arith, next_id_pos rs)

below_from : (ms : List LocalMessage) (n : ℕ) → All (λ r. r.id < n + next_id ms) ms
below_from [] n = tt
below_from (r ∷ rs) n = (
  omega (arith, next_id_pos rs),
  subst (λ k. All (λ x. x.id < k) rs) (add_assoc n r.id (next_id rs)) (below_from rs (n + r.id)),
)

below_next : (ms : List LocalMessage) → All (λ r. r.id < next_id ms) ms
below_next ms = subst (λ k. All (λ r. r.id < k) ms) (zero-add (next_id ms)) (below_from ms 0)

module _ {S : Type 0} where
  count-none :
      (p : Student S → Bool) (f : Student S → Student S) (rs : List (Student S))
      → count p rs ≡ 0
      → update_where p f rs ≡ rs
  count-none p f [] h = refl
  count-none p f (r ∷ rs) h = ground (arith, count-none p f rs)

  count-some : (p : Student S → Bool) (rs : List (Student S)) → 0 < count p rs → any p rs ≡ true
  count-some p [] h = absurd (omega arith)
  count-some p (r ∷ rs) h = ground (arith, count-some p rs)

abbrev pub view : {S : Type 0} → Memory S → Tables S
view m = m.tables

abbrev pub saved : {S : Type 0} → Memory S → Tables S
saved m = m.saved

module _ {S : Type 0} (Session : Type 0) (like : String → String → Bool) (is_zero : S → Bool) where
  abbrev gorm : Gorm S (Memory S) Session
  gorm = memory like is_zero

  create_lem :
      (s : Student S) (m : Memory S) (ss : List (Student S))
      → (gorm.create_students (s ∷ []) m).0 ≡ ok ss
      → (ss ≡ with_key s m.tables.students ∷ [])
        × (any (has_id (with_key s m.tables.students).id) m.tables.students ≡ false)
        × (view (gorm.create_students (s ∷ []) m).1
            ≡ record (view m) { students = place_all ss m.tables.students })
  create_lem s m ss h = ground arith

  pub memory-StudentLaws : StudentLaws gorm like is_zero view
  memory-StudentLaws = record {
    first_student_ok = λ i m s h. ground arith;
    first_student_missing = λ i m e h k. ground arith;
    first_student_view = λ i m. refl;
    find_students_ok = λ q m ss h. ground arith;
    find_students_view = λ q m. refl;
    update_students_ok = λ cs as_ m n h. ground arith;
    update_students_some =
        λ cs as_ m n h p. count-some (in_update like cs) m.tables.students (ground arith);
    update_students_none = λ cs as_ m h. ground (
      arith,
      count-none (in_update like cs) (assign_all (student_assign is_zero) as_) m.tables.students,
    );
    save_student_ok = λ s m present h. ground arith;
    save_student_whole = λ s m present. ground arith;
    delete_student_ok = λ i m h. (1, ground arith);
    create_student_ok = λ s m ss h.
        let c = create_lem s m ss h in
        ((with_key s m.tables.students).id, ground (arith, c), λ n. ground arith, c.1, c.2);
  }

  create_message_lem :
      (x : LocalMessage) (m : Memory S)
      → (gorm.create_message x m).0 ≡ none
      → view (gorm.create_message x m).1 ≡ record (view m) {
        messages = (view m).messages ++ record x { id = next_id (view m).messages } ∷ [];
      }
  create_message_lem x m h = ground arith

  pub memory-MessageLaws : MessageLaws gorm view
  memory-MessageLaws = record {
    find_messages_ok = λ q m ms h. ground arith;
    find_messages_view = λ q m. refl;
    update_messages_ok = λ cs as_ m h. ground arith;
    update_messages_whole = λ cs as_ m. ground arith;
    create_message_ok = λ x m h. (
      next_id m.tables.messages,
      x.updated_at,
      below_next m.tables.messages,
      create_message_lem x m h,
    );
  }

  pub memory-TransactionLaws : TransactionLaws gorm view
  memory-TransactionLaws = record {
    transaction_ok = λ body s m h. (passed m, refl, ground arith, ground arith, ground arith);
    transaction_err = λ body s m e h. ground arith;
  }

  pub memory-SessionLaws : SessionLaws gorm view saved
  memory-SessionLaws = record {
    begin_view = λ m. refl;
    begin_saved = λ m. refl;
    first_student_saved = λ i m. refl;
    save_student_saved = λ s m. ground arith;
    rollback_view = λ m. refl;
    commit_ok = λ m h. ground arith;
    commit_err = λ m e h. ground arith;
  }

  pub memory-ClassLaws : ClassLaws gorm view
  memory-ClassLaws = record { first_class_view = λ i m. refl }

  pub memory-AuditLaws : AuditLaws gorm view
  memory-AuditLaws = record {
    create_audit_ok = λ a m h. ground arith;
    create_audit_whole = λ a m. ground arith;
  }
