-- ===== src/Students/Score/Pessimistic.antt =====
-- Adding to a score in an explicit transaction.
use student_service.Common.{
  ℤ, ◌≡◌, refl, sym, ◌∙◌, ap, subst, inl, inr, Bool, true, false, Option, none, some, List, [], ◌∷◌,
  String, find, any, eqb_ℤ_iff, arith, Option-cases, Bool-cases,
}
use student_service.Model.{Student}
use student_service.Result.{Error, Result-cases}
use student_service.Float.{Float}
use student_service.Store.{Gorm}
use student_service.Store.Rows.{Tables, update_where, live_with_id}
use student_service.Store.Laws.{StudentLaws, SessionLaws}
use student_service.Students.Score.{
  get_student_by_id_for_update, save_and_commit, add_student_score_with_pessimistic_lock,
}

module _ {S : Type 0} where
  find-any :
      (p : Student S → Bool) (rs : List (Student S)) (s : Student S)
      → find p rs ≡ some s
      → (any p rs ≡ true) × (p s ≡ true)
  find-any p [] s h = cc
  find-any p (r ∷ rs) s h = ground (arith, find-any p rs s)

  live_with_id-id : (i : ℤ) (s : Student S) → live_with_id i s ≡ true → s.id ≡ i
  live_with_id-id i s h = (eqb_ℤ_iff s.id i).0 (ground arith)

  -- Writing a row twice is writing it once.
  write_twice :
      (i : ℤ) (s : Student S) (rs : List (Student S))
      → live_with_id i s ≡ true
      → update_where (live_with_id i) (λ _. s) (update_where (live_with_id i) (λ _. s) rs)
        ≡ update_where (live_with_id i) (λ _. s) rs
  write_twice i s [] h = refl
  write_twice i s (r ∷ rs) h = ground (arith, write_twice i s rs h)

  any-written :
      (i : ℤ) (s : Student S) (rs : List (Student S))
      → live_with_id i s ≡ true
      → any (live_with_id i) rs ≡ true
      → any (live_with_id i) (update_where (live_with_id i) (λ _. s) rs) ≡ true
  any-written i s [] h k = k
  any-written i s (r ∷ rs) h k = ground (arith, any-written i s rs h)

module _ {S Db Session : Type 0} (float : Float S) (gorm : Gorm S Db Session)
    (like : String → String → Bool) (is_zero : S → Bool) (view saved : Db → Tables S)
    (students : StudentLaws gorm like is_zero view) (sessions : SessionLaws gorm view saved) where
  -- The tables with the row of the live student replaced.
  abbrev pub replaced : Student S → Tables S → Tables S
  replaced s t = record t { students = update_where (live_with_id s.id) (λ _. s) t.students }

  save_student-replaced :
      (s : Student S) (tx : Db) (t : Tables S)
      → view tx ≡ t
      → any (live_with_id s.id) t.students ≡ true
      → (gorm.save_student s tx).0 ≡ none
      → view (gorm.save_student s tx).1 ≡ replaced s t
  save_student-replaced s tx t same present h =
      students.save_student_ok s tx
        (subst (λ u. any (live_with_id s.id) u.students ≡ true) (sym same) present) h
      ∙ ap (replaced s) same

  save_twice :
      (s : Student S) (tx : Db)
      → live_with_id s.id s ≡ true
      → any (live_with_id s.id) (view tx).students ≡ true
      → let tx1 = (gorm.save_student s tx).1 in
        (gorm.save_student s tx1).0 ≡ none → view (gorm.save_student s tx1).1 ≡ replaced s (view tx)
  save_twice s tx live present h = elim (students.save_student_whole s tx present) [
    | inl same ↦ save_student-replaced s (gorm.save_student s tx).1 (view tx) same present h
    | inr written ↦
        save_student-replaced s (gorm.save_student s tx).1 (replaced s (view tx)) written
          (any-written s.id s (view tx).students live present) h
        ∙ ap (λ ss. record (view tx) { students = ss }) (write_twice s.id s (view tx).students live)
  ]

  -- How `save_and_commit` leaves the tables: written, or as the transaction found them.
  abbrev SaveEnds : Student S → Tables S → Tables S → Option Error × Db → Type 0
  SaveEnds s t kept (none, db) = view db ≡ replaced s t
  SaveEnds s t kept (some e, db) = view db ≡ kept

  save_and_commit_ends :
      (s : Student S) (tx : Db)
      → live_with_id s.id s ≡ true
      → any (live_with_id s.id) (view tx).students ≡ true
      → SaveEnds s (view tx) (saved tx) (save_and_commit float gorm s tx)
  unfolding save_and_commit
  save_and_commit_ends s tx live present =
      let tx2 = (gorm.save_student s (gorm.save_student s tx).1).1 in
      let kept : saved tx2 ≡ saved tx =
        sessions.save_student_saved s (gorm.save_student s tx).1
        ∙ sessions.save_student_saved s tx in
      elim (Option-cases (gorm.save_student s (gorm.save_student s tx).1).0) [
        | inl h ↦ elim (Option-cases (gorm.commit tx2).0) [
          | inl k ↦
              rw (h, k, save_and_commit) (sessions.commit_ok tx2 k ∙ save_twice s tx live present h)
          | inr (e, k) ↦ rw (h, k, save_and_commit) (sessions.commit_err tx2 e k ∙ kept)
        ]
        | inr (e, h) ↦ rw (h, save_and_commit) (sessions.rollback_view tx2 ∙ kept)
      ]

  -- How the whole call ends.
  abbrev pub PessimisticEnds : ℤ → S → Tables S → Option Error × Db → Type 0
  PessimisticEnds id add_score before (none, db) =
      (s : Student S) × (find (live_with_id id) before.students ≡ some s)
      × (float.lt (float.add s.score add_score) float.zero ≡ false)
      × (view db ≡ replaced (record s { score = float.add s.score add_score }) before)
  PessimisticEnds id add_score before (some e, db) = view db ≡ before

  saved-ends :
      (id : ℤ) (add_score : S) (s : Student S) (before t kept : Tables S) (r : Option Error × Db)
      → find (live_with_id id) before.students ≡ some s
      → float.lt (float.add s.score add_score) float.zero ≡ false
      → t ≡ before
      → kept ≡ before
      → SaveEnds (record s { score = float.add s.score add_score }) t kept r
      → PessimisticEnds id add_score before r
  saved-ends id add_score s before t kept (none, db) f fine seen back h =
      (s, f, fine, h ∙ ap (replaced (record s { score = float.add s.score add_score })) seen)
  saved-ends id add_score s before t kept (some e, db) f fine seen back h = h ∙ back

  pub add_student_score_with_pessimistic_lock_ends :
      (id : ℤ) (add_score : S) (db : Db)
      → PessimisticEnds id add_score
          (view db)
          (add_student_score_with_pessimistic_lock float gorm id add_score db)
  unfolding add_student_score_with_pessimistic_lock get_student_by_id_for_update
  add_student_score_with_pessimistic_lock_ends id add_score db =
      let tx = (gorm.begin db).1 in
      let tx' = (gorm.first_student id tx).1 in
      let seen : view tx' ≡ view db = students.first_student_view id tx ∙ sessions.begin_view db in
      let kept : saved tx' ≡ view db =
        sessions.first_student_saved id tx ∙ sessions.begin_saved db in
      elim (Option-cases (gorm.begin db).0) [
        | inr (e, b) ↦ rw (b, add_student_score_with_pessimistic_lock) (sessions.begin_view db)
        | inl b ↦ elim (Result-cases (gorm.first_student id tx).0) [
          | inr (e, h) ↦
              rw (b, h, add_student_score_with_pessimistic_lock, get_student_by_id_for_update)
                (sessions.rollback_view tx' ∙ kept)
          | inl (s, h) ↦ elim (Bool-cases (float.lt (float.add s.score add_score) float.zero)) [
            | inl neg ↦
                rw
                  (b, h, neg, add_student_score_with_pessimistic_lock, get_student_by_id_for_update)
                  (sessions.rollback_view tx' ∙ kept)
            | inr fine ↦
                (let s' : Student S = record s { score = float.add s.score add_score } in
                  let f = students.first_student_ok id tx s h in
                  let (there, live) = find-any (live_with_id id) (view tx).students s f in
                  let same = live_with_id-id id s live in
                  let ends : PessimisticEnds id add_score (view db)
                      (save_and_commit float gorm s' tx') =
                    saved-ends id add_score s (view db) (view tx') (saved tx')
                      (save_and_commit float gorm s' tx')
                      (subst (λ t. find (live_with_id id) t.students ≡ some s)
                        (sessions.begin_view db) f)
                      fine seen kept
                      (save_and_commit_ends s' tx'
                        (subst (λ i. live_with_id i s ≡ true) (sym same) live)
                        (subst (λ t. any (live_with_id s.id) t.students ≡ true)
                          (sym (students.first_student_view id tx))
                          (subst (λ i. any (live_with_id i) (view tx).students ≡ true) (sym same)
                            there))) in
                  rw
                    (
                      b, h, fine, add_student_score_with_pessimistic_lock,
                      get_student_by_id_for_update,
                    )
                    ends)
          ]
        ]
      ]
