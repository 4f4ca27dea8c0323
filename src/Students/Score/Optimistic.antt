-- ===== src/Students/Score/Optimistic.antt =====
-- Adding to a score by the version column.
use student_service.Common.{
  zero, ℤ, pos, ◌+ℤ◌, ◌≡◌, Bool, true, false, Option, none, some, List, [], ◌∷◌, String, find, any,
  All, int64,
}
use student_service.Model.{Student}
use student_service.Result.{Error}
use student_service.Float.{Float}
use student_service.Store.{Gorm}
use student_service.Store.Rows.{
  Tables, update_where, live_with_id, in_update, id_is, version_is, StudentCond,
}
use student_service.Store.Laws.{StudentLaws}
use student_service.Students.List.Order.{Above}
use student_service.Dao

abbrev pub of_version : ℤ → ℤ → List StudentCond
of_version id version = id_is id ∷ version_is version ∷ []

module _ {S Db Session : Type 0} (float : Float S) (gorm : Gorm S Db Session)
    (like : String → String → Bool) (is_zero : S → Bool) (view : Db → Tables S)
    (laws : StudentLaws gorm like is_zero view) where
  -- One more to the score of a row, and one more to its version.
  abbrev pub scored : S → Student S → Student S
  scored x r = record r { score = float.add r.score x; version = int64 (r.version +ℤ pos 1) }

  abbrev pub is_version : ℤ → ℤ → Student S → Bool
  is_version id version = in_update like (of_version id version)

  -- The other sessions keep the primary keys of the table in order, and whoever changes the score of
  -- the student changes its version.
  abbrev pub Versioned : ℤ → (Db → Db) → Type 0
  Versioned id others =
      (db : Db)
      → Above (pos 0) (view db).students
      → Above (pos 0) (view (others db)).students
        × ((s : Student S)
            → find (live_with_id id) (view db).students ≡ some s
            → All (λ r. is_version id s.version r ≡ true → r.score ≡ s.score)
                (view (others db)).students)

  -- The tables that the last statement met, and what it did to them.
  abbrev pub Landed : ℤ → S → Tables S → Type 0
  Landed id x after =
      (before : Tables S) × (version : ℤ) × (any (is_version id version) before.students ≡ true)
      × All
          (λ r. is_version id version r ≡ true → float.lt (float.add r.score x) float.zero ≡ false)
          before.students
      × (after ≡ record before {
        students = update_where (is_version id version) (scored x) before.students;
      })

  abbrev Ends : ℤ → S → Option Error × Db → Type 0
  Ends id x (none, db) = Landed id x (view db)
  Ends id x (some e, db) = Unit
