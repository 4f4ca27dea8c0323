-- ===== src/Http/Router/Handled.antt =====
-- controller/student_controller.go: what holds of the answer of a handler.
use student_service.Common.{ℕ, ◌≡◌, Bool, false, List, String}
use student_service.Store.Rows.{Tables}
use student_service.Store.Laws.{StudentLaws, ClassLaws, MessageLaws, TransactionLaws, SessionLaws}
use student_service.Students.World.{World}
use student_service.Http.{Server, Context}
use student_service.Http.Observed.{Answer}
use student_service.Http.Router.Statuses.{is_success, Statuses}

module _ {Q S Seed Db R K L F W : Type 0} (x : Context Q S Seed Db R K L F W)
    (like : String → String → Bool) (is_zero : S → Bool) (view saved : Db → Tables S)
    (messages : MessageLaws x.gorm view) (students : StudentLaws x.gorm like is_zero view)
    (classes : ClassLaws x.gorm view) (transactions : TransactionLaws x.gorm view)
    (sessions : SessionLaws x.gorm view saved)
    (quiet : (v : World S Seed Db R) → view (x.others v).db ≡ view v.db) where
  -- An answer without success has changed no table.
  abbrev pub Kept : Server S Seed Db R K L → Answer x → Type 0
  Kept s a = is_success a.0 ≡ false → view a.1.world.db ≡ view s.world.db

  abbrev pub Handled : List ℕ → Server S Seed Db R K L → Answer x → Type 0
  Handled codes s a = Statuses x codes s a × Kept s a
