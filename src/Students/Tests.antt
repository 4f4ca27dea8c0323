-- ===== src/Students/Tests.antt =====
-- The writes and the cached read on concrete tables.
use student_service.Common.{ℕ, ℤ, pos, ◌≡◌, ◌≢◌, refl, arith, some, [], ◌∷◌, inl, inr}
use student_service.Common.{show_int}
use student_service.Result.{Result}
use student_service.Model.{Student}
use student_service.Store.Memory.{Memory}
use student_service.Store.Memory.Meets.{
  view, memory-MessageLaws, memory-ClassLaws, memory-StudentLaws, memory-TransactionLaws,
}
use student_service.Session.{Session}
use student_service.Redis.Memory.{Cache, cache}
use student_service.Students.World.{World, cache_key, lock_key}
use student_service.Students.Keys.{keys_apart}
use student_service.Fixture.{cents, env, exact, gorm, school, named, world}
use student_service.Students.Write.{delete_student}
use student_service.Students.Write.Atomic.{DeleteEnds, delete_student_ends}
use student_service.Students.Get.{get_student_by_id}
use student_service.Students.Get.Waits.{FreeWithin, get_student_by_id_answers}
use student_service.Students.Get.Reads.{ReadEnds, get_student_by_id_reads}

abbrev new_student : Student ℤ
new_student = record (named "eve") { score = pos 6000 }

delete_student_ends_example :
    let (r, w') = delete_student env gorm cache (pos 1) world in
    DeleteEnds env gorm cache exact cents.is_zero view
      (memory-MessageLaws (Session ℤ ℕ) exact cents.is_zero)
      (memory-StudentLaws (Session ℤ ℕ) exact cents.is_zero)
      (memory-TransactionLaws (Session ℤ ℕ) exact cents.is_zero)
      (pos 1)
      school
      (view w'.db)
      r
delete_student_ends_example =
    delete_student_ends env gorm cache exact cents.is_zero view
      (memory-MessageLaws (Session ℤ ℕ) exact cents.is_zero)
      (memory-StudentLaws (Session ℤ ℕ) exact cents.is_zero)
      (memory-TransactionLaws (Session ℤ ℕ) exact cents.is_zero) (pos 1) world

get_student_by_id_reads_example :
    ReadEnds env gorm cache exact cents.is_zero view
      (memory-StudentLaws (Session ℤ ℕ) exact cents.is_zero)
      (memory-ClassLaws (Session ℤ ℕ) exact cents.is_zero)
      (pos 1)
      school
      (get_student_by_id env gorm cache (λ v. v) 3 (pos 1) world)
get_student_by_id_reads_example =
    get_student_by_id_reads env gorm cache exact cents.is_zero view
      (memory-StudentLaws (Session ℤ ℕ) exact cents.is_zero)
      (memory-ClassLaws (Session ℤ ℕ) exact cents.is_zero) (λ v. v) 3 (pos 1) world (λ v. refl)

-- Somebody has the lock, and gives it back during the first sleep.
abbrev locked : World ℤ ℕ (Memory ℤ) Cache
locked = record world { redis = record { texts = ("student:lock:1", "1") ∷ []; refused = [] } }

abbrev unlocking : World ℤ ℕ (Memory ℤ) Cache → World ℤ ℕ (Memory ℤ) Cache
unlocking w = record w { redis = record { texts = []; refused = [] } }

lock_is_free : FreeWithin env gorm cache unlocking (pos 1) 2 locked
unfolding show_int
lock_is_free = inr (inl (λ e. cc))

get_student_by_id_answers_example :
    (answer : Result (Student ℤ)) × ((get_student_by_id env gorm cache unlocking 2 (pos 1) locked).0
      ≡ some answer)
get_student_by_id_answers_example =
    get_student_by_id_answers env gorm cache unlocking (pos 1) 2 locked lock_is_free

keys_apart_example :
    (cache_key (pos 1) ≡ cache_key (pos 11) → pos 1 ≡ pos 11)
    × (lock_key (pos 1) ≡ lock_key (pos 11) → pos 1 ≡ pos 11)
    × (cache_key (pos 1) ≢ lock_key (pos 11))
keys_apart_example =
    keys_apart (pos 1) (pos 11) (omega arith, omega arith) (omega arith, omega arith)
