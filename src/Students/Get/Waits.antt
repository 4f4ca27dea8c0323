-- ===== src/Students/Get/Waits.antt =====
-- How often `GetStudentByID` has to sleep for the lock.
use student_service.Common.{
  ℕ, zero, suc, ℤ, ◌≡◌, ◌≢◌, refl, ◌⊎◌, inl, inr, Bool, true, false, some, Option-cases,
}
use student_service.Model.{Student}
use student_service.Result.{Result, ok, Result-cases}
use student_service.Env.{Env}
use student_service.Redis.{Redis}
use student_service.Session.{Session}
use student_service.Store.{Gorm}
use student_service.Students.World.{World, cache_key, lock_key}
use student_service.Students.Get.{cached_answer, locked_read, get_student_by_id}
use student_service.Dao

module _ {S Seed Db R : Type 0} (env : Env S Seed) (gorm : Gorm S Db (Session S Seed))
    (redis : Redis R) (others : World S Seed Db R → World S Seed Db R) (id : ℤ) where
  -- A look at the cache and an attempt on the lock.
  abbrev attempt : World S Seed Db R → Result Bool × R
  attempt w = redis.set_nx (lock_key id) "1" 5 (redis.get (cache_key id) w.redis).1

  -- One of the first attempts is not answered by "somebody else has the lock".
  abbrev pub FreeWithin : ℕ → World S Seed Db R → Type 0
  FreeWithin zero w = ⊥
  FreeWithin (suc n) w =
      ((attempt w).0 ≢ ok false) ⊎ FreeWithin n (others (record w { redis = (attempt w).1 }))

  -- Reading a student by its key answers, with a student or an error, as soon as an attempt on the lock
  -- is not refused because somebody else has it: if that is within the first attempts that are
  -- allowed, there is an answer.
  pub get_student_by_id_answers :
      (waits : ℕ) (w : World S Seed Db R)
      → FreeWithin waits w
      → (answer : Result (Student S)) × ((get_student_by_id env gorm redis others waits id w).0
          ≡ some answer)
  unfolding get_student_by_id
  get_student_by_id_answers zero w free = absurd free
  get_student_by_id_answers (suc waits) w free =
      elim (Option-cases (cached_answer env gorm redis (redis.get (cache_key id) w.redis).0)) [
        | inr (found, c) ↦ (found, rw (c, get_student_by_id) refl)
        | inl c ↦ elim (Result-cases (attempt w).0) [
          | inr (x, e) ↦
              ((Dao.get_student_by_id gorm id w.db).0, rw (c, get_student_by_id) (rw e refl))
          | inl (true, e) ↦ (
            (locked_read env gorm redis id (record w { redis = (attempt w).1 })).0,
            rw (c, get_student_by_id) (rw e refl),
          )
          | inl (false, e) ↦ elim free [
            | inl n ↦ absurd (n e)
            | inr later ↦
                let (answer, a) =
                  get_student_by_id_answers waits (others (record w { redis = (attempt w).1 }))
                    later in
                (answer, rw (c, get_student_by_id) (rw e a))
          ]
        ]
      ]
