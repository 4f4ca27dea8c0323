-- ===== src/Students/Get.antt =====
-- The cached reads: `GetStudentByID`, `GetStudentByName` and `BatchAddStudents` of
-- service/student_service.go, and service/class_service.go. `others` is what the rest of the system
-- does to redis and to the database while the call sleeps for the lock.
pub mod Reads
pub mod Waits
use student_service.Common.{
  ℕ, zero, suc, ℤ, Bool, true, false, Option, none, some, List, [], ◌∷◌, ◌++◌, String, str_eq,
  text_append, show_int, if◌then◌else◌,
}
use student_service.Model.{Student, Class, Payload, student}
use student_service.Result.{
  Error, Result, ok, err, new_error, is_record_not_found, is_deadline_exceeded,
}
use student_service.Env.{Env}
use student_service.Redis.{Redis}
use student_service.Session.{Session}
use student_service.Store.{Gorm}
use student_service.Students.World.{
  World, cache_set, get_random_expire, cache_key, lock_key, text_of, publish_student_event,
}
use student_service.Dao

abbrev pub class_cache_prefix : String
class_cache_prefix = "class:info:"

abbrev pub class_cache_key : ℤ → String
class_cache_key id = text_append class_cache_prefix (show_int id)

module _ {S Seed Db R : Type 0} (env : Env S Seed) (gorm : Gorm S Db (Session S Seed))
    (redis : Redis R) where
  -- What `GetClassByID` does when the cache has no class that it can read. A time to live is random
  -- between half an hour and five minutes more; the mark for a missing class stays for two minutes.
  unfoldable pub load_class : ℤ → World S Seed Db R → Result Class × World S Seed Db R
  load_class class_id w =
      let (found, db) = Dao.get_class_by_id gorm class_id w.db in
      let key = class_cache_key class_id in
      let w' = record w { db = db } in
      elim found [
        | ok class_ ↦ (
          ok class_,
          record w' {
            jobs =
                w'.jobs
                ++ cache_set key (text_of (env.json.marshal_class class_)) (get_random_expire 1800)
                  ∷ [];
          },
        )
        | err e ↦
            if is_record_not_found e
            then (
              err (new_error "班级不存在"),
              record w' { jobs = w'.jobs ++ cache_set key "nil" (120, 120) ∷ [] },
            )
            else (err (new_error "班级查询失败"), w')
      ]

  -- `GetClassByID` of service/class_service.go.
  unfoldable pub get_class_by_id : ℤ → World S Seed Db R → Result Class × World S Seed Db R
  get_class_by_id class_id w =
      let (cached, r) = redis.get (class_cache_key class_id) w.redis in
      let w' = record w { redis = r } in
      let loaded = load_class class_id w' in
      elim cached [
        | err e ↦ loaded
        | ok cache_data ↦
            if str_eq cache_data "nil"
            then (err (new_error "班级不存在"), w')
            else elim (env.json.unmarshal_class cache_data) [
              | ok class_ ↦ (ok class_, w')
              | err e ↦ loaded
            ]
      ]

  -- The student with its class, if that can be got.
  abbrev pub with_class : Student S → Result Class → Student S
  with_class s (ok c) = record s { class = some c }
  with_class s (err e) = s

  -- What the holder of the lock does when the cache has no student that it can read.
  unfoldable pub load_student : ℤ → World S Seed Db R → Result (Student S) × World S Seed Db R
  load_student id w =
      let (found, db) = Dao.get_student_by_id gorm id w.db in
      let w' = record w { db = db } in
      elim found [
        | err e ↦ (err (new_error (if is_deadline_exceeded e then "查询学生数据超时" else "查询失败")), w')
        | ok s ↦
            let cache_job =
              cache_set (cache_key id) (text_of (env.json.marshal_student s))
                (get_random_expire 600) in
            let (class_, w'') =
              get_class_by_id s.class_id (record w' { jobs = w'.jobs ++ cache_job ∷ [] }) in
            let s' = with_class s class_ in
            (ok s', publish_student_event env "get" s'.id (student s') w'')
      ]

  -- The deferred `Del` of the lock.
  abbrev pub unlock : ℤ → World S Seed Db R → World S Seed Db R
  unlock id w = record w { redis = (redis.del (lock_key id) w.redis).1 }

  -- `GetStudentByID` after the lock was taken: the cache once more, and then the database.
  unfoldable pub locked_read : ℤ → World S Seed Db R → Result (Student S) × World S Seed Db R
  locked_read id w =
      let (cached, r) = redis.get (cache_key id) w.redis in
      let w' = record w { redis = r } in
      let (answer, w'') = load_student id w' in
      elim cached [
        | err e ↦ (answer, unlock id w'')
        | ok cache_data ↦ elim (env.json.unmarshal_student cache_data) [
          | ok s ↦ (ok s, unlock id w')
          | err e ↦ (answer, unlock id w'')
        ]
      ]

  -- What the first look at the cache gives, if it gives anything.
  abbrev pub cached_answer : Result String → Option (Result (Student S))
  cached_answer (err e) = none
  cached_answer (ok cache_data) =
      if str_eq cache_data "nil"
      then some (err (new_error "redis缓存:学生不存在"))
      else elim (env.json.unmarshal_student cache_data) [ ok s ↦ some (ok s) | err e ↦ none ]

  -- `GetStudentByID`. `waits` bounds how often it may sleep for the lock; the code has no bound, and
  -- there is no answer while the bound is too small.
  unfoldable pub get_student_by_id :
      (World S Seed Db R → World S Seed Db R)
      → ℕ
      → ℤ
      → World S Seed Db R
      → Option (Result (Student S)) × World S Seed Db R
  get_student_by_id others zero id w = (none, w)
  get_student_by_id others (suc waits) id w =
      let (cached, r) = redis.get (cache_key id) w.redis in
      let (taken, r') = redis.set_nx (lock_key id) "1" 5 r in
      let w' = record w { redis = r' } in
      let (direct, db) = Dao.get_student_by_id gorm id w.db in
      let (answer, w'') = locked_read id w' in
      let again = get_student_by_id others waits id (others w') in
      elim (cached_answer cached) as (λ _. Option (Result (Student S)) × World S Seed Db R) [
        | some found ↦ (some found, record w { redis = r })
        | none ↦ elim taken as (λ _. Option (Result (Student S)) × World S Seed Db R) [
          | err e ↦ (some direct, record w' { db = db })
          | ok mine ↦ if mine then (some answer, w'') else again
        ]
      ]

  unfoldable pub get_student_by_name :
      String → World S Seed Db R → Result (List (Student S)) × World S Seed Db R
  get_student_by_name name w =
      let (r, db) = Dao.get_student_by_name gorm name w.db in
      if str_eq name "" then (err (new_error "搜索关键词不能为空"), w) else (r, record w { db = db })

  -- `BatchAddStudents`, all in one transaction.
  unfoldable pub batch_add_students :
      List (Student S) → World S Seed Db R → Option Error × World S Seed Db R
  batch_add_students students w =
      let body : Session S Seed → Db → Option Error × Session S Seed × Db = λ s tx.
        let (r, tx') = Dao.batch_create_student gorm students tx in
        (elim r [ err e ↦ some e | ok created ↦ none ], s, tx') in
      let (failed, s, db) = gorm.transaction body w.session w.db in
      (failed, record w { session = s; db = db })
