-- ===== src/Students/Get/Reads.antt =====
-- Where the answers of `GetStudentByID` come from.
use student_service.Common.{
  ℕ, zero, suc, ℤ, ◌≡◌, refl, ◌∙◌, ap, subst, ◌⊎◌, inl, inr, Bool, true, false, Option, none, some,
  [], ◌∷◌, ◌++◌, String, str_eq, find, Bool-cases,
}
use student_service.Model.{Student, Class, student}
use student_service.Result.{Error, Result, ok, err, Result-cases, is_record_not_found, new_error}
use student_service.Env.{Env}
use student_service.Redis.{Redis}
use student_service.Session.{Session}
use student_service.Store.{Gorm}
use student_service.Store.Rows.{Tables, live_with_id}
use student_service.Store.Laws.{StudentLaws, ClassLaws}
use student_service.Students.World.{
  World, cache_set, get_random_expire, text_of, cache_key, lock_key, publish_student_event-db,
}
use student_service.Students.Get.{
  load_class, get_class_by_id, class_cache_key, with_class, load_student, locked_read,
  cached_answer, get_student_by_id,
}
use student_service.Dao

module _ {S Seed Db R : Type 0} (env : Env S Seed) (gorm : Gorm S Db (Session S Seed))
    (redis : Redis R) (like : String → String → Bool) (is_zero : S → Bool) (view : Db → Tables S)
    (laws : StudentLaws gorm like is_zero view) (classes : ClassLaws gorm view) where
  -- Decoded from a text that redis gave for the key of the student.
  abbrev pub FromCache : ℤ → Student S → Type 0
  FromCache id s =
      (r : R) × (text : String) × ((redis.get (cache_key id) r).0 ≡ ok text)
      × (env.json.unmarshal_student text ≡ ok s)

  -- The live row, as it is or with a class.
  abbrev pub FromTable : ℤ → Tables S → Student S → Type 0
  FromTable id t s =
      (row : Student S) × (find (live_with_id id) t.students ≡ some row)
      × ((s ≡ row) ⊎ ((class_ : Class) × (s ≡ record row { class = some class_ })))

  abbrev pub Answers : ℤ → Tables S → Result (Student S) → Type 0
  Answers id t (ok s) = FromCache id s ⊎ FromTable id t s
  Answers id t (err e) = Unit

  load_class-view :
      (id : ℤ) (w : World S Seed Db R) → view (load_class env gorm redis id w).1.db ≡ view w.db
  unfolding load_class Dao.get_class_by_id
  load_class-view id w = elim (Result-cases (gorm.first_class id w.db).0) [
    | inl (c, e) ↦ rw (e, load_class) (classes.first_class_view id w.db)
    | inr (x, e) ↦ elim (Bool-cases (is_record_not_found x)) [
      | inl f ↦ rw (e, load_class) (rw f (classes.first_class_view id w.db))
      | inr f ↦ rw (e, load_class) (rw f (classes.first_class_view id w.db))
    ]
  ]

  get_class_by_id-view :
      (id : ℤ) (w : World S Seed Db R) → view (get_class_by_id env gorm redis id w).1.db ≡ view w.db
  unfolding get_class_by_id
  get_class_by_id-view id w =
      let (cached, r) = redis.get (class_cache_key id) w.redis in
      let w' : World S Seed Db R = record w { redis = r } in
      elim (Result-cases (redis.get (class_cache_key id) w.redis).0) [
        | inr (x, e) ↦ rw (e, get_class_by_id) (load_class-view id w')
        | inl (text, e) ↦ elim (Bool-cases (str_eq text "nil")) [
          | inl n ↦ rw (e, get_class_by_id) (rw n refl)
          | inr n ↦ elim (Result-cases (env.json.unmarshal_class text)) [
            | inl (c, u) ↦ rw (e, get_class_by_id) (rw (n, u) refl)
            | inr (x, u) ↦ rw (e, get_class_by_id) (rw (n, u) (load_class-view id w'))
          ]
        ]
      ]

  with_class-from :
      (s : Student S) (r : Result Class)
      → (with_class env gorm redis s r ≡ s)
        ⊎ ((c : Class) × (with_class env gorm redis s r ≡ record s { class = some c }))
  with_class-from s (ok c) = inr (c, refl)
  with_class-from s (err e) = inl refl

  -- How reading from the table ends.
  abbrev Loaded : ℤ → Tables S → Result (Student S) × World S Seed Db R → Type 0
  Loaded id t (r, w) = Answers id t r × (view w.db ≡ t)

  load_student-Loaded :
      (id : ℤ) (w : World S Seed Db R) → Loaded id (view w.db) (load_student env gorm redis id w)
  unfolding load_student Dao.get_student_by_id
  load_student-Loaded id w = elim (Result-cases (gorm.first_student id w.db).0) [
    | inr (x, e) ↦ rw (e, load_student) (tt, laws.first_student_view id w.db)
    | inl (s, e) ↦
        let w' : World S Seed Db R = record w { db = (gorm.first_student id w.db).1 } in
        let job =
          cache_set (cache_key id) (text_of (env.json.marshal_student s)) (get_random_expire 600) in
        let read =
          get_class_by_id env gorm redis s.class_id (record w' { jobs = w'.jobs ++ job ∷ [] }) in
        let s' = with_class env gorm redis s read.0 in
        rw (e, load_student)
          (
            inr (s, laws.first_student_ok id w.db s e, with_class-from s read.0),
            ap view (publish_student_event-db env "get" s'.id (student s') read.1)
                ∙ get_class_by_id-view s.class_id _
                ∙ laws.first_student_view id w.db,
          )
  ]

  locked_read-Loaded :
      (id : ℤ) (w : World S Seed Db R) → Loaded id (view w.db) (locked_read env gorm redis id w)
  unfolding locked_read
  locked_read-Loaded id w =
      let w' : World S Seed Db R = record w { redis = (redis.get (cache_key id) w.redis).1 } in
      elim (Result-cases (redis.get (cache_key id) w.redis).0) [
        | inr (x, e) ↦ rw (e, locked_read) (load_student-Loaded id w')
        | inl (text, e) ↦ elim (Result-cases (env.json.unmarshal_student text)) [
          | inl (s, u) ↦ rw (e, locked_read) (rw u (inl (w.redis, text, e, u), refl))
          | inr (x, u) ↦ rw (e, locked_read) (rw u (load_student-Loaded id w'))
        ]
      ]

  -- What the first look at the cache may answer.
  cached_answer-cases :
      (c : Result String)
      → (cached_answer env gorm redis c ≡ none)
        ⊎ ((e : Error) × (cached_answer env gorm redis c ≡ some (err e)))
        ⊎ ((text : String) × (s : Student S) × (c ≡ ok text)
            × (env.json.unmarshal_student text ≡ ok s)
            × (cached_answer env gorm redis c ≡ some (ok s)))
  cached_answer-cases (err e) = inl refl
  cached_answer-cases (ok text) = elim (Bool-cases (str_eq text "nil")) [
    | inl n ↦ inr (inl (new_error "redis缓存:学生不存在", rw n refl))
    | inr n ↦ elim (Result-cases (env.json.unmarshal_student text)) [
      | inl (s, u) ↦ inr (inr (text, s, refl, u, rw (n, u) refl))
      | inr (x, u) ↦ inl (rw (n, u) refl)
    ]
  ]

  direct-Answers : (id : ℤ) (db : Db) → Answers id (view db) (gorm.first_student id db).0
  direct-Answers id db = elim (Result-cases (gorm.first_student id db).0) [
    | inl (s, e) ↦ rw e (inr (s, laws.first_student_ok id db s e, inl refl))
    | inr (x, e) ↦ rw e tt
  ]

  abbrev pub ReadEnds : ℤ → Tables S → Option (Result (Student S)) × World S Seed Db R → Type 0
  ReadEnds id t (none, w) = view w.db ≡ t
  ReadEnds id t (some r, w) = Answers id t r × (view w.db ≡ t)

  -- While nobody else changes the tables, reading a student by its key leaves them as they are, and a
  -- student that it returns is decoded from a text that redis gave for the key, or it is the live
  -- student with the key, with a class or without.
  pub get_student_by_id_reads :
      (others : World S Seed Db R → World S Seed Db R) (waits : ℕ) (id : ℤ) (w : World S Seed Db R)
      → ((v : World S Seed Db R) → view (others v).db ≡ view v.db)
      → ReadEnds id (view w.db) (get_student_by_id env gorm redis others waits id w)
  unfolding get_student_by_id Dao.get_student_by_id
  get_student_by_id_reads others zero id w quiet = refl
  get_student_by_id_reads others (suc waits) id w quiet =
      let cached = redis.get (cache_key id) w.redis in
      let taken = redis.set_nx (lock_key id) "1" 5 cached.1 in
      let w' : World S Seed Db R = record w { redis = taken.1 } in
      elim (cached_answer-cases cached.0) [
        | inr (inl (e, c)) ↦ rw (c, get_student_by_id) (tt, refl)
        | inr (inr (text, s, t, u, c)) ↦ rw (c, get_student_by_id) (inl (w.redis, text, t, u), refl)
        | inl c ↦ elim (Result-cases taken.0) [
          | inr (x, e) ↦
              rw (c, get_student_by_id)
                (rw e (direct-Answers id w.db, laws.first_student_view id w.db))
          | inl (true, e) ↦ rw (c, get_student_by_id) (rw e (locked_read-Loaded id w'))
          | inl (false, e) ↦
              rw (c, get_student_by_id)
                (rw e (
                  subst
                    (λ t.
                      ReadEnds id t (get_student_by_id env gorm redis others waits id (others w')))
                    (quiet w') (get_student_by_id_reads others waits id (others w') quiet)))
        ]
      ]
