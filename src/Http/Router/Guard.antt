-- ===== src/Http/Router/Guard.antt =====
-- What a request without the token of the configuration can do.
use student_service.Common.{◌≡◌, ◌⊎◌, Bool, true, not, ◌&&◌, Option, none, some, ℤ, String, str_eq}
use student_service.Model.{Student}
use student_service.Result.{Result}
use student_service.Store.Rows.{Tables}
use student_service.Store.Laws.{StudentLaws, ClassLaws}
use student_service.Students.World.{World}
use student_service.Students.Get
use student_service.Students.Get.Reads.{ReadEnds}
use student_service.Http.{Server, Response, Context}
use student_service.Http.Router.{Route, in_auth_group}
use student_service.Dao

module _ {Q S Seed Db R K L F W : Type 0} (x : Context Q S Seed Db R K L F W)
    (like : String → String → Bool) (is_zero : S → Bool) (view : Db → Tables S)
    (laws : StudentLaws x.gorm like is_zero view) (classes : ClassLaws x.gorm view)
    (quiet : (v : World S Seed Db R) → view (x.others v).db ≡ view v.db) where
  abbrev Answer : Type 0
  Answer = Option (Response S) × Server S Seed Db R K L

  -- The request carries the token of the configuration.
  abbrev pub is_authorised : Q → Bool
  is_authorised q =
      let token = x.gin.get_header x.token_header q in not (str_eq token "") && str_eq token x.token

  -- Neither the tables nor the broker have changed.
  abbrev Harmless : Server S Seed Db R K L → Answer → Type 0
  Harmless s (r, s') = (view s'.world.db ≡ view s.world.db) × (s'.producer_state ≡ s.producer_state)

  pub ReadEnds-view :
      (id : ℤ) (t : Tables S) (r : Option (Result (Student S)) × World S Seed Db R)
      → ReadEnds x.env x.gorm x.redis like is_zero view laws classes id t r
      → view r.1.db ≡ t
  ReadEnds-view id t (none, w) h = h
  ReadEnds-view id t (some a, w) h = h.1

  -- A refusal, which changes nothing but the limiters and the records.
  abbrev RefusedWith : Server S Seed Db R K L → Option (Response S) → World S Seed Db R → K → Type 0
  RefusedWith s none w k = ⊥
  RefusedWith s (some r) w k =
      ((r.code ≡ 401) ⊎ (r.code ≡ 429)) × (w ≡ s.world) × (k ≡ s.producer_state)

  abbrev pub Refused : Server S Seed Db R K L → Answer → Type 0
  Refused s a = RefusedWith s a.0 a.1.world a.1.producer_state

  -- That, of an answer and what the handlers keep.
  abbrev GuardedWith :
      Route → Server S Seed Db R K L → Option (Response S) → World S Seed Db R → K → Type 0
  GuardedWith route s r w k =
      ((view w.db ≡ view s.world.db) × (k ≡ s.producer_state))
      × (in_auth_group route ≡ true → RefusedWith s r w k)

  abbrev Guarded : Route → Server S Seed Db R K L → Answer → Type 0
  Guarded route s a = Harmless s a × (in_auth_group route ≡ true → Refused s a)
