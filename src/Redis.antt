-- ===== src/Redis.antt =====
-- The client of go-redis (redis/redis.go keeps it in `Client`): a parameter, with what the code
-- relies on. A text is absent when its time has run out, which any call may find.
pub mod Memory
use student_service.Common.{
  ℕ, ◌≡◌, ◌≢◌, ◌||◌, Bool, true, false, Option, none, String, str_eq, if◌then◌else◌,
}
use student_service.Result.{Error, Result, ok}

-- Times to live are in seconds.
pub record Redis (R : Type 0) : Type 0 where
  -- An error also stands for a key that is absent.
  pub get : String → R → Result String × R
  pub set_nx : String → String → ℕ → R → Result Bool × R
  pub set : String → String → ℕ → R → Option Error × R
  pub del : String → R → Option Error × R
  pub exists : String → R → Result ℕ × R

-- Of the texts whose time has not run out: `held k r` tells whether there is one under a key. A call
-- that reports an error may have been carried out.
pub record RedisLaws {R : Type 0} (redis : Redis R) (held : String → R → Bool) : Type 0 where
  pub set_nx_took :
      (k v : String) (t : ℕ) (r : R)
      → (redis.set_nx k v t r).0 ≡ ok true
      → held k (redis.set_nx k v t r).1 ≡ true
  pub set_nx_free :
      (k v : String) (t : ℕ) (r : R) → (redis.set_nx k v t r).0 ≡ ok true → held k r ≡ false
  pub set_nx_kept :
      (k v : String) (t : ℕ) (r : R) (j : String)
      → held j r ≡ true
      → held j (redis.set_nx k v t r).1 ≡ true
  pub exists_view : (k : String) (r : R) (j : String) → held j (redis.exists k r).1 ≡ held j r
  pub set_took :
      (k v : String) (t : ℕ) (r : R)
      → (redis.set k v t r).0 ≡ none
      → held k (redis.set k v t r).1 ≡ true
  pub set_kept :
      (k v : String) (t : ℕ) (r : R) (j : String)
      → held j r ≡ true
      → held j (redis.set k v t r).1 ≡ true

-- While `fine` holds, the calls of an `EXISTS` and a `SET` answer and `fine` keeps holding, and no
-- time runs out.
pub record RedisAnswers {R : Type 0} (redis : Redis R) (held : String → R → Bool)
    (fine : R → Type 0) : Type 0 where
  pub exists_answers :
      (k : String) (r : R)
      → fine r
      → ((redis.exists k r).0 ≡ ok (if held k r then 1 else 0)) × fine (redis.exists k r).1
  pub set_answers :
      (k v : String) (t : ℕ) (r : R)
      → fine r
      → ((redis.set k v t r).0 ≡ none) × fine (redis.set k v t r).1
  pub set_exact :
      (k v : String) (t : ℕ) (r : R) (j : String)
      → fine r
      → held j (redis.set k v t r).1 ≡ (str_eq j k || held j r)
