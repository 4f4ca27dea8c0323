-- ===== src/Redis/Memory.antt =====
-- A redis in memory: texts by key, a script of failures of which each call takes the next (`true` for
-- a refused call), and no expiry.
use student_service.Common.{
  ℕ, ◌≡◌, ◌||◌, refl, ap, arith, inl, inr, Bool-cases, str_eq_refl, Bool, true, false, not, Option,
  none, some, List, [], ◌∷◌, String, str_eq, keep, if◌then◌else◌,
}
use student_service.Result.{Error, ok, err, new_error}
use student_service.Redis.{Redis, RedisLaws, RedisAnswers}

pub record Cache : Type 0 where
  pub texts : List (String × String)
  pub refused : List Bool

abbrev pub lookup : String → List (String × String) → Option String
lookup k [] = none
lookup k ((k', v) ∷ kvs) = if str_eq k k' then some v else lookup k kvs

-- The newest text of a key is in front.
abbrev pub put : String → String → List (String × String) → List (String × String)
put k v kvs = (k, v) ∷ kvs

abbrev pub no_connection : Error
no_connection = new_error "redis: connection refused"

-- Whether the next call is refused, and what is left of the script.
abbrev refusal : Cache → Bool × Cache
refusal c = elim c.refused [ [] ↦ (false, c) | b ∷ bs ↦ (b, record c { refused = bs }) ]

abbrev pub cache : Redis Cache
cache = record {
  get = λ k c.
      let (failed, c') = refusal c in
      (
        if failed
            then err no_connection
            else elim (lookup k c'.texts) [ some v ↦ ok v | none ↦ err (new_error "redis: nil") ],
        c',
      );
  set_nx = λ k v t c.
      let (failed, c') = refusal c in
      if failed then (err no_connection, c') else elim (lookup k c'.texts) [
        | some w ↦ (ok false, c')
        | none ↦ (ok true, record c' { texts = put k v c'.texts })
      ];
  set = λ k v t c.
      let (failed, c') = refusal c in
      if failed then (some no_connection, c') else (none, record c' { texts = put k v c'.texts });
  del = λ k c.
      let (failed, c') = refusal c in
      if failed
      then (some no_connection, c')
      else (none, record c' { texts = keep (λ e. not (str_eq k e.0)) c'.texts });
  exists = λ k c.
      let (failed, c') = refusal c in
      (
        if failed
            then err no_connection
            else ok (elim (lookup k c'.texts) [ some v ↦ 1 | none ↦ 0 ]),
        c',
      );
}

abbrev pub held_in : String → List (String × String) → Bool
held_in k [] = false
held_in k ((k', v) ∷ kvs) = if str_eq k k' then true else held_in k kvs

abbrev pub held : String → Cache → Bool
held k c = held_in k c.texts

lookup-held :
    (k : String) (kvs : List (String × String)) → lookup k kvs ≡ none → held_in k kvs ≡ false
lookup-held k [] h = refl
lookup-held k ((k', v) ∷ kvs) h = ground (arith, lookup-held k kvs)

put-held : (k v : String) (kvs : List (String × String)) → held_in k (put k v kvs) ≡ true
put-held k v kvs = rw (str_eq_refl k) refl

put-kept :
    (j k v : String) (kvs : List (String × String))
    → held_in j kvs ≡ true
    → held_in j (put k v kvs) ≡ true
put-kept j k v kvs h = ground arith

pub cache-RedisLaws : RedisLaws cache held
cache-RedisLaws = record {
  set_nx_took = λ k v t c h. ground (arith, put-held k v c.texts);
  set_nx_free = λ k v t c h. ground (arith, lookup-held k c.texts);
  set_nx_kept = λ k v t c j h. ground (arith, put-kept j k v c.texts);
  exists_view = λ k c j. ground arith;
  set_took = λ k v t c h. ground (arith, put-held k v c.texts);
  set_kept = λ k v t c j h. ground (arith, put-kept j k v c.texts);
}

-- No call is refused.
abbrev pub NoneRefused : Cache → Type 0
NoneRefused c = c.refused ≡ []

found-held :
    (k : String) (kvs : List (String × String))
    → elim (lookup k kvs) as (λ _. ℕ) [ some v ↦ 1 | none ↦ 0 ] ≡ (if held_in k kvs then 1 else 0)
found-held k [] = refl
found-held k ((k', v) ∷ kvs) = elim (Bool-cases (str_eq k k')) [
  | inl e ↦ rw e refl
  | inr e ↦ rw e (found-held k kvs)
]

or_if : (a b : Bool) → (if a then true else b) ≡ (a || b)
or_if true b = refl
or_if false b = refl

pub cache-RedisAnswers : RedisAnswers cache held NoneRefused
cache-RedisAnswers = record {
  exists_answers = λ k c h. rw h (ap ok (found-held k c.texts), refl);
  set_answers = λ k v t c h. rw h (refl, refl);
  set_exact = λ k v t c j h. rw h (or_if (str_eq j k) (held j c));
}
