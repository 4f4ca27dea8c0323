-- ===== src/Http/Router/Limits.antt =====
-- middleware/ratelimit.go: the limiters of several addresses in one map.
use student_service.Common.{
  ℕ, ◌≡◌, refl, sym, ◌∙◌, ap, ap₂, inl, inr, Bool, true, false, Bool-cases, List, [], ◌∷◌, String,
  str_eq, str_eq_iff, str_eq_refl, if◌then◌else◌,
}
use student_service.Http.Router.{limited}

differs :
    (ip ip' other : String)
    → str_eq ip ip' ≡ false
    → str_eq other ip' ≡ true
    → str_eq other ip ≡ false
differs ip ip' other e g = elim (Bool-cases (str_eq other ip)) [
  | inr f ↦ f
  | inl f ↦
      let one : ip ≡ ip' = sym ((str_eq_iff other ip).0 f) ∙ (str_eq_iff other ip').0 g in
      let same : str_eq ip ip' ≡ true = ap (str_eq ip) (sym one) ∙ str_eq_refl ip in absurd (cc)
]

module _ {L : Type 0} (new_limiter : L) where
  -- The limiter of an address.
  abbrev pub limiter_of : String → List (String × L) → L
  limiter_of ip [] = new_limiter
  limiter_of ip ((ip', l) ∷ ls) = if str_eq ip ip' then l else limiter_of ip ls

  -- The limiters of an address and of another after a request.
  limiter_of-limited :
      (a : L → Bool × L) (ip other : String) (ls : List (String × L))
      → limiter_of other (limited new_limiter a ip ls).1
        ≡ (if str_eq other ip then (a (limiter_of ip ls)).1 else limiter_of other ls)
  unfolding limited
  limiter_of-limited a ip other [] = refl
  limiter_of-limited a ip other ((ip', l) ∷ ls) = elim (Bool-cases (str_eq ip ip')) [
    | inl e ↦
        let same : str_eq other ip' ≡ str_eq other ip =
          ap (str_eq other) (sym ((str_eq_iff ip ip').0 e)) in
        elim (Bool-cases (str_eq other ip)) [
          | inl f ↦ rw (e, limited, same ∙ f, f) refl
          | inr f ↦ rw (e, limited, same ∙ f, f) refl
        ]
    | inr e ↦ elim (Bool-cases (str_eq other ip')) [
      | inl g ↦ rw (e, limited, g, differs ip ip' other e g) refl
      | inr g ↦ rw (e, limited, g) (limiter_of-limited a ip other ls)
    ]
  ]

  limited-limiter_of :
      (a : L → Bool × L) (ip : String) (ls : List (String × L))
      → (limited new_limiter a ip ls).0 ≡ (a (limiter_of ip ls)).0
  unfolding limited
  limited-limiter_of a ip [] = refl
  limited-limiter_of a ip ((ip', l) ∷ ls) = elim (Bool-cases (str_eq ip ip')) [
    | inl e ↦ rw (e, limited) refl
    | inr e ↦ rw (e, limited) (limited-limiter_of a ip ls)
  ]

  module _ (allow : ℕ → L → Bool × L) where
    -- The answers to the requests of an address among others; a request has its time and its address.
    abbrev pub answers_to : String → List (ℕ × String) → List (String × L) → List Bool
    answers_to ip [] ls = []
    answers_to ip ((now, from) ∷ requests) ls =
        let (allowed, ls') = limited new_limiter (allow now) from ls in
        let rest = answers_to ip requests ls' in if str_eq ip from then allowed ∷ rest else rest

    -- The answers of one limiter at some times.
    abbrev pub answers_alone : List ℕ → L → List Bool
    answers_alone [] l = []
    answers_alone (now ∷ times) l = (allow now l).0 ∷ answers_alone times (allow now l).1

    -- When an address sends its requests.
    abbrev pub times_of : String → List (ℕ × String) → List ℕ
    times_of ip [] = []
    times_of ip ((now, from) ∷ requests) =
        if str_eq ip from then now ∷ times_of ip requests else times_of ip requests

    -- Whatever other addresses send in between, the requests of an address are answered as by a limiter
    -- of its own, which is new at its first request.
    pub answers_to-alone :
        (ip : String) (requests : List (ℕ × String)) (ls : List (String × L))
        → answers_to ip requests ls ≡ answers_alone (times_of ip requests) (limiter_of ip ls)
    answers_to-alone ip [] ls = refl
    answers_to-alone ip ((now, from) ∷ requests) ls =
        let next = limiter_of-limited (allow now) from ip ls in
        let rest = answers_to-alone ip requests (limited new_limiter (allow now) from ls).1 in
        elim (Bool-cases (str_eq ip from)) [
          | inl e ↦
              let one : ip ≡ from = (str_eq_iff ip from).0 e in
              let own : limiter_of from ls ≡ limiter_of ip ls =
                ap (λ i. limiter_of i ls) (sym one) in
              let after : limiter_of ip (limited new_limiter (allow now) from ls).1
                  ≡ (allow now (limiter_of ip ls)).1 =
                next ∙ rw e (ap (λ l. (allow now l).1) own) in
              rw e (
                ap₂ (λ b bs. b ∷ bs)
                  (limited-limiter_of (allow now) from ls ∙ ap (λ l. (allow now l).0) own)
                  (rest ∙ ap (answers_alone (times_of ip requests)) after))
          | inr e ↦ rw e (rest ∙ ap (answers_alone (times_of ip requests)) (next ∙ rw e refl))
        ]
