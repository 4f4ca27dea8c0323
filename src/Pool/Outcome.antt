-- ===== src/Pool/Outcome.antt =====
-- utils/pool.go: what holds of a pool after an action, if the action can be done.
use student_service.Common.{
  ℕ, ◌≡◌, refl, subst, Bool, true, false, Option, none, some, List, if◌then◌else◌,
}
use student_service.Pool.{Pool}

abbrev pub Holds : (Pool → Type 0) → Option Pool → Type 0
Holds P none = Unit
Holds P (some p) = P p

module _ (P : Pool → Type 0) where
  pub Holds-if :
      (b : Bool) (x y : Option Pool)
      → (b ≡ true → Holds P x)
      → (b ≡ false → Holds P y)
      → Holds P (if b then x else y)
  Holds-if true x y f g = f refl
  Holds-if false x y f g = g refl

  pub Holds-some :
      (o : Option (List ℕ)) (f : List ℕ → Option Pool)
      → ((l : List ℕ) → o ≡ some l → Holds P (f l))
      → Holds P (elim o as (λ _. Option Pool) [ none ↦ none | some l ↦ f l ])
  Holds-some none f h = tt
  Holds-some (some l) f h = h l refl

  pub Holds-of : (p : Pool) (o : Option Pool) → o ≡ some p → Holds P o → P p
  Holds-of p o e k = subst (Holds P) e k

pub Holds-then :
    (P Q : Pool → Type 0) (o : Option Pool) (f : Pool → Option Pool)
    → Holds P o
    → ((p : Pool) → P p → Holds Q (f p))
    → Holds Q (elim o as (λ _. Option Pool) [ none ↦ none | some p ↦ f p ])
Holds-then P Q none f k h = tt
Holds-then P Q (some p) f k h = h p k

pub Holds-mono :
    (P Q : Pool → Type 0) (o : Option Pool) → ((p : Pool) → P p → Q p) → Holds P o → Holds Q o
Holds-mono P Q none f h = tt
Holds-mono P Q (some p) f h = f p h

pub Holds-both :
    (P Q : Pool → Type 0) (o : Option Pool) → Holds P o → Holds Q o → Holds (λ p. P p × Q p) o
Holds-both P Q none h k = tt
Holds-both P Q (some p) h k = (h, k)
