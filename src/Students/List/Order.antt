-- ===== src/Students/List/Order.antt =====
-- Students in the order of the primary key, and what a cursor leaves of them.
use student_service.Common.{
  ℕ, zero, suc, ℤ, ◌<ℤ◌, ◌≤ℤ◌, ltb_ℤ, ◌≡◌, refl, Bool, ◌&&◌, List, [], ◌∷◌, take, drop, keep, map,
  last_or, arith,
}
use student_service.Model.{Student}

module _ {S : Type 0} where
  -- Keys rise along the list, from above `i`.
  abbrev pub Above : ℤ → List (Student S) → Type 0
  Above i [] = Unit
  Above i (s ∷ ss) = (i <ℤ s.id) × Above s.id ss

  pub Above-mono : (i j : ℤ) (ss : List (Student S)) → i ≤ℤ j → Above j ss → Above i ss
  Above-mono i j [] h a = tt
  Above-mono i j (s ∷ ss) h a = (omega arith, a.1)

  pub Above-keep :
      (p : Student S → Bool) (i : ℤ) (ss : List (Student S)) → Above i ss → Above i (keep p ss)
  Above-keep p i [] a = tt
  Above-keep p i (s ∷ ss) a =
      ground (arith, Above-keep p s.id ss a.1, Above-mono i s.id (keep p ss))

  abbrev pub last_id : ℤ → List (Student S) → ℤ
  last_id i ss = last_or i (map (λ s. s.id) ss)

  abbrev pub is_after : ℤ → Student S → Bool
  is_after i s = ltb_ℤ i s.id

  pub keep_after_all :
      (i j : ℤ) (ss : List (Student S)) → Above j ss → i ≤ℤ j → keep (is_after i) ss ≡ ss
  keep_after_all i j [] a h = refl
  keep_after_all i j (s ∷ ss) a h = ground (arith, keep_after_all i s.id ss a.1)

  pub last_id-ge : (n : ℕ) (i : ℤ) (ss : List (Student S)) → Above i ss → i ≤ℤ last_id i (take n ss)
  last_id-ge zero i ss a = omega arith
  last_id-ge (suc n) i [] a = omega arith
  last_id-ge (suc n) i (s ∷ ss) a = omega (arith, last_id-ge n s.id ss a.1)

  -- After the key of the last of the first `n`, the others come, in order.
  pub keep_after_last :
      (n : ℕ) (i : ℤ) (ss : List (Student S))
      → Above i ss
      → keep (is_after (last_id i (take n ss))) ss ≡ drop n ss
  keep_after_last zero i ss a = keep_after_all i i ss a (omega arith)
  keep_after_last (suc n) i [] a = refl
  keep_after_last (suc n) i (s ∷ ss) a =
      ground (arith, keep_after_last n s.id ss a.1, last_id-ge n s.id ss a.1)

  pub keep-keep :
      (p q : Student S → Bool) (ss : List (Student S))
      → keep p (keep q ss) ≡ keep (λ s. q s && p s) ss
  keep-keep p q [] = refl
  keep-keep p q (s ∷ ss) = ground (arith, keep-keep p q ss)
