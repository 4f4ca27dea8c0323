-- ===== src/Outbox/Backoff.antt =====
-- dao/local_message.go: the backoff of a message, computed in 64 bits.
use native.Mathlib.Nat.{pow-le-pow_right, pow-suc}
use student_service.Common.{
  ℕ, zero, suc, ◌-◌, ◌*◌, ◌^◌, ◌≤◌, ◌≡◌, refl, sym, ap, ◌∙◌, pos, int64, int64_exact, arith,
}
use student_service.Outbox.{backoff, second, times_second}

-- Five seconds, doubled at each further failure.
abbrev pub waited : ℕ → ℕ
waited zero = 0
waited (suc zero) = 5 * second
waited (suc (suc n)) = 2 * waited (suc n)

waited-pow : (n : ℕ) → waited (suc n) ≡ 5 * 2 ^ n * second
waited-pow zero = refl
waited-pow (suc n) = omega (arith, waited-pow n, pow-suc 2 n)

-- The backoff of the first 31 failures is five seconds, doubled at each further failure: nothing
-- overflows.
pub backoff-waited : (n : ℕ) → 1 ≤ n → n ≤ 31 → backoff (pos n) ≡ pos (waited n)
unfolding backoff
backoff-waited zero h k = absurd (omega arith)
backoff-waited (suc n) h k =
    let bound : 2 ^ n ≤ 2 ^ 30 = pow-le-pow_right (omega arith) {i = n} {j = 30} (omega arith) in
    let less : suc n - 1 ≡ n = omega arith in
    let shifted : int64 (pos (5 * 2 ^ n)) ≡ pos (5 * 2 ^ n) =
      int64_exact (pos (5 * 2 ^ n)) (omega (arith, bound)) (omega arith) in
    let scaled : int64 (pos (5 * 2 ^ n * second)) ≡ pos (5 * 2 ^ n * second) =
      int64_exact (pos (5 * 2 ^ n * second)) (omega (arith, bound)) (omega arith) in
    ap (λ m. times_second (int64 (pos (5 * 2 ^ m)))) less
    ∙ ap times_second shifted
    ∙ scaled
    ∙ ap pos (sym (waited-pow n))
