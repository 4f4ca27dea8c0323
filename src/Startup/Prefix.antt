-- ===== src/Startup/Prefix.antt =====
-- Calls up to the first that fails.
use student_service.Common.{
  ◌≡◌, refl, sym, ap, ◌∙◌, Bool, true, false, Bool-cases, List, [], ◌∷◌, ◌++◌, append-nil, inl, inr,
  any, if◌then◌else◌,
}
use student_service.Startup.{Call}
use student_service.Startup.Plan.{up_to_failure}

module _ (f : Call → Bool) where
  pub up_to_failure-append_true :
      (cs ds : List Call) → any f cs ≡ true → up_to_failure f (cs ++ ds) ≡ up_to_failure f cs
  up_to_failure-append_true [] ds h = absurd (cc)
  up_to_failure-append_true (a ∷ cs) ds h = elim (Bool-cases (f a)) [
    | inl e ↦ rw e refl
    | inr e ↦ rw e (ap (◌∷◌ a) (up_to_failure-append_true cs ds (sym (rw e refl) ∙ h)))
  ]

  pub up_to_failure-append_false :
      (cs ds : List Call) → any f cs ≡ false → up_to_failure f (cs ++ ds) ≡ cs ++ up_to_failure f ds
  up_to_failure-append_false [] ds h = refl
  up_to_failure-append_false (a ∷ cs) ds h = elim (Bool-cases (f a)) [
    | inl e ↦ let k : true ≡ false = sym (rw e refl) ∙ h in absurd (cc)
    | inr e ↦ rw e (ap (◌∷◌ a) (up_to_failure-append_false cs ds (sym (rw e refl) ∙ h)))
  ]

  pub up_to_failure-all : (cs : List Call) → any f cs ≡ false → up_to_failure f cs ≡ cs
  up_to_failure-all cs h =
      ap (up_to_failure f) (sym (append-nil cs))
      ∙ up_to_failure-append_false cs [] h
      ∙ append-nil cs

  pub any-append : (cs ds : List Call) → any f (cs ++ ds) ≡ (if any f cs then true else any f ds)
  any-append [] ds = refl
  any-append (a ∷ cs) ds = elim (Bool-cases (f a)) [
    | inl e ↦ rw e refl
    | inr e ↦ rw e (any-append cs ds)
  ]

  pub any-up_to_failure :
      (p : Call → Bool) (cs : List Call) → any p cs ≡ false → any p (up_to_failure f cs) ≡ false
  any-up_to_failure p [] h = refl
  any-up_to_failure p (a ∷ cs) h = elim (Bool-cases (p a)) [
    | inl e ↦ let k : true ≡ false = sym (rw e refl) ∙ h in absurd (cc)
    | inr e ↦
        let k : any p cs ≡ false = sym (rw e refl) ∙ h in
        elim (Bool-cases (f a)) [
          | inl e' ↦ rw (e, e') refl
          | inr e' ↦ rw (e, e') (any-up_to_failure p cs k)
        ]
  ]
