-- ===== src/Result.antt =====
-- Go's pair of a value and an `error`. An error is its text and the sentinel that `errors.Is`
-- finds in its chain, if one of those that the code asks for.
use student_service.Common.{◌≡◌, refl, ◌⊎◌, inl, inr, Bool, true, false, String}

pub data ErrorKind : Type 0 where
  record_not_found deadline_exceeded duplicated_key open_state other : ErrorKind

pub record Error : Type 0 where
  pub kind : ErrorKind
  pub text : String

-- `errors.New(text)`.
abbrev pub new_error : String → Error
new_error t = record { kind = ErrorKind.other; text = t }

abbrev pub is_record_not_found : Error → Bool
is_record_not_found e = elim e.kind [ ErrorKind.record_not_found ↦ true | _ ↦ false ]

abbrev pub is_deadline_exceeded : Error → Bool
is_deadline_exceeded e = elim e.kind [ ErrorKind.deadline_exceeded ↦ true | _ ↦ false ]

abbrev pub is_duplicated_key : Error → Bool
is_duplicated_key e = elim e.kind [ ErrorKind.duplicated_key ↦ true | _ ↦ false ]

pub data Result {ℓ} (A : Type ℓ) : Type ℓ where
  ok : A → Result A
  err : Error → Result A

pub Result-cases {ℓ} :
    {A : Type ℓ} (r : Result A) → ((a : A) × (r ≡ ok a)) ⊎ ((e : Error) × (r ≡ err e))
Result-cases (ok a) = inl (a, refl)
Result-cases (err e) = inr (e, refl)
