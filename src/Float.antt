-- ===== src/Float.antt =====
-- Go's float64, the type of a score. antt has no floating point, so it is a parameter: the
-- operations and tests that the code makes, with no law assumed of them but what a theorem names.
use student_service.Common.{Bool, Option, String}

pub record Float (S : Type 0) : Type 0 where
  pub zero : S
  pub hundred : S
  pub add : S → S → S
  -- `<`, `<=` and `>=` are false at NaN.
  pub lt : S → S → Bool
  pub le : S → S → Bool
  -- The zero value of the type, which `Updates` skips.
  pub is_zero : S → Bool
  -- `strconv.ParseFloat(text, 64)`, `none` for an error.
  pub parse : String → Option S
