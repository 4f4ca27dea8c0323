-- ===== src/Store/Rows.antt =====
-- Statements as values, and what they mean on the rows of a table, which are listed by primary key.
use student_service.Common.{
  ℕ, ℤ, pos, negsuc, Bool, true, false, not, ◌&&◌, Option, none, some, List, [], ◌∷◌, ◌++◌, map,
  String, str_eq, take, keep, find, eqb_ℤ, ltb_ℤ, leb, ◌==◌, if◌then◌else◌,
}
use student_service.Model.{Student, Class, LocalMessage, AuditLog}

-- The conditions of the code's `Where` calls.
pub data StudentCond : Type 0 where
  id_is id_after class_is version_is : ℤ → StudentCond
  name_like : String → StudentCond
  is_deleted : StudentCond

-- The fields that an `Updates` call writes. `fields_of` is the form with a struct.
pub data StudentAssign (S : Type 0) : Type 0 where
  fields_of : Student S → StudentAssign S
  score_to : S → StudentAssign S
  version_to : ℤ → StudentAssign S

pub data MessageCond : Type 0 where
  message_is : ℕ → MessageCond
  status_is : ℕ → MessageCond
  due_by : ℕ → MessageCond

pub data MessageAssign : Type 0 where
  status_to : ℕ → MessageAssign
  retry_count_to : ℤ → MessageAssign
  error_msg_to : String → MessageAssign
  next_retry_to : ℕ → MessageAssign
  updated_at_to : ℕ → MessageAssign

-- A query in the making: `Unscoped`, `Preload("Class")`, `Where`, `Order("id ASC")`, `Limit`.
pub record Select (C : Type 0) : Type 0 where
  pub conds : List C
  pub unscoped : Bool
  pub preload_class : Bool
  pub by_id : Bool
  pub limit : Option ℤ

abbrev pub any_row : {C : Type 0} → Select C
any_row = record {
  conds = [];
  unscoped = false;
  preload_class = false;
  by_id = false;
  limit = none;
}

abbrev pub where_cond : {C : Type 0} → C → Select C → Select C
where_cond c q = record q { conds = q.conds ++ (c ∷ []) }

module _ {S : Type 0} where
  abbrev pub is_live : Student S → Bool
  is_live s = elim s.deleted_at [ none ↦ true | some _ ↦ false ]

  -- `like pattern name` is MySQL's `LIKE`.
  abbrev pub student_meets : (String → String → Bool) → StudentCond → Student S → Bool
  student_meets like (id_is i) s = eqb_ℤ s.id i
  student_meets like (id_after i) s = ltb_ℤ i s.id
  student_meets like (class_is i) s = eqb_ℤ s.class_id i
  student_meets like (version_is v) s = eqb_ℤ s.version v
  student_meets like (name_like p) s = like p s.name
  student_meets like is_deleted s = not (is_live s)

abbrev pub message_meets : MessageCond → LocalMessage → Bool
message_meets (message_is i) m = m.id == i
message_meets (status_is n) m = m.status == n
message_meets (due_by t) m = leb m.next_retry t

abbrev pub message_assign : MessageAssign → LocalMessage → LocalMessage
message_assign (status_to n) m = record m { status = n }
message_assign (retry_count_to n) m = record m { retry_count = n }
message_assign (error_msg_to t) m = record m { error_msg = t }
message_assign (next_retry_to t) m = record m { next_retry = t }
message_assign (updated_at_to t) m = record m { updated_at = t }

module _ {A B : Type 0} where
  -- Every condition of a list holds of a row.
  abbrev pub meets_all : (A → B → Bool) → List A → B → Bool
  meets_all meets [] r = true
  meets_all meets (c ∷ cs) r = meets c r && meets_all meets cs r

  abbrev pub assign_all : (A → B → B) → List A → B → B
  assign_all assign [] r = r
  assign_all assign (a ∷ as_) r = assign_all assign as_ (assign a r)

module _ {A : Type 0} where
  -- `UPDATE … WHERE`.
  abbrev pub update_where : (A → Bool) → (A → A) → List A → List A
  update_where p f [] = []
  update_where p f (r ∷ rs) = (if p r then f r else r) ∷ update_where p f rs

  abbrev pub limit_rows : Option ℤ → List A → List A
  limit_rows none rs = rs
  limit_rows (some (pos n)) rs = take n rs
  limit_rows (some (negsuc n)) rs = rs

abbrev pub select_messages : Select MessageCond → List LocalMessage → List LocalMessage
select_messages q rs = limit_rows q.limit (keep (meets_all message_meets q.conds) rs)

abbrev pub update_message_rows :
    List MessageCond → List MessageAssign → List LocalMessage → List LocalMessage
update_message_rows cs as_ =
    update_where (meets_all message_meets cs) (assign_all message_assign as_)

-- The tables, each in the order of its primary key.
pub record Tables (S : Type 0) : Type 0 where
  pub students : List (Student S)
  pub classes : List Class
  pub messages : List LocalMessage
  pub audits : List AuditLog

-- `Preload("Class")` on one row.
abbrev pub preload : {S : Type 0} → Bool → List Class → Student S → Student S
preload b cs s = if b then record s { class = find (λ c. eqb_ℤ c.id s.class_id) cs } else s

module _ {S : Type 0} (like : String → String → Bool) where
  -- The rows that a query ranges over: soft-deleted ones are left out unless it is unscoped.
  abbrev pub in_query : Select StudentCond → Student S → Bool
  in_query q s =
      (if q.unscoped then true else is_live s) && meets_all (student_meets like) q.conds s

  abbrev pub select_students : Select StudentCond → Tables S → List (Student S)
  select_students q t =
      map (preload q.preload_class t.classes) (limit_rows q.limit (keep (in_query q) t.students))

  -- An `Updates` on the model leaves soft-deleted rows out as well.
  abbrev pub in_update : List StudentCond → Student S → Bool
  in_update cs s = is_live s && meets_all (student_meets like) cs s

module _ {S : Type 0} where
  -- Of a struct, `Updates` writes the fields that are not zero.
  abbrev pub student_assign : (S → Bool) → StudentAssign S → Student S → Student S
  student_assign is_zero (fields_of t) s = record s {
    name = if str_eq t.name "" then s.name else t.name;
    score = if is_zero t.score then s.score else t.score;
    class_id = if eqb_ℤ t.class_id (pos 0) then s.class_id else t.class_id;
    version = if eqb_ℤ t.version (pos 0) then s.version else t.version;
  }
  student_assign is_zero (score_to x) s = record s { score = x }
  student_assign is_zero (version_to v) s = record s { version = v }

  abbrev pub live_with_id : ℤ → Student S → Bool
  live_with_id i s = is_live s && eqb_ℤ s.id i

  -- A new row goes to its place in the order of the primary key.
  abbrev pub place : Student S → List (Student S) → List (Student S)
  place s [] = s ∷ []
  place s (r ∷ rs) = if ltb_ℤ s.id r.id then s ∷ r ∷ rs else r ∷ place s rs

  abbrev pub place_all : List (Student S) → List (Student S) → List (Student S)
  place_all [] rs = rs
  place_all (s ∷ ss) rs = place_all ss (place s rs)
