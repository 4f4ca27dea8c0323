-- ===== src/Students/List/Query.antt =====
-- What the queries of the two listings ask for, and how a page is cut from the answer.
use student_service.Common.{
  ℕ, zero, suc, ◌<◌, ℤ, pos, pos_part, ◌+ℤ◌, ◌<ℤ◌, ◌≤ℤ◌, int64, ltb_ℤ, eqb_ℤ, ltb, ◌≡◌, refl, ◌∙◌,
  sym, ap, inl, inr, Bool, true, false, ◌&&◌, String, List, [], ◌∷◌, length, take, drop, keep, map,
  arith, if◌then◌else◌, Bool-cases, fun_ext, not, length-take, take-length,
}
use student_service.Model.{Student, Class, StudentListQuery}
use student_service.Store.Rows.{is_live, Tables, preload, select_students}
use student_service.Dao
use student_service.Students.List.{page_size_of, page_of}
use student_service.Students.List.Order.{
  Above, Above-keep, last_id, is_after, keep_after_last, last_id-ge, keep-keep,
}

-- The number of rows on a page.
abbrev pub page_length : ℤ → ℕ
page_length n = pos_part (page_size_of n)

-- A page has between one and a hundred rows, as many as asked for in that range, and ten where none
-- are asked for.
pub page_size_of_range :
    (n : ℤ)
    → (pos 1 ≤ℤ page_size_of n)
      × (page_size_of n ≤ℤ pos 100)
      × (pos 1 ≤ℤ n → n ≤ℤ pos 100 → page_size_of n ≡ n)
      × (n ≤ℤ pos 0 → page_size_of n ≡ pos 10)
      × (pos 100 ≤ℤ n → page_size_of n ≡ pos 100)
unfolding page_size_of
page_size_of_range n = ground arith

pub page_limit : (n : ℤ) → int64 (page_size_of n +ℤ pos 1) ≡ pos (suc (page_length n))
unfolding page_size_of ◌+ℤ◌ int64
page_limit n = ground arith

pub page_size_pos : (n : ℤ) → page_size_of n ≡ pos (page_length n)
unfolding page_size_of
page_size_pos n = ground arith

-- The key above which a cursor begins.
abbrev floor : ℤ → ℤ
floor i = if ltb_ℤ (pos 0) i then i else pos 0

module _ {S : Type 0} where
  pub map-take :
      (f : Student S → Student S) (n : ℕ) (ss : List (Student S))
      → map f (take n ss) ≡ take n (map f ss)
  map-take f zero ss = refl
  map-take f (suc n) [] = refl
  map-take f (suc n) (s ∷ ss) = ap (◌∷◌ (f s)) (map-take f n ss)

  take-take : (n : ℕ) (ss : List (Student S)) → take n (take (suc n) ss) ≡ take n ss
  take-take zero ss = refl
  take-take (suc n) [] = refl
  take-take (suc n) (s ∷ ss) = ap (◌∷◌ s) (take-take n ss)

  -- One row more than the page was fetched; the cut leaves the first `n` of all, and tells whether
  -- there are more.
  pub page_of-take :
      (n : ℕ) (all : List (Student S))
      → page_of (pos n) (take (suc n) all)
        ≡ (take n all, last_id (pos 0) (take n all), ltb n (length all))
  unfolding page_of
  page_of-take n all =
      ground (
        arith,
        length-take (suc n) all,
        take-take n all,
        take-length n all,
        take-length (suc n) all,
      )

  -- The rows that a listing is about: of the class, if the query names one, and after the cursor, if
  -- it has one.
  abbrev pub after_cursor : ℤ → Student S → Bool
  after_cursor i s = if ltb_ℤ (pos 0) i then is_after i s else true

  abbrev pub of_class : ℤ → Student S → Bool
  of_class c s = if ltb_ℤ (pos 0) c then eqb_ℤ s.class_id c else true

  abbrev pub listed : StudentListQuery → List (Student S) → List (Student S)
  listed q = keep λ s. (is_live s && of_class q.class_id s) && after_cursor q.last_id s

  abbrev pub trashed : StudentListQuery → List (Student S) → List (Student S)
  trashed q = keep λ s. not (is_live s) && after_cursor q.last_id s

  Above-after_cursor :
      (p : Student S → Bool) (i j : ℤ) (ss : List (Student S))
      → Above j ss
      → pos 0 ≤ℤ j
      → Above (floor i) (keep (λ s. p s && after_cursor i s) ss)
  Above-after_cursor p i j [] a h = tt
  Above-after_cursor p i j (s ∷ ss) a h = ground (
    arith,
    Above-after_cursor p i s.id ss a.1,
    Above-keep (λ s. p s && after_cursor i s) s.id ss a.1,
  )

  last_id-gt :
      (n : ℕ) (i : ℤ) (ss : List (Student S))
      → Above i ss
      → 0 < n
      → n < length ss
      → i <ℤ last_id (pos 0) (take n ss)
  last_id-gt zero i ss a h k = absurd (omega arith)
  last_id-gt (suc n) i [] a h k = absurd (omega arith)
  last_id-gt (suc n) i (s ∷ ss) a h k = omega (arith, last_id-ge n s.id ss a.1)

  -- The rows that the cursor of a page leaves are the rows behind the page.
  pub rest_after :
      (p : Student S → Bool) (i : ℤ) (n : ℕ) (ss : List (Student S))
      → Above (pos 0) ss
      → let rows = keep (λ s. p s && after_cursor i s) ss in
        0 < n
        → n < length rows
        → keep (λ s. p s && after_cursor (last_id (pos 0) (take n rows)) s) ss ≡ drop n rows
  rest_after p i n ss a h k =
      let rows = keep (λ s. p s && after_cursor i s) ss in
      let l = last_id (pos 0) (take n rows) in
      let beyond =
        last_id-gt n (floor i) rows (Above-after_cursor p i (pos 0) ss a (omega arith)) h k in
      ap (λ (t : Student S → Bool). keep t ss) (fun_ext λ s. same p i l s beyond)
      ∙ sym (keep-keep (is_after l) (λ s. p s && after_cursor i s) ss)
      ∙ keep_after_last n (pos 0) rows (Above-keep _ (pos 0) ss a)
    where
      same :
          (p : Student S → Bool) (i l : ℤ) (s : Student S)
          → floor i <ℤ l
          → (p s && after_cursor l s) ≡ ((p s && after_cursor i s) && is_after l s)
      same p i l s b = ground arith

module _ {S : Type 0} (like : String → String → Bool) where
  map-preload_off : (cs : List Class) (ss : List (Student S)) → map (preload false cs) ss ≡ ss
  map-preload_off cs [] = refl
  map-preload_off cs (s ∷ ss) = ap (◌∷◌ s) (map-preload_off cs ss)

  keep-same :
      (p q : Student S → Bool) (ss : List (Student S))
      → ((s : Student S) → p s ≡ q s)
      → keep p ss ≡ keep q ss
  keep-same p q ss h = ap (λ (t : Student S → Bool). keep t ss) (fun_ext h)

  -- The query of a listing asks for its rows, up to the limit.
  pub list_query-listed :
      (q : StudentListQuery) (t : Tables S) (n : ℕ)
      → select_students like (Dao.list_query q.class_id q.last_id (pos n)) t
        ≡ take n (listed q t.students)
  list_query-listed q t n = elim (Bool-cases (ltb_ℤ (pos 0) q.class_id)) [
    | inl c ↦ elim (Bool-cases (ltb_ℤ (pos 0) q.last_id)) [
      | inl l ↦
          rw (c, l)
            (map-preload_off t.classes _ ∙ ap (take n) (keep-same _ _ t.students λ s. ground arith))
      | inr l ↦
          rw (c, l)
            (map-preload_off t.classes _ ∙ ap (take n) (keep-same _ _ t.students λ s. ground arith))
    ]
    | inr c ↦ elim (Bool-cases (ltb_ℤ (pos 0) q.last_id)) [
      | inl l ↦
          rw (c, l)
            (map-preload_off t.classes _ ∙ ap (take n) (keep-same _ _ t.students λ s. ground arith))
      | inr l ↦
          rw (c, l)
            (map-preload_off t.classes _ ∙ ap (take n) (keep-same _ _ t.students λ s. ground arith))
    ]
  ]

  pub deleted_query-trashed :
      (q : StudentListQuery) (t : Tables S) (n : ℕ)
      → select_students like (Dao.deleted_query q.last_id (pos n)) t
        ≡ take n (map (preload true t.classes) (trashed q t.students))
  deleted_query-trashed q t n = elim (Bool-cases (ltb_ℤ (pos 0) q.last_id)) [
    | inl l ↦ rw l (
        map-take _ n _
        ∙ ap (λ (r : List (Student S)). take n (map (preload true t.classes) r))
            (keep-same _ _ t.students λ s. ground arith))
    | inr l ↦ rw l (
        map-take _ n _
        ∙ ap (λ (r : List (Student S)). take n (map (preload true t.classes) r))
            (keep-same _ _ t.students λ s. ground arith))
  ]
