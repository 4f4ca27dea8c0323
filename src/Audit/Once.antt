-- ===== src/Audit/Once.antt =====
-- How often the consumer of audit messages writes a row for a trace id.
use student_service.Common.{
  ℕ, suc, ◌+◌, ◌≤◌, ◌≡◌, refl, sym, ◌∙◌, ap, subst, ◌⊎◌, inl, inr, Bool, true, false, List, [], ◌∷◌,
  ◌++◌, String, str_eq, str_eq_iff, arith, Bool-cases, Option-cases, if◌then◌else◌,
}
use student_service.Model.{AuditMessage, AuditLog}
use student_service.Result.{Result-cases}
use student_service.Env.{Env}
use student_service.Redis.{Redis, RedisLaws}
use student_service.Store.{Gorm}
use student_service.Store.Rows.{Tables}
use student_service.Store.Laws.{AuditLaws}
use student_service.Import.Consumer.{Message}
use student_service.Audit.{
  audit_idempotent_key, is_duplicate_key_error, Consumer, audit_log, write_audit_log,
  consume_audit_log, consume_message, consume_claim,
}
use student_service.Dao

-- How many rows a trace id has.
abbrev pub rows_of : String → List AuditLog → ℕ
rows_of t [] = 0
rows_of t (r ∷ rs) = if str_eq r.trace_id t then suc (rows_of t rs) else rows_of t rs

rows_of-snoc :
    (t : String) (rs : List AuditLog) (a : AuditLog)
    → rows_of t (rs ++ a ∷ []) ≡ rows_of t rs + (if str_eq a.trace_id t then 1 else 0)
rows_of-snoc t [] a = ground arith
rows_of-snoc t (r ∷ rs) a = ground (arith, rows_of-snoc t rs a)

module _ {S Seed R Db Session : Type 0} (env : Env S Seed) (redis : Redis R)
    (gorm : Gorm S Db Session) (held : String → R → Bool) (view : Db → Tables S)
    (caching : RedisLaws redis held) (audits : AuditLaws gorm view) where
  abbrev rows : String → Consumer R Db → ℕ
  rows t c = rows_of t (view c.db).audits

  abbrev known : String → Consumer R Db → Bool
  known t c = held (audit_idempotent_key t) c.redis

  -- Nothing happens to a trace id, or it becomes known and may get its row.
  abbrev Once : String → Consumer R Db → Consumer R Db → Type 0
  Once t c c' =
      ((rows t c' ≡ rows t c) × (known t c ≡ true → known t c' ≡ true))
      ⊎ ((known t c ≡ false)
          × (known t c' ≡ true)
          × (rows t c ≤ rows t c')
          × (rows t c' ≤ suc (rows t c)))

  Once-trans : (t : String) (c c' c'' : Consumer R Db) → Once t c c' → Once t c' c'' → Once t c c''
  Once-trans t c c' c'' (inl (e, k)) (inl (e', k')) = inl (e' ∙ e, λ h. k' (k h))
  Once-trans t c c' c'' (inr (n, k, l, u)) (inl (e, k')) =
      inr (n, k' k, omega (arith, e, l), omega (arith, e, u))
  Once-trans t c c' c'' (inr (n, k, l, u)) (inr (n', k', l', u')) = absurd (ground arith)
  Once-trans t c c' c'' (inl (e, k)) (inr (n, k', l, u)) = elim (Bool-cases (known t c)) [
    | inl h ↦ absurd (ground (arith, k h))
    | inr h ↦ inr (h, k', omega (arith, e, l), omega (arith, e, u))
  ]

  -- Whatever it answers, a write hands the row to the database and touches nothing else.
  write_audit_log-consumer :
      (msg : AuditMessage S) (c : Consumer R Db)
      → (write_audit_log env redis gorm msg c).1
        ≡ record c { db = (gorm.create_audit (audit_log env redis gorm msg) c.db).1 }
  unfolding write_audit_log Dao.create_audit_log
  write_audit_log-consumer msg c =
      elim (Option-cases (gorm.create_audit (audit_log env redis gorm msg) c.db).0) [
        | inl e ↦ rw (e, write_audit_log) refl
        | inr (x, e) ↦ elim (Bool-cases (is_duplicate_key_error x)) [
          | inl d ↦ rw (e, write_audit_log) (rw d refl)
          | inr d ↦ rw (e, write_audit_log) (rw d refl)
        ]
      ]

  rows-created :
      (t : String) (msg : AuditMessage S) (c : Consumer R Db)
      → let db' = (gorm.create_audit (audit_log env redis gorm msg) c.db).1 in
        (rows_of t (view db').audits ≡ rows t c)
        ⊎ (rows_of t (view db').audits ≡ rows t c + (if str_eq msg.trace_id t then 1 else 0))
  unfolding audit_log
  rows-created t msg c = elim (audits.create_audit_whole (audit_log env redis gorm msg) c.db) [
    | inl e ↦ inl (ap (λ x. rows_of t x.audits) e)
    | inr e ↦ inr (
        ap (λ x. rows_of t x.audits) e
        ∙ rows_of-snoc t (view c.db).audits (audit_log env redis gorm msg))
  ]

  rows-others :
      (t : String) (msg : AuditMessage S) (c : Consumer R Db)
      → str_eq msg.trace_id t ≡ false
      → rows_of t (view (gorm.create_audit (audit_log env redis gorm msg) c.db).1).audits ≡ rows t c
  rows-others t msg c other = elim (rows-created t msg c) [
    | inl e ↦ e
    | inr e ↦ e ∙ rw other (omega arith)
  ]

  rows-bounds :
      (t : String) (msg : AuditMessage S) (c : Consumer R Db)
      → let n = rows_of t (view (gorm.create_audit (audit_log env redis gorm msg) c.db).1).audits in
        (rows t c ≤ n) × (n ≤ suc (rows t c))
  rows-bounds t msg c = elim (Bool-cases (str_eq msg.trace_id t)) [
    | inr other ↦ omega (arith, rows-others t msg c other)
    | inl mine ↦ elim (rows-created t msg c) [
      | inl e ↦ omega (arith, e)
      | inr e ↦
          let e' : rows_of t (view (gorm.create_audit (audit_log env redis gorm msg) c.db).1).audits
              ≡ rows t c + 1 =
            e ∙ rw mine refl in
          omega (arith, e')
    ]
  ]

  -- A message that is new, after its key was set.
  write-Once :
      (t : String) (msg : AuditMessage S) (c c' : Consumer R Db)
      → rows t c' ≡ rows t c
      → (known t c ≡ true → known t c' ≡ true)
      → known msg.trace_id c ≡ false
      → known msg.trace_id c' ≡ true
      → Once t c (write_audit_log env redis gorm msg c').1
  write-Once t msg c c' same kept new now =
      subst (Once t c) (sym (write_audit_log-consumer msg c'))
        (elim (Bool-cases (str_eq msg.trace_id t)) [
          | inl e ↦
              let mine : msg.trace_id ≡ t = (str_eq_iff msg.trace_id t).0 e in
              inr (
                subst (λ x. known x c ≡ false) mine new,
                subst (λ x. known x c' ≡ true) mine now,
                omega (arith, same, rows-bounds t msg c'),
                omega (arith, same, rows-bounds t msg c'),
              )
          | inr e ↦ inl (rows-others t msg c' e ∙ same, kept)
        ])

  consume_audit_log-Once :
      (t : String) (msg : AuditMessage S) (c : Consumer R Db)
      → Once t c (consume_audit_log env redis gorm msg c).1
  unfolding consume_audit_log
  consume_audit_log-Once t msg c =
      let key = audit_idempotent_key msg.trace_id in
      let set = redis.set_nx key "1" 86_400 c.redis in
      let c' : Consumer R Db = record c { redis = set.1 } in
      let kept : known t c ≡ true → known t c' ≡ true =
        caching.set_nx_kept key "1" 86_400 c.redis (audit_idempotent_key t) in
      elim (Result-cases set.0) [
        | inr (x, e) ↦ rw (e, consume_audit_log) (inl (refl, kept))
        | inl (false, e) ↦ rw (e, consume_audit_log) (inl (refl, kept))
        | inl (true, e) ↦
            rw (e, consume_audit_log)
              (write-Once t msg c c' refl kept (caching.set_nx_free key "1" 86_400 c.redis e)
                (caching.set_nx_took key "1" 86_400 c.redis e))
      ]

  consume_message-Once :
      (t : String) (m : Message) (c : Consumer R Db) → Once t c (consume_message env redis gorm m c)
  unfolding consume_message
  consume_message-Once t m c = elim (Result-cases (env.json.unmarshal_audit m.value)) [
    | inr (x, e) ↦ rw (e, consume_message) (inl (refl, λ h. h))
    | inl (msg, e) ↦ elim (Option-cases (consume_audit_log env redis gorm msg c).0) [
      | inl f ↦ rw (e, consume_message) (rw f (consume_audit_log-Once t msg c))
      | inr (x, f) ↦ rw (e, consume_message) (rw f (consume_audit_log-Once t msg c))
    ]
  ]

  consume_claim-Once :
      (t : String) (ms : List Message) (c : Consumer R Db)
      → Once t c (consume_claim env redis gorm ms c)
  unfolding consume_claim
  consume_claim-Once t [] c = inl (refl, λ h. h)
  consume_claim-Once t (m ∷ ms) c =
      let c' = consume_message env redis gorm m c in
      Once-trans t c c' (consume_claim env redis gorm ms c') (consume_message-Once t m c)
        (consume_claim-Once t ms c')

  -- While no key runs out, a claim gives a trace id at most one more audit row, whichever messages
  -- come how often and whatever fails, and none if the key of the trace id was there before; and it
  -- takes no row away.
  pub consume_claim_once :
      (t : String) (ms : List Message) (c : Consumer R Db)
      → let c' = consume_claim env redis gorm ms c in
        (rows_of t (view c.db).audits ≤ rows_of t (view c'.db).audits)
        × (rows_of t (view c'.db).audits ≤ suc (rows_of t (view c.db).audits))
        × (held (audit_idempotent_key t) c.redis ≡ true
            → rows_of t (view c'.db).audits ≡ rows_of t (view c.db).audits)
  consume_claim_once t ms c = elim (consume_claim-Once t ms c) [
    | inl (e, k) ↦ (omega (arith, e), omega (arith, e), λ h. e)
    | inr (n, k, l, u) ↦ (l, u, λ h. absurd (ground arith))
  ]
