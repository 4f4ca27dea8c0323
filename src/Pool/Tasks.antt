-- ===== src/Pool/Tasks.antt =====
-- What becomes of the tasks of a pool, in any order of its actions.
use student_service.Common.{
  ℕ, suc, ◌+◌, ◌≤◌, ◌<◌, ltb, ◌==◌, ◌≡◌, refl, ap, inl, inr, true, not, ◌&&◌, some, List, [], ◌∷◌,
  ◌++◌, length, arith, Bool-cases, Option-cases, if◌then◌else◌,
}
use student_service.Pool.{
  Pool, new_pool, Action, test_submit, send_task, take_task, end_task, set_stopped, close_queue,
  wait_done, exit_worker, remove, sent_task, has_idle, taken, is_empty, step, run,
}
use student_service.Pool.Outcome.{Holds, Holds-if, Holds-some, Holds-of, Holds-then}

-- How often a task stands in a list.
abbrev pub times : ℕ → List ℕ → ℕ
times t [] = 0
times t (u ∷ us) = if u == t then suc (times t us) else times t us

times-snoc : (t u : ℕ) (us : List ℕ) → times t (us ++ u ∷ []) ≡ times t (u ∷ us)
times-snoc t u [] = refl
times-snoc t u (v ∷ us) = ground (arith, times-snoc t u us)

times-remove : (t u : ℕ) (us vs : List ℕ) → remove u us ≡ some vs → times t us ≡ times t (u ∷ vs)
unfolding remove
times-remove t u [] vs h = cc
times-remove t u (v ∷ us) vs h = elim (Bool-cases (v == u)) [
  | inl e ↦ ground arith
  | inr e ↦ elim (Option-cases (remove u us)) [
    | inl n ↦ absurd (ground arith)
    | inr (ws, n) ↦ ground (arith, times-remove t u us ws n)
  ]
]

pub length-remove : (u : ℕ) (us vs : List ℕ) → remove u us ≡ some vs → length us ≡ suc (length vs)
unfolding remove
length-remove u [] vs h = cc
length-remove u (v ∷ us) vs h = elim (Bool-cases (v == u)) [
  | inl e ↦ ground arith
  | inr e ↦ elim (Option-cases (remove u us)) [
    | inl n ↦ absurd (ground arith)
    | inr (ws, n) ↦ ground (arith, length-remove u us ws n)
  ]
]

-- Every accepted task is in one place, no more workers act than there are, and one that has ended found
-- the queue closed and empty.
pub record Kept (p : Pool) : Type 0 where
  pub placed :
      (t : ℕ)
      → times t p.accepted
        ≡ times t p.submitting
          + times t p.task_queue
          + times t p.running
          + times t p.finished
          + times t p.lost
  pub workers : length p.running + p.exited ≤ p.worker_num
  pub drained : 0 < p.exited → (p.closed ≡ true) × (p.task_queue ≡ [])
  pub waited : p.returned ≡ true → p.exited ≡ p.worker_num

pub new_pool-Kept : (n size : ℕ) → Kept (new_pool n size)
unfolding new_pool
new_pool-Kept n size = record {
  placed = λ t. omega arith;
  workers = omega arith;
  drained = λ h. absurd (omega arith);
  waited = λ h. cc;
}

pub length-zero : (ts : List ℕ) → length ts ≡ 0 → ts ≡ []
length-zero [] h = refl
length-zero (t ∷ ts) h = absurd (omega (arith, h))

pub is_empty-nil : (ts : List ℕ) → is_empty ts ≡ true → ts ≡ []
is_empty-nil [] h = refl
is_empty-nil (t ∷ ts) h = cc

send_task-Kept :
    (t : ℕ) (others : List ℕ) (p : Pool)
    → remove t p.submitting ≡ some others
    → Kept p
    → Holds Kept (sent_task t others p)
send_task-Kept t others p e k =
    Holds-if Kept p.closed _ _
      (λ c. record {
        placed = λ u. ground (arith, k.placed u, times-remove u t p.submitting others e);
        workers = k.workers;
        drained = k.drained;
        waited = k.waited;
      })
      (λ c.
        Holds-if Kept (ltb (length p.task_queue) p.queue_size) _ _
          (λ room. record {
            placed = λ u. ground (
              arith,
              k.placed u,
              times-remove u t p.submitting others e,
              times-snoc u t p.task_queue,
            );
            workers = k.workers;
            drained = λ h. absurd (ground (arith, (k.drained h).0));
            waited = k.waited;
          })
          (λ full. tt))

take_task-Kept : (q : List ℕ) (p : Pool) → p.task_queue ≡ q → Kept p → Holds Kept (taken q p)
take_task-Kept [] p e k = tt
take_task-Kept (t ∷ ts) p e k =
    Holds-if Kept (has_idle p) _ _
      (λ idle. record {
        placed = λ u. ground (arith, k.placed u, ap (times u) e);
        workers = ground arith;
        drained = λ h. absurd (ground (arith, (k.drained h).1, e));
        waited = k.waited;
      })
      (λ busy. tt)

end_task-Kept :
    (t : ℕ) (others : List ℕ) (p : Pool)
    → remove t p.running ≡ some others
    → Kept p
    → Kept (record p { running = others; finished = t ∷ p.finished })
end_task-Kept t others p e k = record {
  placed = λ u. ground (arith, k.placed u, times-remove u t p.running others e);
  workers = omega (arith, k.workers, length-remove t p.running others e);
  drained = k.drained;
  waited = k.waited;
}

pub step-Kept : (a : Action) (p : Pool) → Kept p → Holds Kept (step a p)
unfolding step
step-Kept (test_submit t) p k =
    Holds-if Kept p.stopped _ _ (λ s. k)
      (λ s. record {
        placed = λ u. ground (arith, k.placed u);
        workers = k.workers;
        drained = k.drained;
        waited = k.waited;
      })
step-Kept (send_task t) p k =
    Holds-some Kept (remove t p.submitting) (λ others. sent_task t others p)
      (λ others e. send_task-Kept t others p e k)
step-Kept take_task p k = take_task-Kept p.task_queue p refl k
step-Kept (end_task t) p k =
    Holds-some Kept (remove t p.running)
      (λ others. some (record p { running = others; finished = t ∷ p.finished }))
      (λ others e. end_task-Kept t others p e k)
step-Kept set_stopped p k = record {
  placed = k.placed;
  workers = k.workers;
  drained = k.drained;
  waited = k.waited;
}
step-Kept close_queue p k =
    Holds-if Kept (p.stopped && not p.closed) _ _
      (λ c. record {
        placed = k.placed;
        workers = k.workers;
        drained = λ h. (refl, (k.drained h).1);
        waited = k.waited;
      })
      (λ c. tt)
step-Kept exit_worker p k =
    Holds-if Kept (p.closed && is_empty p.task_queue && has_idle p) _ _
      (λ c. record {
        placed = k.placed;
        workers = ground arith;
        drained = λ h. (ground arith, is_empty-nil p.task_queue (ground arith));
        waited = λ r. absurd (ground (arith, k.waited r));
      })
      (λ c. tt)
step-Kept wait_done p k =
    Holds-if Kept (p.closed && p.exited == p.worker_num) _ _
      (λ c. record {
        placed = k.placed;
        workers = k.workers;
        drained = k.drained;
        waited = λ r. ground arith;
      })
      (λ c. tt)

pub run-Kept : (as_ : List Action) (p : Pool) → Kept p → Holds Kept (run as_ p)
unfolding run
run-Kept [] p k = k
run-Kept (a ∷ as_) p k = Holds-then Kept Kept (step a p) (run as_) (step-Kept a p k) (run-Kept as_)

-- In any order of the actions of a pool with at least one worker, no accepted task is run more often
-- than it was accepted; and once `Shutdown` has returned, every accepted task has been run, except
-- for those whose `Submit` had passed its test and has not sent, or sent to the closed queue.
pub run_places :
    (n size : ℕ) (as_ : List Action) (p : Pool) (t : ℕ)
    → 0 < p.worker_num
    → run as_ (new_pool n size) ≡ some p
    → (times t p.finished ≤ times t p.accepted)
      × (p.returned ≡ true
          → times t p.accepted ≡ times t p.submitting + times t p.finished + times t p.lost)
run_places n size as_ p t positive e =
    let k = Holds-of Kept p _ e (run-Kept as_ (new_pool n size) (new_pool-Kept n size)) in
    (
      omega (arith, k.placed t),
      λ r.
          let all_out = k.waited r in
          let empty = (k.drained (omega (arith, all_out, positive))).1 in
          let idle = length-zero p.running (omega (arith, all_out, k.workers)) in
          omega (arith, k.placed t, ap (times t) empty, ap (times t) idle),
    )
