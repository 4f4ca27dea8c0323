-- ===== src/Pool/Shutdown.antt =====
-- utils/pool.go: the end of `Shutdown`, once it has closed the queue.
use student_service.Common.{
  ℕ, suc, ◌+◌, ◌-◌, ◌*◌, ◌≤◌, ◌<◌, ◌==◌, ◌≡◌, ◌∙◌, refl, ap, true, not, ◌&&◌, some, List, [], ◌∷◌,
  length, arith,
}
use student_service.Pool.{
  Pool, new_pool, Action, test_submit, send_task, take_task, end_task, set_stopped, close_queue,
  wait_done, exit_worker, remove, sent_task, has_idle, taken, is_empty, step, run,
}
use student_service.Pool.Outcome.{
  Holds, Holds-if, Holds-some, Holds-of, Holds-then, Holds-mono, Holds-both,
}
use student_service.Pool.Tasks.{Kept, new_pool-Kept, step-Kept, run-Kept, length-remove}

-- How many of the actions are those of a worker.
abbrev pub by_worker : Action → ℕ
by_worker take_task = 1
by_worker (end_task t) = 1
by_worker exit_worker = 1
by_worker a = 0

abbrev pub by_workers : List Action → ℕ
by_workers [] = 0
by_workers (a ∷ as_) = by_worker a + by_workers as_

-- What the workers have left to do: two actions for a task in the queue, one for a task that runs, and
-- one for each worker that has not ended.
abbrev pub work : Pool → ℕ
work p = 2 * length p.task_queue + length p.running + (p.worker_num - p.exited)

-- A closed pool that has at most `n` left to do, less what was just done.
abbrev Closing : ℕ → ℕ → Pool → Type 0
Closing w n p = (p.closed ≡ true) × (w + work p ≤ n)

send_task-Closing :
    (t n : ℕ) (others : List ℕ) (p : Pool)
    → p.closed ≡ true
    → work p ≤ n
    → Holds (Closing 0 n) (sent_task t others p)
send_task-Closing t n others p c h = rw c (refl, omega (arith, h))

take_task-Closing :
    (q : List ℕ) (n : ℕ) (p : Pool)
    → p.task_queue ≡ q
    → p.closed ≡ true
    → work p ≤ n
    → Holds (Closing 1 n) (taken q p)
take_task-Closing [] n p e c h = tt
take_task-Closing (t ∷ ts) n p e c h =
    Holds-if (Closing 1 n) (has_idle p) _ _ (λ idle. (c, omega (arith, h, ap length e)))
      (λ busy. tt)

-- In a closed pool an action of a worker leaves less to do, and any other no more.
step-Closing :
    (a : Action) (n : ℕ) (p : Pool)
    → Kept p
    → p.closed ≡ true
    → work p ≤ n
    → Holds (Closing (by_worker a) n) (step a p)
unfolding step
step-Closing (test_submit t) n p k c h =
    Holds-if (Closing 0 n) p.stopped _ _ (λ s. (c, omega (arith, h))) (λ s. (c, omega (arith, h)))
step-Closing (send_task t) n p k c h =
    Holds-some (Closing 0 n) (remove t p.submitting) (λ others. sent_task t others p)
      (λ others e. send_task-Closing t n others p c (omega (arith, h)))
step-Closing take_task n p k c h = take_task-Closing p.task_queue n p refl c (omega (arith, h))
step-Closing (end_task t) n p k c h =
    Holds-some (Closing 1 n) (remove t p.running)
      (λ others. some (record p { running = others; finished = t ∷ p.finished }))
      (λ others e. (c, omega (arith, h, length-remove t p.running others e)))
step-Closing set_stopped n p k c h = (c, omega (arith, h))
step-Closing close_queue n p k c h =
    Holds-if (Closing 0 n) (p.stopped && not p.closed) _ _ (λ s. (refl, omega (arith, h))) (λ s. tt)
step-Closing exit_worker n p k c h =
    Holds-if (Closing 1 n) (p.closed && is_empty p.task_queue && has_idle p) _ _
      (λ s. (c, ground (arith, h))) (λ s. tt)
step-Closing wait_done n p k c h =
    Holds-if (Closing 0 n) (p.closed && p.exited == p.worker_num) _ _ (λ s. (c, omega (arith, h)))
      (λ s. tt)

run-Closing :
    (as_ : List Action) (n : ℕ) (p : Pool)
    → Kept p
    → p.closed ≡ true
    → work p ≤ n
    → Holds (λ p'. by_workers as_ + work p' ≤ n) (run as_ p)
unfolding run
run-Closing [] n p k c h = omega (arith, h)
run-Closing (a ∷ as_) n p k c h =
    Holds-then (λ q. Closing (by_worker a) n q × Kept q) (λ q. by_workers (a ∷ as_) + work q ≤ n)
      (step a p) (run as_)
      (Holds-both (Closing (by_worker a) n) Kept (step a p) (step-Closing a n p k c h)
        (step-Kept a p k))
      (λ q (cl, kept).
        Holds-mono (λ q'. by_workers as_ + work q' ≤ work q)
          (λ q'. by_workers (a ∷ as_) + work q' ≤ n) (run as_ q)
          (λ q' less. omega (arith, less, cl.1))
          (run-Closing as_ (work q) q kept cl.0 (omega arith)))

-- Some worker can act.
abbrev pub Acts : Pool → Type 0
Acts p = (a : Action) × (p' : Pool) × (by_worker a ≡ 1) × (step a p ≡ some p')

exits :
    (p : Pool)
    → p.closed ≡ true
    → p.task_queue ≡ []
    → length p.running + p.exited < p.worker_num
    → Acts p
unfolding step
exits p c q idle =
    let empty : is_empty p.task_queue ≡ true = ap is_empty q in
    (exit_worker, record p { exited = suc p.exited }, refl, ground (arith, c, empty, idle))

takes :
    (t : ℕ) (ts : List ℕ) (p : Pool)
    → p.task_queue ≡ t ∷ ts
    → length p.running + p.exited < p.worker_num
    → Acts p
unfolding step
takes t ts p q idle =
    let free : has_idle p ≡ true = ground (arith, idle) in
    let took : taken (t ∷ ts) p ≡ some (record p { task_queue = ts; running = t ∷ p.running }) =
      rw free refl in
    (
      take_task,
      record p { task_queue = ts; running = t ∷ p.running },
      refl,
      ap (λ l. taken l p) q ∙ took,
    )

ends : (t : ℕ) (ts : List ℕ) (p : Pool) → p.running ≡ t ∷ ts → Acts p
unfolding step remove
ends t ts p r =
    let gone : remove t p.running ≡ some ts = ap (remove t) r ∙ ground arith in
    (end_task t, record p { running = ts; finished = t ∷ p.finished }, refl, rw (step, gone) refl)

-- A worker can act while anything is left to do.
worker-Acts :
    (queue running : List ℕ) (p : Pool)
    → p.task_queue ≡ queue
    → p.running ≡ running
    → 0 < p.worker_num
    → Kept p
    → p.closed ≡ true
    → 0 < work p
    → Acts p
worker-Acts queue (t ∷ ts) p q r positive k c h = ends t ts p r
worker-Acts [] [] p q r positive k c h = exits p c q (omega (arith, h, ap length q, ap length r))
worker-Acts (t ∷ ts) [] p q r positive k c h =
    let none_out : 0 < p.exited → ⊥ = λ out. ground (arith, (k.drained out).1, q) in
    takes t ts p q (ground (arith, ap length r, positive, none_out))

all_out : (p : Pool) → Kept p → work p ≡ 0 → p.exited ≡ p.worker_num
all_out p k h = omega (arith, h, k.workers)

-- In any order of the actions of a pool with at least one worker, once `Shutdown` has closed the queue:
-- whatever is done from there, the workers do at most as many actions as are left to them, two for a
-- task in the queue, one for a task that runs and one for each worker that has not ended; while any are
-- left, some worker can act; and when none are, `Shutdown` can return.
pub shutdown_ends :
    (n size : ℕ) (as_ : List Action) (p : Pool)
    → 0 < p.worker_num
    → run as_ (new_pool n size) ≡ some p
    → p.closed ≡ true
    → ((bs : List Action) (p' : Pool) → run bs p ≡ some p' → by_workers bs + work p' ≤ work p)
      × (0 < work p → Acts p)
      × (work p ≡ 0 → step wait_done p ≡ some (record p { returned = true }))
unfolding step
shutdown_ends n size as_ p positive e c =
    let k = Holds-of Kept p _ e (run-Kept as_ (new_pool n size) (new_pool-Kept n size)) in
    (
      λ bs p' f.
          Holds-of (λ q. by_workers bs + work q ≤ work p) p' _ f
            (run-Closing bs (work p) p k c (omega arith)),
      λ h. worker-Acts p.task_queue p.running p refl refl positive k c h,
      λ h. ground (arith, c, all_out p k h),
    )
