-- ===== src/Pool.antt =====
-- utils/pool.go: a pool of workers behind a queue. The goroutines that submit, the workers and the one
-- that shuts the pool down act in any order; an action below is what one of them does between two
-- points where another may act. A task is known by a number.
pub mod Outcome
pub mod Tasks
pub mod Shutdown
mod Tests
use student_service.Common.{
  ℕ, zero, suc, ◌+◌, ltb, ◌==◌, Bool, true, false, not, ◌&&◌, Option, none, some, List, [], ◌∷◌,
  ◌++◌, length, if◌then◌else◌,
}

-- `queue_size` is the capacity of `taskQueue`. `submitting` are the tasks whose `Submit` has passed its
-- test and has not sent yet, `running` those that a worker has taken, `lost` those whose send met the
-- closed queue and panicked; `accepted` are all that passed the test. `exited` counts the workers that
-- have ended, and `returned` says that `Shutdown` has.
pub record Pool : Type 0 where
  pub worker_num : ℕ
  pub queue_size : ℕ
  pub task_queue : List ℕ
  pub stopped : Bool
  pub closed : Bool
  pub submitting : List ℕ
  pub running : List ℕ
  pub finished : List ℕ
  pub lost : List ℕ
  pub accepted : List ℕ
  pub exited : ℕ
  pub returned : Bool

unfoldable pub new_pool : ℕ → ℕ → Pool
new_pool worker_num queue_size = record {
  worker_num = worker_num;
  queue_size = queue_size;
  task_queue = [];
  stopped = false;
  closed = false;
  submitting = [];
  running = [];
  finished = [];
  lost = [];
  accepted = [];
  exited = 0;
  returned = false;
}

pub data Action : Type 0 where
  -- A `Submit` reads `stopped`.
  test_submit : ℕ → Action
  -- It sends its task to the queue.
  send_task : ℕ → Action
  -- A worker takes the next task, and ends a task.
  take_task : Action
  end_task : ℕ → Action
  -- `Shutdown` sets `stopped`, closes the queue, and has waited for the workers.
  set_stopped close_queue wait_done : Action
  -- A worker finds the queue closed and empty.
  exit_worker : Action

-- A list without the first occurrence of a task, if there is one.
unfoldable pub remove : ℕ → List ℕ → Option (List ℕ)
remove t [] = none
remove t (u ∷ us) =
    let rest = remove t us in
    if u == t then some us else elim rest [ none ↦ none | some vs ↦ some (u ∷ vs) ]

-- A send blocks while the queue is full; on a closed queue it panics.
abbrev pub sent_task : ℕ → List ℕ → Pool → Option Pool
sent_task t others p =
    if p.closed
    then some (record p { submitting = others; lost = t ∷ p.lost })
    else if ltb (length p.task_queue) p.queue_size
    then some (record p { submitting = others; task_queue = p.task_queue ++ t ∷ [] })
    else none

abbrev pub has_idle : Pool → Bool
has_idle p = ltb (length p.running + p.exited) p.worker_num

abbrev pub taken : List ℕ → Pool → Option Pool
taken [] p = none
taken (t ∷ ts) p =
    if has_idle p then some (record p { task_queue = ts; running = t ∷ p.running }) else none

abbrev pub is_empty : List ℕ → Bool
is_empty [] = true
is_empty (t ∷ ts) = false

-- What an action does, if it can be done.
unfoldable pub step : Action → Pool → Option Pool
step (test_submit t) p =
    if p.stopped
    then some p
    else some (record p { submitting = t ∷ p.submitting; accepted = t ∷ p.accepted })
step (send_task t) p = elim (remove t p.submitting) [
  | none ↦ none
  | some others ↦ sent_task t others p
]
step take_task p = taken p.task_queue p
step (end_task t) p = elim (remove t p.running) [
  | none ↦ none
  | some others ↦ some (record p { running = others; finished = t ∷ p.finished })
]
step set_stopped p = some (record p { stopped = true })
step close_queue p = if p.stopped && not p.closed then some (record p { closed = true }) else none
step exit_worker p =
    if p.closed && is_empty p.task_queue && has_idle p
    then some (record p { exited = suc p.exited })
    else none
step wait_done p =
    if p.closed && p.exited == p.worker_num then some (record p { returned = true }) else none

unfoldable pub run : List Action → Pool → Option Pool
run [] p = some p
run (a ∷ as_) p = elim (step a p) [ none ↦ none | some p' ↦ run as_ p' ]
