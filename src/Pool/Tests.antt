-- ===== src/Pool/Tests.antt =====
-- A pool of one worker, with a submit that comes too late.
use student_service.Common.{◌+◌, ◌≤◌, ◌<◌, ◌≡◌, refl, Bool, true, false, List, [], ◌∷◌, some, arith}
use student_service.Pool.{
  Pool, new_pool, Action, test_submit, send_task, take_task, end_task, set_stopped, close_queue,
  wait_done, exit_worker, remove, step, run,
}
use student_service.Pool.Tasks.{times, run_places}
use student_service.Pool.Shutdown.{work, by_workers, Acts, shutdown_ends}

abbrev late_submit : List Action
late_submit =
    test_submit 7
    ∷ send_task 7
    ∷ test_submit 9
    ∷ take_task
    ∷ set_stopped
    ∷ close_queue
    ∷ end_task 7
    ∷ send_task 9
    ∷ exit_worker
    ∷ wait_done
    ∷ []

abbrev shut_down : Pool
shut_down = record {
  worker_num = 1;
  queue_size = 2;
  task_queue = [];
  stopped = true;
  closed = true;
  submitting = [];
  running = [];
  finished = 7 ∷ [];
  lost = 9 ∷ [];
  accepted = 9 ∷ 7 ∷ [];
  exited = 1;
  returned = true;
}

runs_down : run late_submit (new_pool 1 2) ≡ some shut_down
unfolding run step new_pool remove
runs_down = refl

run_places_example :
    (times 9 (7 ∷ []) ≤ times 9 (9 ∷ 7 ∷ []))
    × (◌≡◌ {A = Bool} true true
        → times 9 (9 ∷ 7 ∷ []) ≡ times 9 [] + times 9 (7 ∷ []) + times 9 (9 ∷ []))
run_places_example = run_places 1 2 late_submit shut_down 9 (omega arith) runs_down

abbrev just_closed : Pool
just_closed = record {
  worker_num = 1;
  queue_size = 2;
  task_queue = 8 ∷ [];
  stopped = true;
  closed = true;
  submitting = [];
  running = 7 ∷ [];
  finished = [];
  lost = [];
  accepted = 8 ∷ 7 ∷ [];
  exited = 0;
  returned = false;
}

abbrev until_closed : List Action
until_closed =
    test_submit 7
    ∷ send_task 7
    ∷ take_task
    ∷ test_submit 8
    ∷ send_task 8
    ∷ set_stopped
    ∷ close_queue
    ∷ []

runs_until_closed : run until_closed (new_pool 1 2) ≡ some just_closed
unfolding run step new_pool remove
runs_until_closed = refl

shutdown_ends_example :
    ((bs : List Action) (p' : Pool)
      → run bs just_closed ≡ some p'
      → by_workers bs + work p' ≤ work just_closed)
    × (0 < work just_closed → Acts just_closed)
    × (work just_closed ≡ 0
        → step wait_done just_closed ≡ some (record just_closed { returned = true }))
shutdown_ends_example =
    shutdown_ends 1 2 until_closed just_closed (omega arith) runs_until_closed refl
