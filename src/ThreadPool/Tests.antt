-- ===== src/ThreadPool/Tests.antt =====
-- Concrete runs of the thread pool.
use embedded_linux_iot_gatew.Prelude.{
  ℕ, ◌+◌, ◌*◌, ◌≡◌, refl, true, false, none, some, List, [], ◌∷◌, ◌++◌, ◌==◌, if◌then◌else◌, arith,
}
use embedded_linux_iot_gatew.ThreadPool.{waiting, Pool, Event, push, step, created, run, create}
use embedded_linux_iot_gatew.ThreadPool.Accounts.{count, in_hand, pushed, run_accounts}
use embedded_linux_iot_gatew.ThreadPool.Stuck.{run_stuck}
use embedded_linux_iot_gatew.LinkedList.Seg.{has}
use embedded_linux_iot_gatew.ThreadPool.Queue.{task, Store, TaskQueue, task_queue_destroy}
use embedded_linux_iot_gatew.ThreadPool.Queue.Order.{IsQueue, SameBut}
use embedded_linux_iot_gatew.ThreadPool.Queue.Destroy.{task_queue_destroy-all}
use embedded_linux_iot_gatew.ThreadPool.Start.{each_steps, early_exit}

-- Two workers, two tasks: the second worker runs the first task while the first holds the second.
abbrev busy : List Event
busy = push 7 ∷ created ∷ step 1 ∷ step 1 ∷ push 8 ∷ step 0 ∷ step 0 ∷ step 1 ∷ push 9 ∷ []

first_done : (run (create true 2) busy).executed ≡ 7 ∷ []
unfolding run create
first_done = refl

two_begun : (run (create true 2) busy).taken ≡ 7 ∷ 8 ∷ []
unfolding run create
two_begun = refl

run_accounts_example :
    let s = run (create true 2) busy in
    (s.taken ++ s.queue ≡ pushed busy)
    × ((t : ℕ) → count t s.taken ≡ count t s.executed + in_hand t s.workers)
run_accounts_example = run_accounts true 2 busy

-- A pool whose only worker found no task.
abbrev asleep : Pool
asleep = record {
  queue = [];
  running = true;
  tasks_done = 0;
  workers = waiting ∷ [];
  taken = [];
  executed = [];
}

run_stuck_example :
    ((run asleep (push 5 ∷ step 0 ∷ [])).executed ≡ asleep.executed)
    × ((run asleep (push 5 ∷ step 0 ∷ [])).queue ≡ asleep.queue ++ pushed (push 5 ∷ step 0 ∷ []))
    × ((run asleep (push 5 ∷ step 0 ∷ [])).workers ≡ asleep.workers)
run_stuck_example = run_stuck (push 5 ∷ step 0 ∷ []) asleep (refl, tt) tt

early_exit_example :
    let s = run (create false 2) (each_steps 0 2 ++ (created ∷ push 3 ∷ step 0 ∷ [])) in
    (s.executed ≡ []) × (s.queue ≡ pushed (push 3 ∷ step 0 ∷ []))
early_exit_example = early_exit 2 (push 3 ∷ step 0 ∷ [])

-- The tasks 1 and 2 are in a queue, 3 is new.
abbrev memory : Store
memory a =
    if a == 1
    then some (task 10 0 (some 2))
    else (if a == 2
        then some (task 20 5 none)
        else (if a == 3 then some (task 30 0 none) else none))

abbrev to_do : ℕ → ℕ × ℕ
to_do a = (a * 10, if a == 2 then 5 else 0)

abbrev two_tasks : TaskQueue
two_tasks = record { head = some 1; tail = some 2; size = 2 }

two_tasks-IsQueue : IsQueue memory to_do two_tasks (1 ∷ 2 ∷ [])
two_tasks-IsQueue = record {
  head_eq = refl;
  tail_eq = refl;
  sized = refl;
  chained = (refl, (refl, tt));
  distinct = (refl, (refl, tt));
}

task_queue_destroy-all_example :
    (m1 : Store) × (task_queue_destroy 2 two_tasks memory ≡ some m1)
    × ((a : ℕ) → has a (1 ∷ 2 ∷ []) ≡ true → m1 a ≡ none)
    × SameBut (1 ∷ 2 ∷ []) memory m1
task_queue_destroy-all_example =
    task_queue_destroy-all 2 memory to_do two_tasks (1 ∷ 2 ∷ []) two_tasks-IsQueue (omega arith)
