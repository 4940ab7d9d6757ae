-- ===== src/ThreadPool.antt =====
-- frameWork/pthreadPool/pthread_pool.c and pthread_pool.h: the worker threads of the pool and the
-- threads that hand in tasks, as a state and the steps of all threads. A step is what a thread does
-- between two points at which another thread can interfere; the mutex of the queue makes a push and a
-- pop one step each. The queue is the sequence of its tasks here; ThreadPool/Queue has it in the memory.
pub mod Queue
pub mod Accounts
pub mod Stuck
pub mod Start
mod Tests
use embedded_linux_iot_gatew.Prelude.{
  ℕ, suc, ◌+◌, Bool, true, false, Option, none, some, List, [], ◌∷◌, ◌++◌, get_elem?, set, map,
  replicate,
}

-- Where a worker stands in `thread_func`: before the test of `running`, before `task_queue_pop`,
-- before the call of a task, before the count of a task that is done, before `pthread_cond_wait`, in
-- it, and behind the loop.
pub data Place : Type 0 where
  testing popping counting going_to_wait waiting left : Place
  calling : ℕ → Place

-- The pool, and what has happened: the tasks in the order in which they were taken from the queue,
-- and in the order in which they were run.
pub record Pool : Type 0 where
  pub queue : List ℕ
  pub running : Bool
  pub tasks_done : ℕ
  pub workers : List Place
  pub taken : List ℕ
  pub executed : List ℕ

-- `task_queue_pop`
unfoldable pub pop : List ℕ → Option (ℕ × List ℕ)
pop [] = none
pop (t ∷ ts) = some (t, ts)

abbrev pub to_place : Pool → ℕ → Place → Pool
to_place s i p = record s { workers = set s.workers i p }

unfoldable pub take_task : Pool → ℕ → Option (ℕ × List ℕ) → Pool
take_task s i none = to_place s i going_to_wait
take_task s i (some (t, ts)) = record (to_place s i (calling t)) {
  queue = ts;
  taken = s.taken ++ (t ∷ []);
}

-- The next step of the worker `i` of `thread_func`, which stands at a place. A worker that waits takes
-- no step of its own.
unfoldable pub work : Pool → ℕ → Place → Pool
unfolding pop take_task
work s i testing = to_place s i (elim s.running [ true ↦ popping | false ↦ left ])
work s i popping = take_task s i (pop s.queue)
work s i (calling t) = record (to_place s i counting) { executed = s.executed ++ (t ∷ []) }
work s i counting = record (to_place s i testing) { tasks_done = s.tasks_done + 1 }
work s i going_to_wait = to_place s i waiting
work s i waiting = s
work s i left = s

-- A worker that waits is let go.
abbrev pub woken : Place → Place
woken waiting = testing
woken p = p

-- What can happen: `task_queue_push`, a step of a worker, the end of `thread_pool_create`, which
-- comes when the threads already run, the start of `thread_pool_destroy`, and a return from
-- `pthread_cond_wait` for no reason, which POSIX allows.
pub data Event : Type 0 where
  push : ℕ → Event
  step : ℕ → Event
  created : Event
  destroy : Event
  spurious : ℕ → Event

unfoldable pub work_at : Pool → ℕ → Option Place → Pool
unfolding work
work_at s i none = s
work_at s i (some p) = work s i p

unfoldable pub wake_at : Pool → ℕ → Option Place → Pool
wake_at s i none = s
wake_at s i (some p) = to_place s i (woken p)

-- The last statements of `thread_pool_create`, which come when the threads already run.
unfoldable pub finish_create : Pool → Pool
finish_create s = record s { running = true; tasks_done = 0 }

-- The start of `thread_pool_destroy`, up to the broadcast. Behind it the threads are joined, and
-- `task_queue_destroy` frees the tasks that are left, which ThreadPool/Queue has.
unfoldable pub destroy_pool : Pool → Pool
destroy_pool s = record s { running = false; workers = map woken s.workers }

-- The push signals nobody: the call of `pthread_cond_signal` is commented out.
unfoldable pub happen : Pool → Event → Pool
unfolding work_at wake_at finish_create destroy_pool
happen s (push t) = record s { queue = s.queue ++ (t ∷ []) }
happen s (step i) = work_at s i (get_elem? s.workers i)
happen s created = finish_create s
happen s destroy = destroy_pool s
happen s (spurious i) = wake_at s i (get_elem? s.workers i)

unfoldable pub run : Pool → List Event → Pool
unfolding happen
run s [] = s
run s (e ∷ es) = run (happen s e) es

-- After the threads of `thread_pool_create` have been made; `running` is what stood in the memory.
unfoldable pub create : (running : Bool) → (thread_count : ℕ) → Pool
create running thread_count = record {
  queue = [];
  running = running;
  tasks_done = 0;
  workers = replicate thread_count testing;
  taken = [];
  executed = [];
}
