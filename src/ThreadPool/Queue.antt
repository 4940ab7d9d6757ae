-- ===== src/ThreadPool/Queue.antt =====
-- The task queue of the pool (frameWork/pthreadPool/pthread_pool.c): a chain of tasks in the memory,
-- with its first task, its last one and their number. A pointer is an address, NULL is `none`; a read
-- or a write through NULL or at an address that holds no task is `none`. The mutex of the queue makes
-- each function one step.
pub mod Order
pub mod Destroy
use embedded_linux_iot_gatew.Prelude.{
  ℕ, zero, suc, ◌+◌, ◌-◌, Option, none, some, ◌==◌, if◌then◌else◌, ◌>>=◌,
}
use embedded_linux_iot_gatew.LinkedList.{Ptr}

-- `task_t`; functions and their arguments are numbers.
pub record Task : Type 0 where
  pub func : ℕ
  pub arg : ℕ
  pub next : Ptr

abbrev pub task : (func arg : ℕ) → Ptr → Task
task f a n = record { func = f; arg = a; next = n }

abbrev pub Store : Type 0
Store = ℕ → Option Task

unfoldable pub put : Store → ℕ → Option Task → Store
put m p c a = if a == p then c else m a

-- `task_queue_t`
pub record TaskQueue : Type 0 where
  pub head : Ptr
  pub tail : Ptr
  pub size : ℕ

-- `task_create`, given what `malloc` returns.
unfoldable pub task_create : (func arg : ℕ) (block : Ptr) → Store → Option (Ptr × Store)
unfolding put
task_create f a none m = none
task_create f a (some p) m = some (some p, put m p (some (task f a none)))

-- `task_destroy`
unfoldable pub task_destroy : Ptr → Store → Option Store
unfolding put
task_destroy none m = some m
task_destroy (some p) m = m p >>= λ _. some (put m p none)

abbrev pub task_queue_create : TaskQueue
task_queue_create = record { head = none; tail = none; size = 0 }

-- queue->tail->next = task
unfoldable pub link : Ptr → Ptr → Store → Option Store
unfolding put
link none q m = none
link (some p) q m = m p >>= λ c. some (put m p (some (record c { next = q })))

unfoldable pub push_behind : TaskQueue → (tail task : Ptr) → Store → Option (TaskQueue × Store)
unfolding link
push_behind q none p m = some (record { head = p; tail = p; size = q.size + 1 }, m)
push_behind q (some t) p m =
    link (some t) p m >>= λ m1. some (record q { tail = p; size = q.size + 1 }, m1)

-- `task_queue_push`
unfoldable pub task_queue_push : TaskQueue → (task : Ptr) → Store → Option (TaskQueue × Store)
unfolding push_behind
task_queue_push q p m = push_behind q q.tail p m

-- The last task of a queue whose first one is now `head`.
abbrev pub tail_for : (head tail : Ptr) → Ptr
tail_for none t = none
tail_for (some p) t = t

unfoldable pub pop_from : TaskQueue → (head : Ptr) → Store → Option (Ptr × TaskQueue)
pop_from q none m = some (none, q)
pop_from q (some p) m = m p >>= λ c.
    some (some p, record { head = c.next; tail = tail_for c.next q.tail; size = q.size - 1 })

-- `task_queue_pop`
unfoldable pub task_queue_pop : TaskQueue → Store → Option (Ptr × TaskQueue)
unfolding pop_from
task_queue_pop q m = pop_from q q.head m

-- The loop of `task_queue_destroy` from a task on. The fuel is the number of its turns.
unfoldable pub destroy_from : ℕ → Ptr → Store → Option Store
unfolding task_destroy
destroy_from fuel none m = some m
destroy_from zero (some p) m = none
destroy_from (suc fuel) (some p) m =
    m p >>= λ c. task_destroy (some p) m >>= destroy_from fuel c.next

-- `task_queue_destroy`
unfoldable pub task_queue_destroy : (fuel : ℕ) → TaskQueue → Store → Option Store
unfolding destroy_from
task_queue_destroy fuel q m = destroy_from fuel q.head m
