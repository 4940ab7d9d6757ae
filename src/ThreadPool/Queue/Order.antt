-- ===== src/ThreadPool/Queue/Order.antt =====
-- The sequence of tasks that a task queue stands for (frameWork/pthreadPool/pthread_pool.c).
use embedded_linux_iot_gatew.Prelude.{
  ℕ, ◌+◌, ◌-◌, ◌≡◌, refl, sym, ap, subst, ◌∙◌, inl, inr, false, Option, none, some, List, [], ◌∷◌,
  ◌++◌, length, length-append, ◌==◌, arith,
}
use embedded_linux_iot_gatew.LinkedList.{Ptr}
use embedded_linux_iot_gatew.LinkedList.Seg.{
  has, AreDistinct, first_or, last_or, first_or-append, last_or-append, last-cases, has-append,
  AreDistinct-add, distinct_split, first_or-more,
}
use embedded_linux_iot_gatew.ThreadPool.Queue.{
  Task, task, Store, put, TaskQueue, link, push_behind, task_queue_push, tail_for, pop_from,
  task_queue_pop,
}

-- The tasks are linked to one another and the last one to `q`; `job` says what each task is to do.
abbrev pub Chain : Store → (job : ℕ → ℕ × ℕ) → List ℕ → Ptr → Type 0
Chain m job [] q = Unit
Chain m job (x ∷ xs) q = (m x ≡ some (task (job x).0 (job x).1 (first_or xs q))) × Chain m job xs q

-- The queue and the memory hold the tasks, in order.
pub record IsQueue (m : Store) (job : ℕ → ℕ × ℕ) (q : TaskQueue) (xs : List ℕ) : Type 0 where
  pub head_eq : q.head ≡ first_or xs none
  pub tail_eq : q.tail ≡ last_or none xs
  pub sized : q.size ≡ length xs
  pub chained : Chain m job xs none
  pub distinct : AreDistinct xs

pub put_self : (m : Store) (p : ℕ) (c : Option Task) → put m p c p ≡ c
unfolding put
put_self m p c = ground arith

pub put_other : (m : Store) (p : ℕ) (c : Option Task) (a : ℕ) → (a == p) ≡ false → put m p c a ≡ m a
unfolding put
put_other m p c a e = rw e

module _ (m : Store) (job : ℕ → ℕ × ℕ) where
  pub chain-put :
      (p : ℕ) (c : Option Task) (xs : List ℕ) (q : Ptr)
      → has p xs ≡ false
      → Chain m job xs q
      → Chain (put m p c) job xs q
  chain-put p c [] q out s = tt
  chain-put p c (x ∷ xs) q out (e, s) =
      (put_other m p c x (ground arith) ∙ e, chain-put p c xs q (ground arith) s)

  chain-append :
      (xs ys : List ℕ) (q : Ptr)
      → Chain m job xs (first_or ys q)
      → Chain m job ys q
      → Chain m job (xs ++ ys) q
  chain-append [] ys q s t = t
  chain-append (x ∷ xs) ys q (e, s) t = (
    e ∙ ap (λ r. some (task (job x).0 (job x).1 r)) (sym (first_or-append xs ys q)),
    chain-append xs ys q s t,
  )

  chain_split :
      (xs ys : List ℕ) (q : Ptr)
      → Chain m job (xs ++ ys) q
      → Chain m job xs (first_or ys q) × Chain m job ys q
  chain_split [] ys q s = (tt, s)
  chain_split (x ∷ xs) ys q (e, s) =
      let (a, b) = chain_split xs ys q s in
      ((e ∙ ap (λ r. some (task (job x).0 (job x).1 r)) (first_or-append xs ys q), a), b)

-- `m1` is the memory `m` but at the addresses.
abbrev pub SameBut : List ℕ → Store → Store → Type 0
SameBut xs m m1 = (a : ℕ) → has a xs ≡ false → m1 a ≡ m a

module _ (m : Store) (job : ℕ → ℕ × ℕ) (q : TaskQueue) (n : ℕ)
    (e : m n ≡ some (task (job n).0 (job n).1 none)) where
  -- Behind the last task `t`.
  push-behind :
      (ys : List ℕ) (t : ℕ)
      → IsQueue m job q (ys ++ (t ∷ []))
      → has n (ys ++ (t ∷ [])) ≡ false
      → (q1 : TaskQueue) × (m1 : Store) × (push_behind q (some t) (some n) m ≡ some (q1, m1))
        × IsQueue m1 job q1 ((ys ++ (t ∷ [])) ++ (n ∷ []))
        × SameBut (ys ++ (t ∷ [])) m m1
  unfolding push_behind link
  push-behind ys t v out =
      let (s, (et, _)) = chain_split m job ys (t ∷ []) none v.chained in
      let (dy, _, apart) = distinct_split ys (t ∷ []) v.distinct in
      let parts = has-append n ys (t ∷ []) in
      let n_t : (n == t) ≡ false = ground arith in
      let t_ys : has t ys ≡ false = apart t (ground arith) in
      let m1 : Store = put m t (some (task (job t).0 (job t).1 (some n))) in
      (
        record q { tail = some n; size = q.size + 1 },
        m1,
        rw et refl,
        record {
          head_eq = v.head_eq ∙ first_or-more ys t (n ∷ []);
          tail_eq = sym (last_or-append none (ys ++ (t ∷ [])) (n ∷ []));
          sized = omega (arith, v.sized, length-append (ys ++ (t ∷ [])) (n ∷ []));
          chained =
              chain-append m1 job (ys ++ (t ∷ [])) (n ∷ []) none
                (chain-append m1 job ys (t ∷ []) (some n) (chain-put m job t _ ys (some t) t_ys s)
                  (put_self m t _, tt))
                (put_other m t _ n n_t ∙ e, tt);
          distinct = AreDistinct-add (ys ++ (t ∷ [])) n v.distinct out;
        },
        λ a o. let parts_a = has-append a ys (t ∷ []) in put_other m t _ a (ground arith),
      )

-- Pushing a new task, which is in the memory and not in the queue, returns the queue with the task
-- behind the others; the memory changes at no other task but those of the queue, and what each is to
-- do is as before.
pub task_queue_push-IsQueue :
    (m : Store) (job : ℕ → ℕ × ℕ) (q : TaskQueue) (xs : List ℕ) (n : ℕ)
    → IsQueue m job q xs
    → m n ≡ some (task (job n).0 (job n).1 none)
    → has n xs ≡ false
    → (q1 : TaskQueue) × (m1 : Store) × (task_queue_push q (some n) m ≡ some (q1, m1))
      × IsQueue m1 job q1 (xs ++ (n ∷ []))
      × SameBut xs m m1
unfolding task_queue_push
task_queue_push-IsQueue m job q xs n v e out = elim (last-cases xs) [
  | inl no_task ↦
      let v1 = subst (IsQueue m job q) no_task v in
      rw (no_task, v1.tail_eq, push_behind)
        (
          record { head = some n; tail = some n; size = q.size + 1 },
          m,
          refl,
          record {
            head_eq = refl;
            tail_eq = refl;
            sized = omega (arith, v1.sized);
            chained = (e, tt);
            distinct = (refl, tt);
          },
          λ a o. refl,
        )
  | inr (ys, t, split) ↦
      let v1 = subst (IsQueue m job q) split v in
      rw (split, v1.tail_eq, last_or-append none ys (t ∷ []))
        (push-behind m job q n e ys t v1 (sym (ap (has n) split) ∙ out))
]

tail_for-last_or :
    (x : ℕ) (xs : List ℕ) → tail_for (first_or xs none) (last_or (some x) xs) ≡ last_or none xs
tail_for-last_or x [] = refl
tail_for-last_or x (y ∷ ys) = refl

-- What a pop returns, and what it leaves.
abbrev pub Pops :
    (m : Store) (job : ℕ → ℕ × ℕ) → List ℕ → TaskQueue → Option (Ptr × TaskQueue) → Type 0
Pops m job [] q o = o ≡ some (none, q)
Pops m job (x ∷ xs) q o = (q1 : TaskQueue) × (o ≡ some (some x, q1)) × IsQueue m job q1 xs

-- A pop from a queue with tasks returns the first, and the queue has the others in their order; from
-- a queue with none it returns NULL and changes nothing.
pub task_queue_pop-IsQueue :
    (m : Store) (job : ℕ → ℕ × ℕ) (q : TaskQueue) (xs : List ℕ)
    → IsQueue m job q xs
    → Pops m job xs q (task_queue_pop q m)
unfolding task_queue_pop pop_from
task_queue_pop-IsQueue m job q [] v = ap (λ p. pop_from q p m) v.head_eq
task_queue_pop-IsQueue m job q (x ∷ xs) v =
    rw (v.head_eq, pop_from, v.chained.0)
      (
        record {
          head = first_or xs none;
          tail = tail_for (first_or xs none) q.tail;
          size = q.size - 1;
        },
        refl,
        record {
          head_eq = refl;
          tail_eq = ap (tail_for (first_or xs none)) v.tail_eq ∙ tail_for-last_or x xs;
          sized = omega (arith, v.sized);
          chained = v.chained.1;
          distinct = v.distinct.1;
        },
      )
