-- ===== src/ThreadPool/Accounts.antt =====
-- What becomes of the tasks (frameWork/pthreadPool/pthread_pool.c).
use embedded_linux_iot_gatew.Prelude.{
  ℕ, zero, suc, ◌+◌, ◌≡◌, refl, sym, ap, ap₂, ◌∙◌, unsome, Bool, Bool-cases, Option-cases, inl, inr,
  some, List, [], ◌∷◌, ◌++◌, get_elem?, set, map, replicate, ◌==◌, if◌then◌else◌, arith,
  append_assoc, append-nil, subst,
}
use embedded_linux_iot_gatew.ThreadPool.{
  Place, testing, popping, counting, going_to_wait, waiting, left, calling, Pool, pop, take_task,
  work, woken, Event, push, step, created, destroy, spurious, work_at, wake_at, happen, run, create,
}

unfoldable pub count : ℕ → List ℕ → ℕ
count t [] = 0
count t (u ∷ us) = let rest = count t us in if t == u then rest + 1 else rest

abbrev pub holds : ℕ → Place → ℕ
holds t (calling u) = if t == u then 1 else 0
holds t p = 0

-- How many workers have the task and have not called it yet.
unfoldable pub in_hand : ℕ → List Place → ℕ
in_hand t [] = 0
in_hand t (p ∷ ps) = holds t p + in_hand t ps

count-append : (t : ℕ) (us vs : List ℕ) → count t (us ++ vs) ≡ count t us + count t vs
unfolding count
count-append t [] vs = omega arith
count-append t (u ∷ us) vs = ground (arith, count-append t us vs)

in_hand-set :
    (t : ℕ) (ps : List Place) (i : ℕ) (p q : Place)
    → get_elem? ps i ≡ some p
    → in_hand t (set ps i q) + holds t p ≡ in_hand t ps + holds t q
unfolding in_hand
in_hand-set t [] i p q h = cc
in_hand-set t (x ∷ ps) zero p q h = omega (arith, ap (holds t) (unsome h))
in_hand-set t (x ∷ ps) (suc i) p q h = omega (arith, in_hand-set t ps i p q h)

holds-woken : (t : ℕ) (p : Place) → holds t (woken p) ≡ holds t p
holds-woken t testing = refl
holds-woken t popping = refl
holds-woken t counting = refl
holds-woken t going_to_wait = refl
holds-woken t waiting = refl
holds-woken t left = refl
holds-woken t (calling u) = refl

in_hand-woken : (t : ℕ) (ps : List Place) → in_hand t (map woken ps) ≡ in_hand t ps
unfolding in_hand
in_hand-woken t [] = refl
in_hand-woken t (p ∷ ps) = ap₂ ◌+◌ (holds-woken t p) (in_hand-woken t ps)

count-one : (t u : ℕ) → count t (u ∷ []) ≡ holds t (calling u)
unfolding count
count-one t u = ground arith

-- The tasks that were pushed.
unfoldable pub pushed : List Event → List ℕ
pushed [] = []
pushed (push t ∷ es) = t ∷ pushed es
pushed (_ ∷ es) = pushed es

-- Each task that was taken has been run, or is in a worker's hands.
abbrev pub AreAccounted : Pool → Type 0
AreAccounted s = (t : ℕ) → count t s.taken ≡ count t s.executed + in_hand t s.workers

work-AreAccounted :
    (s : Pool) (i : ℕ) (p : Place)
    → get_elem? s.workers i ≡ some p
    → AreAccounted s
    → AreAccounted (work s i p)
unfolding work take_task
work-AreAccounted s i testing h a t = elim (Bool-cases s.running) [
  | inl on ↦ rw on (omega (arith, a t, in_hand-set t s.workers i testing popping h))
  | inr off ↦ rw off (omega (arith, a t, in_hand-set t s.workers i testing left h))
]
work-AreAccounted s i popping h a t = elim (Option-cases (pop s.queue)) [
  | inl none_left ↦
      rw none_left (omega (arith, a t, in_hand-set t s.workers i popping going_to_wait h))
  | inr ((u, us), e) ↦ rw e (
      omega (
        arith,
        a t,
        count-append t s.taken (u ∷ []),
        count-one t u,
        in_hand-set t s.workers i popping (calling u) h,
      ))
]
work-AreAccounted s i (calling u) h a t = omega (
  arith,
  a t,
  count-append t s.executed (u ∷ []),
  count-one t u,
  in_hand-set t s.workers i (calling u) counting h,
)
work-AreAccounted s i counting h a t =
    omega (arith, a t, in_hand-set t s.workers i counting testing h)
work-AreAccounted s i going_to_wait h a t =
    omega (arith, a t, in_hand-set t s.workers i going_to_wait waiting h)
work-AreAccounted s i waiting h a t = a t
work-AreAccounted s i left h a t = a t

-- The tasks that were taken and those in the queue are those that were pushed, in order.
abbrev pub IsInOrder : List ℕ → Pool → Type 0
IsInOrder all s = s.taken ++ s.queue ≡ all

pop_lem : (q : List ℕ) (u : ℕ) (us : List ℕ) → pop q ≡ some (u, us) → q ≡ u ∷ us
unfolding pop
pop_lem [] u us h = cc
pop_lem (x ∷ xs) u us h =
    let pair : ◌≡◌ {A = ℕ × List ℕ} (x, xs) (u, us) = unsome h in
    ap₂ ◌∷◌ (ap (λ (r : ℕ × List ℕ). r.0) pair) (ap (λ (r : ℕ × List ℕ). r.1) pair)

work-IsInOrder :
    (all : List ℕ) (s : Pool) (i : ℕ) (p : Place) → IsInOrder all s → IsInOrder all (work s i p)
unfolding work take_task
work-IsInOrder all s i testing o = o
work-IsInOrder all s i popping o = elim (Option-cases (pop s.queue)) [
  | inl none_left ↦ rw none_left o
  | inr ((u, us), e) ↦
      rw e (
        append_assoc s.taken (u ∷ []) us
        ∙ ap (λ q. s.taken ++ q) (sym (pop_lem s.queue u us e))
        ∙ o)
]
work-IsInOrder all s i (calling u) o = o
work-IsInOrder all s i counting o = o
work-IsInOrder all s i going_to_wait o = o
work-IsInOrder all s i waiting o = o
work-IsInOrder all s i left o = o

-- Both at once.
abbrev AreKept : List ℕ → Pool → Type 0
AreKept all s = IsInOrder all s × AreAccounted s

happen-AreKept :
    (e : Event) (all : List ℕ) (s : Pool)
    → AreKept all s
    → AreKept (all ++ pushed (e ∷ [])) (happen s e)
unfolding happen pushed
happen-AreKept (push t) all s (o, a) =
    (sym (append_assoc s.taken s.queue (t ∷ [])) ∙ ap (λ l. l ++ (t ∷ [])) o, a)
happen-AreKept (step i) all s (o, a) = elim (Option-cases (get_elem? s.workers i)) [
  | inl nobody ↦ rw (nobody, work_at, append-nil all) (o, a)
  | inr (p, h) ↦
      rw (h, work_at, append-nil all) (work-IsInOrder all s i p o, work-AreAccounted s i p h a)
]
happen-AreKept created all s (o, a) = rw (append-nil all) (o, a)
happen-AreKept destroy all s (o, a) =
    rw (append-nil all)
      (o, λ t. a t ∙ ap (λ n. count t s.executed + n) (sym (in_hand-woken t s.workers)))
happen-AreKept (spurious i) all s (o, a) = elim (Option-cases (get_elem? s.workers i)) [
  | inl nobody ↦ rw (nobody, wake_at, append-nil all) (o, a)
  | inr (p, h) ↦
      rw (h, wake_at, append-nil all)
        (o, λ t. omega (arith, a t, in_hand-set t s.workers i p (woken p) h, holds-woken t p))
]

pushed-step : (e : Event) (es : List Event) → pushed (e ∷ es) ≡ pushed (e ∷ []) ++ pushed es
unfolding pushed
pushed-step (push t) es = refl
pushed-step (step i) es = refl
pushed-step created es = refl
pushed-step destroy es = refl
pushed-step (spurious i) es = refl

run-AreKept :
    (es : List Event) (all : List ℕ) (s : Pool)
    → AreKept all s
    → AreKept (all ++ pushed es) (run s es)
unfolding run pushed count
run-AreKept [] all s k = rw (append-nil all) k
run-AreKept (e ∷ es) all s k =
    subst (λ l. AreKept l (run (happen s e) es))
      (append_assoc all (pushed (e ∷ [])) (pushed es) ∙ ap (λ l. all ++ l) (sym (pushed-step e es)))
      (run-AreKept es (all ++ pushed (e ∷ [])) (happen s e) (happen-AreKept e all s k))

in_hand-testing : (t n : ℕ) → in_hand t (replicate n testing) ≡ 0
unfolding in_hand
in_hand-testing t zero = refl
in_hand-testing t (suc n) = omega (arith, in_hand-testing t n)

create-AreKept : (running : Bool) (n : ℕ) → AreKept [] (create running n)
unfolding create count
create-AreKept running n = (refl, λ t. omega (arith, in_hand-testing t n))

-- However the pushes, the steps of the workers, the end of the creation, the start of a destruction
-- up to its broadcast, and spurious wakeups interleave: the tasks that the workers have taken,
-- followed by those in the queue, are the pushed ones in order, and each task was run as often as it
-- was taken, but for the workers that have taken it and not yet called it. So before the destruction
-- frees the queue, with the tasks that are left in it, no task is lost, and none is run twice for
-- one push.
pub run_accounts :
    (running : Bool) (thread_count : ℕ) (es : List Event)
    → let s = run (create running thread_count) es in
      (s.taken ++ s.queue ≡ pushed es)
      × ((t : ℕ) → count t s.taken ≡ count t s.executed + in_hand t s.workers)
run_accounts running thread_count es =
    run-AreKept es [] (create running thread_count) (create-AreKept running thread_count)
