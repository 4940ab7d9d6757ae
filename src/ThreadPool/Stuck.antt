-- ===== src/ThreadPool/Stuck.antt =====
-- Workers that wait, and workers that leave (frameWork/pthreadPool/pthread_pool.c).
use embedded_linux_iot_gatew.Prelude.{
  ℕ, zero, suc, ◌≡◌, refl, sym, ap, ◌∙◌, Option-cases, inl, inr, Option, none, some, List, [], ◌∷◌,
  ◌++◌, get_elem?, set, map, append_assoc, append-nil, unsome, subst,
}
use embedded_linux_iot_gatew.ThreadPool.{
  Place, waiting, left, Pool, work, woken, Event, push, step, created, destroy, spurious, work_at,
  wake_at, happen, run,
}
use embedded_linux_iot_gatew.ThreadPool.Accounts.{pushed}

-- Every worker stands at the place.
abbrev pub AreAll : Place → List Place → Type 0
AreAll q [] = Unit
AreAll q (p ∷ ps) = (p ≡ q) × AreAll q ps

AreAll-get :
    (q : Place) (ps : List Place) (i : ℕ) (p : Place)
    → AreAll q ps
    → get_elem? ps i ≡ some p
    → p ≡ q
AreAll-get q [] i p all h = cc
AreAll-get q (x ∷ ps) zero p all h = sym (unsome h) ∙ all.0
AreAll-get q (x ∷ ps) (suc i) p all h = AreAll-get q ps i p all.1 h

-- No worker returns from its wait for no reason, and the pool is not destroyed.
abbrev pub AreQuiet : List Event → Type 0
AreQuiet [] = Unit
AreQuiet (destroy ∷ es) = ⊥
AreQuiet (spurious i ∷ es) = ⊥
AreQuiet (push t ∷ es) = AreQuiet es
AreQuiet (step i ∷ es) = AreQuiet es
AreQuiet (created ∷ es) = AreQuiet es

step-AreAll :
    (q : Place) (s : Pool) (i : ℕ)
    → ((p : Place) → p ≡ q → work s i p ≡ s)
    → AreAll q s.workers
    → happen s (step i) ≡ s
unfolding happen work_at
step-AreAll q s i stays all = elim (Option-cases (get_elem? s.workers i)) [
  | inl nobody ↦ rw (nobody, work_at) refl
  | inr (p, h) ↦ rw (h, work_at) (stays p (AreAll-get q s.workers i p all h))
]

work-waiting : (s : Pool) (i : ℕ) (p : Place) → p ≡ waiting → work s i p ≡ s
unfolding work
work-waiting s i p e = ap (work s i) e

work-left : (s : Pool) (i : ℕ) (p : Place) → p ≡ left → work s i p ≡ s
unfolding work
work-left s i p e = ap (work s i) e

-- What becomes of the rest, when a state keeps all its tasks.
abbrev IsIdle : List Event → (s r : Pool) → Type 0
IsIdle es s r =
    (r.executed ≡ s.executed) × (r.queue ≡ s.queue ++ pushed es) × (r.workers ≡ s.workers)

step-IsIdle :
    (i : ℕ) (es : List Event) (s : Pool)
    → happen s (step i) ≡ s
    → IsIdle es s (run s es)
    → IsIdle es s (run (happen s (step i)) es)
unfolding pushed
step-IsIdle i es s e idle = subst (λ r. IsIdle es s (run r es)) (sym e) idle

push-IsIdle :
    (t : ℕ) (es : List Event) (s r : Pool)
    → IsIdle es (happen s (push t)) r
    → IsIdle (push t ∷ es) s r
unfolding pushed happen
push-IsIdle t es s r (ran, queued, placed) =
    (ran, queued ∙ append_assoc s.queue (t ∷ []) (pushed es), placed)

-- Once every worker waits, as long as none returns from its wait for no reason and the pool is not
-- destroyed, no event makes a worker leave its wait: no task is run, and every task that is pushed
-- stays in the queue.
pub run_stuck :
    (es : List Event) (s : Pool)
    → AreAll waiting s.workers
    → AreQuiet es
    → ((run s es).executed ≡ s.executed)
      × ((run s es).queue ≡ s.queue ++ pushed es)
      × ((run s es).workers ≡ s.workers)
unfolding run pushed
run_stuck [] s all quiet = (refl, sym (append-nil s.queue), refl)
run_stuck (push t ∷ es) s all quiet =
    push-IsIdle t es s (run (happen s (push t)) es) (run_stuck es (happen s (push t)) all quiet)
run_stuck (step i ∷ es) s all quiet =
    step-IsIdle i es s (step-AreAll waiting s i (work-waiting s i) all) (run_stuck es s all quiet)
run_stuck (created ∷ es) s all quiet = run_stuck es (happen s created) all quiet
run_stuck (destroy ∷ es) s all quiet = absurd quiet
run_stuck (spurious i ∷ es) s all quiet = absurd quiet

-- A worker that has left stays where it is when it is let go.
woken-AreAll : (ps : List Place) → AreAll left ps → AreAll left (map woken ps)
woken-AreAll [] all = tt
woken-AreAll (p ∷ ps) (e, all) = (ap woken e, woken-AreAll ps all)

set-AreAll : (q : Place) (ps : List Place) (i : ℕ) → AreAll q ps → AreAll q (set ps i q)
set-AreAll q [] i all = all
set-AreAll q (p ∷ ps) zero all = (refl, all.1)
set-AreAll q (p ∷ ps) (suc i) all = (all.0, set-AreAll q ps i all.1)

wake_at-AreAll :
    (s : Pool) (i : ℕ)
    → AreAll left s.workers
    → (p : Option Place) → get_elem? s.workers i ≡ p
    → AreAll left (wake_at s i p).workers
unfolding wake_at
wake_at-AreAll s i all none h = all
wake_at-AreAll s i all (some p) h =
    subst (λ q. AreAll left (set s.workers i (woken q))) (sym (AreAll-get left s.workers i p all h))
      (set-AreAll left s.workers i all)

abbrev IsOver : List Event → (s r : Pool) → Type 0
IsOver es s r = (r.executed ≡ s.executed) × (r.queue ≡ s.queue ++ pushed es)

step-IsOver :
    (i : ℕ) (es : List Event) (s : Pool)
    → happen s (step i) ≡ s
    → IsOver es s (run s es)
    → IsOver es s (run (happen s (step i)) es)
step-IsOver i es s e over = subst (λ r. IsOver es s (run r es)) (sym e) over

wake_at-IsOver :
    (i : ℕ) (es : List Event) (s r : Pool) (p : Option Place)
    → IsOver es (wake_at s i p) r
    → IsOver es s r
unfolding wake_at
wake_at-IsOver i es s r none over = over
wake_at-IsOver i es s r (some p) over = over

-- Once every worker has left, no task is run any more, whatever happens: what is pushed stays in the
-- queue.
pub run_left :
    (es : List Event) (s : Pool)
    → AreAll left s.workers
    → ((run s es).executed ≡ s.executed) × ((run s es).queue ≡ s.queue ++ pushed es)
unfolding run pushed
run_left [] s all = (refl, sym (append-nil s.queue))
run_left (push t ∷ es) s all =
    let (ran, queued) = run_left es (happen s (push t)) all in
    (ran, queued ∙ append_assoc s.queue (t ∷ []) (pushed es))
run_left (step i ∷ es) s all =
    step-IsOver i es s (step-AreAll left s i (work-left s i) all) (run_left es s all)
run_left (created ∷ es) s all = run_left es (happen s created) all
run_left (destroy ∷ es) s all = run_left es (happen s destroy) (woken-AreAll s.workers all)
run_left (spurious i ∷ es) s all =
    let p = get_elem? s.workers i in
    wake_at-IsOver i es s (run (wake_at s i p) es) p
      (run_left es (wake_at s i p) (wake_at-AreAll s i all p refl))
