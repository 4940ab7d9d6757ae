-- ===== src/ThreadPool/Start.antt =====
-- Workers that run before `thread_pool_create` has set `running`
-- (frameWork/pthreadPool/pthread_pool.c).
use embedded_linux_iot_gatew.Prelude.{
  ℕ, zero, suc, ◌+◌, ◌≡◌, refl, sym, ap, ap₂, ◌∙◌, false, some, List, [], ◌∷◌, ◌++◌, length,
  length-append, get_elem?, set, replicate, append_assoc, subst,
}
use embedded_linux_iot_gatew.ThreadPool.{
  Place, testing, left, Pool, work, Event, step, created, work_at, happen, run, create,
}
use embedded_linux_iot_gatew.ThreadPool.Accounts.{pushed}
use embedded_linux_iot_gatew.ThreadPool.Stuck.{AreAll, run_left}

-- One step of each of the workers from the first.
unfoldable pub each_steps : (first count : ℕ) → List Event
each_steps i zero = []
each_steps i (suc n) = step i ∷ each_steps (i + 1) n

abbrev with_workers : List Place → Pool
unfolding create
with_workers ps = record (create false 0) { workers = ps }

get_elem?-middle :
    (ps : List Place) (p : Place) (qs : List Place)
    → get_elem? (ps ++ (p ∷ qs)) (length ps) ≡ some p
get_elem?-middle [] p qs = refl
get_elem?-middle (x ∷ ps) p qs = get_elem?-middle ps p qs

set-middle :
    (ps : List Place) (p q : Place) (qs : List Place)
    → set (ps ++ (p ∷ qs)) (length ps) q ≡ (ps ++ (q ∷ [])) ++ qs
set-middle [] p q qs = refl
set-middle (x ∷ ps) p q qs = ap (λ r. x ∷ r) (set-middle ps p q qs)

leave :
    (ps qs : List Place)
    → happen (with_workers (ps ++ (testing ∷ qs))) (step (length ps))
      ≡ with_workers ((ps ++ (left ∷ [])) ++ qs)
unfolding happen work_at work create
leave ps qs =
    rw (get_elem?-middle ps testing qs, work_at) (ap with_workers (set-middle ps testing left qs))

leave_all :
    (n : ℕ) (ps : List Place)
    → run (with_workers (ps ++ replicate n testing)) (each_steps (length ps) n)
      ≡ with_workers (ps ++ replicate n left)
unfolding run each_steps
leave_all zero ps = refl
leave_all (suc n) ps =
    ap₂ (λ s i. run s (each_steps i n)) (leave ps (replicate n testing))
      (sym (length-append ps (left ∷ [])))
    ∙ leave_all n (ps ++ (left ∷ []))
    ∙ ap with_workers (append_assoc ps (left ∷ []) (replicate n left))

replicate-AreAll : (n : ℕ) (p : Place) → AreAll p (replicate n p)
replicate-AreAll zero p = tt
replicate-AreAll (suc n) p = (refl, replicate-AreAll n p)

run-append : (es fs : List Event) (s : Pool) → run s (es ++ fs) ≡ run (run s es) fs
unfolding run
run-append [] fs s = refl
run-append (e ∷ es) fs s = run-append es fs (happen s e)

-- When each new thread gets to its first test of `running` before `thread_pool_create` sets it, and
-- the memory of the pool was cleared, every worker ends at once: whatever happens afterwards, no task
-- is ever run, and each task that is pushed stays in the queue.
pub early_exit :
    (thread_count : ℕ) (es : List Event)
    → let s = run (create false thread_count) (each_steps 0 thread_count ++ (created ∷ es)) in
      (s.executed ≡ []) × (s.queue ≡ pushed es)
unfolding create pushed
early_exit n es =
    subst (λ s. (s.executed ≡ []) × (s.queue ≡ pushed es))
      (sym (
        run-append (each_steps 0 n) (created ∷ es) (create false n)
        ∙ ap (λ s. run s (created ∷ es)) (leave_all n [])))
      (run_left (created ∷ es) (with_workers (replicate n left)) (replicate-AreAll n left))
