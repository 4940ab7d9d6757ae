-- ===== src/ThreadPool/Queue/Destroy.antt =====
-- The end of a task queue (frameWork/pthreadPool/pthread_pool.c).
use embedded_linux_iot_gatew.Prelude.{
  ℕ, zero, suc, ◌≡◌, ◌≤◌, refl, ap, ◌∙◌, inl, inr, true, false, Bool-cases, some, none, List, [],
  ◌∷◌, length, ◌==◌, arith,
}
use embedded_linux_iot_gatew.LinkedList.Seg.{has, AreDistinct, first_or}
use embedded_linux_iot_gatew.ThreadPool.Queue.{
  Store, put, TaskQueue, task_destroy, destroy_from, task_queue_destroy,
}
use embedded_linux_iot_gatew.ThreadPool.Queue.Order.{
  Chain, IsQueue, SameBut, put_self, put_other, chain-put,
}

destroy_from-all :
    (fuel : ℕ) (m : Store) (job : ℕ → ℕ × ℕ) (xs : List ℕ)
    → Chain m job xs none
    → AreDistinct xs
    → length xs ≤ fuel
    → (m1 : Store) × (destroy_from fuel (first_or xs none) m ≡ some m1)
      × ((a : ℕ) → has a xs ≡ true → m1 a ≡ none)
      × SameBut xs m m1
unfolding destroy_from task_destroy
destroy_from-all zero m job [] s d enough = (m, refl, λ a h. cc, λ a o. refl)
destroy_from-all (suc fuel) m job [] s d enough = (m, refl, λ a h. cc, λ a o. refl)
destroy_from-all zero m job (x ∷ xs) s d enough = absurd (omega arith)
destroy_from-all (suc fuel) m job (x ∷ xs) (e, s) (out, d) enough =
    let (m1, ends, gone, same) =
      destroy_from-all fuel (put m x none) job xs (chain-put m job x none xs none out s) d
        (omega arith) in
    (
      m1,
      rw e ends,
      λ a h. elim (Bool-cases (has a xs)) [
        | inl later ↦ gone a later
        | inr here ↦
            let at_x : a ≡ x = ground arith in
            same a here ∙ ap (put m x none) at_x ∙ put_self m x none
      ],
      λ a o.
          let a_x : (a == x) ≡ false = ground arith in
          same a (ground arith) ∙ put_other m x none a a_x,
    )

-- With fuel for as many rounds as the queue has tasks, `task_queue_destroy` ends, and the memory
-- has none of its tasks any more and all the others.
pub task_queue_destroy-all :
    (fuel : ℕ) (m : Store) (job : ℕ → ℕ × ℕ) (q : TaskQueue) (xs : List ℕ)
    → IsQueue m job q xs
    → length xs ≤ fuel
    → (m1 : Store) × (task_queue_destroy fuel q m ≡ some m1)
      × ((a : ℕ) → has a xs ≡ true → m1 a ≡ none)
      × SameBut xs m m1
unfolding task_queue_destroy
task_queue_destroy-all fuel m job q xs v enough =
    rw v.head_eq (destroy_from-all fuel m job xs v.chained v.distinct enough)
