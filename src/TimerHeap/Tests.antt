-- ===== src/TimerHeap/Tests.antt =====
-- A heap of two timers, and the theorems at it.
use embedded_linux_iot_gatew.Prelude.{
  ℕ, ◌≡◌, refl, inl, inr, Option, none, some, List, [], ◌∷◌, ◌==◌, if◌then◌else◌, arith,
}
use embedded_linux_iot_gatew.TimerHeap.{
  TimerNode, MaxHeap, init_max_heap, swapped, swap_node, set_ref, upd, parent_int, sift_up_loop,
  heap_sift_up, sift_down_loop, child, heap_sift_down, settle, heap_insert, heap_del, heap_pop,
  heap_pop_back, heap_tick,
}
use embedded_linux_iot_gatew.TimerHeap.Insert.{IsOrdered, Inserts, heap_insert-Inserts}
use embedded_linux_iot_gatew.TimerHeap.Delete.{Deletes, heap_del-Deletes}
use embedded_linux_iot_gatew.TimerHeap.Tick.{IsTicked, heap_tick-IsTicked}
use embedded_linux_iot_gatew.TimerHeap.Up.{heap_insert_outside}

abbrev timer : (id expires cb : ℕ) → TimerNode
timer id expires cb = record { id = id; expires = expires; cb = cb }

abbrev block : ℕ → TimerNode
block c = timer 0 0 0

-- The timer 7 is at the root, and the timer 5 below it.
abbrev two_timers : MaxHeap
two_timers = record {
  array = λ c. if c == 0 then timer 7 10 1 else (if c == 1 then timer 5 20 2 else block c);
  capacity = 4;
  size = 2;
  gs_ref = λ k. if k == 5 then 1 else 0;
}

two_timers-IsOrdered : IsOrdered two_timers
two_timers-IsOrdered = record {
  fits = record { ids = λ c m. ground arith; small = omega arith };
  room = omega arith;
  ordered = λ c p q. ground arith;
}

-- A new timer that comes first, and a known one that is put off.
heap_insert-Inserts_example :
    (h1 : MaxHeap) × (heap_insert 64 9 2 3 1 two_timers ≡ some h1)
    × IsOrdered h1
    × Inserts 9 2 3 1 two_timers h1 0
heap_insert-Inserts_example =
    heap_insert-Inserts 9 2 3 1 two_timers two_timers-IsOrdered (omega arith) (omega arith)
      (inl refl)

put_off :
    (h1 : MaxHeap) × (heap_insert 64 5 2 3 1 two_timers ≡ some h1)
    × IsOrdered h1
    × Inserts 5 2 3 1 two_timers h1 1
put_off =
    heap_insert-Inserts 5 2 3 1 two_timers two_timers-IsOrdered (omega arith) (omega arith)
      (inr (omega arith))

heap_del-Deletes_example :
    (h1 : MaxHeap) × (heap_del 64 1 two_timers ≡ some h1) × IsOrdered h1 × Deletes 1 two_timers h1
heap_del-Deletes_example =
    heap_del-Deletes 1 two_timers two_timers-IsOrdered (omega arith) (omega arith) (omega arith)

-- The same timers in an array of two.
abbrev full_heap : MaxHeap
full_heap = record two_timers { capacity = 2 }

full_heap-IsOrdered : IsOrdered full_heap
full_heap-IsOrdered = record {
  fits = record { ids = λ c m. ground arith; small = omega arith };
  room = omega arith;
  ordered = λ c p q. ground arith;
}

heap_tick-IsTicked_example :
    (fired : List TimerNode) × (h1 : MaxHeap) × (heap_tick 2 64 (λ k. 15) two_timers
      ≡ some (fired, h1))
    × IsTicked (λ k. 15) 0 two_timers h1 fired
heap_tick-IsTicked_example =
    heap_tick-IsTicked 2 (λ k. 15) two_timers two_timers-IsOrdered (omega arith) (omega arith)
      (omega arith)

heap_insert_outside_example : heap_insert 32 7 10 1 0 (init_max_heap 16 block (λ k. 0)) ≡ none
heap_insert_outside_example = heap_insert_outside 16 block 7 10 1 0 (omega arith)

-- The first timer is called back, the second is not.
fired_cbs : Option (List TimerNode × MaxHeap) → List ℕ
fired_cbs none = []
fired_cbs (some (fired, h)) = cbs fired
  where
    cbs : List TimerNode → List ℕ
    cbs [] = []
    cbs (x ∷ xs) = x.cb ∷ cbs xs

fired_at_15 : fired_cbs (heap_tick 2 64 (λ k. 15) two_timers) ≡ 1 ∷ []
unfolding fired_cbs heap_tick heap_pop heap_del swap_node swapped settle heap_sift_down
    sift_down_loop heap_sift_up sift_up_loop parent_int set_ref upd heap_pop_back child
fired_at_15 = refl
