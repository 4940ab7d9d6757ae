-- ===== src/BlockDeque/Tests.antt =====
-- A writer that waits for room, and the log's thread at the end.
use embedded_linux_iot_gatew.Prelude.{◌≡◌, refl, false, some, List, [], ◌∷◌, get_elem?, arith}
use embedded_linux_iot_gatew.BlockDeque.{
  popping, resting, waits_item, refused, BlockDeque, notify_one, push_back, take_front, step_at,
  notify_closed, notifies, close_all, Move, asks_push, asks_pop, step, clears, closes, occur_all,
}
use embedded_linux_iot_gatew.BlockDeque.Order.{IsSound, occur_all-IsSound}
use embedded_linux_iot_gatew.BlockDeque.Shutdown.{close_all_stuck}

-- Room for one item, a thread that writes and one that reads.
abbrev small : BlockDeque
small = record {
  deq = [];
  capacity = 1;
  is_close = false;
  threads = resting ∷ resting ∷ [];
  added = [];
  taken = [];
}

-- The second push waits until the first item has been taken.
abbrev two_pushes : List Move
two_pushes =
    asks_push 0 7 ∷ step 0 0 ∷ asks_push 0 8 ∷ step 0 0 ∷ asks_pop 1 ∷ step 0 1 ∷ step 0 0 ∷ []

occur_all-IsSound_example : IsSound (occur_all two_pushes small)
occur_all-IsSound_example =
    occur_all-IsSound two_pushes small tt (record { bounded = omega arith; in_order = refl })

second_waits : (occur_all two_pushes small).deq ≡ 8 ∷ []
unfolding step_at push_back take_front notify_one
second_waits = refl

-- The thread is in `pop`, before its test, all through `Close`.
abbrev ending : BlockDeque
ending = occur_all (closes ∷ notifies ∷ []) (record small { threads = resting ∷ popping ∷ [] })

close_all_stuck_example :
    get_elem? (occur_all (step 0 1 ∷ step 0 1 ∷ asks_pop 0 ∷ clears ∷ []) ending).threads 1
    ≡ some waits_item
unfolding close_all notify_closed
close_all_stuck_example =
    close_all_stuck (step 0 1 ∷ asks_pop 0 ∷ clears ∷ []) ending 0 1 refl refl refl
      (refl, (refl, tt)) tt

-- A thread that begins to wait between the two parts of `Close` is let go, and comes out with the
-- result false.
let_out :
    get_elem?
      (occur_all (asks_pop 1 ∷ closes ∷ step 0 1 ∷ notifies ∷ step 0 1 ∷ []) small).threads
      1
    ≡ some refused
unfolding step_at take_front close_all notify_closed
let_out = refl
