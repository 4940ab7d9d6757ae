-- ===== src/BlockDeque.antt =====
-- webServer/code/log/blockqueue.h: the bounded queue that the log's writers and its thread share, as
-- a state and the steps of all threads. A step is what a thread does while it holds the mutex. The
-- items are numbers. `push_front` and the `pop` with a timeout, which nothing calls, are left out.
pub mod Order
pub mod Shutdown
mod Tests
use embedded_linux_iot_gatew.Prelude.{
  ℕ, zero, suc, ◌-◌, Bool, true, false, Option, none, some, List, [], ◌∷◌, ◌++◌, length, get_elem?,
  set, map, leb, if◌then◌else◌,
}

-- Where a thread stands: outside, before the test of `push_back`, waiting for room, before the test
-- of `pop`, waiting for an item, behind that wait, or out of `pop` with the result false.
pub data Position : Type 0 where
  resting popping waits_item awake refused : Position
  pushing waits_room : ℕ → Position

-- The queue, and the items in the order in which they were put in and taken out.
pub record BlockDeque : Type 0 where
  pub deq : List ℕ
  pub capacity : ℕ
  pub is_close : Bool
  pub threads : List Position
  pub added : List ℕ
  pub taken : List ℕ

-- What `condConsumer_` and `condProducer_` let go.
abbrev pub wake_consumer : Position → Option Position
wake_consumer waits_item = some awake
wake_consumer p = none

abbrev pub wake_producer : Position → Option Position
wake_producer (waits_room x) = some (pushing x)
wake_producer p = none

abbrev pub or_stay : Position → Option Position → Position
or_stay p none = p
or_stay p (some q) = q

abbrev pub none_waits : (Position → Option Position) → List Position → Bool
none_waits wake [] = true
none_waits wake (p ∷ ps) = elim (wake p) [ none ↦ none_waits wake ps | some q ↦ false ]

-- `notify_one`, which lets go any one of those that wait: the choice counts those it passes over.
unfoldable pub notify_one :
    (Position → Option Position) → (choice : ℕ) → List Position → List Position
notify_one wake choice [] = []
notify_one wake choice (p ∷ ps) =
    let same = notify_one wake choice ps in
    let fewer = notify_one wake (choice - 1) ps in
    elim (wake p) [
      | none ↦ p ∷ same
      | some q ↦ if leb choice 0 then q ∷ ps else (if none_waits wake ps then q ∷ ps else p ∷ fewer)
    ]

-- `notify_all`
abbrev pub notify_all : (Position → Option Position) → List Position → List Position
notify_all wake = map (λ p. or_stay p (wake p))

abbrev pub stand : ℕ → Position → BlockDeque → BlockDeque
stand i p s = record s { threads = set s.threads i p }

-- `push_back`, from its test on.
unfoldable pub push_back : (choice i x : ℕ) → BlockDeque → BlockDeque
push_back choice i x s =
    if leb s.capacity (length s.deq) then stand i (waits_room x) s else record s {
      deq = s.deq ++ (x ∷ []);
      added = s.added ++ (x ∷ []);
      threads = notify_one wake_consumer choice (set s.threads i resting);
    }

-- `pop`, from its test on, with the queue.
unfoldable pub take_front : (choice i : ℕ) → List ℕ → BlockDeque → BlockDeque
take_front choice i [] s = stand i waits_item s
take_front choice i (x ∷ xs) s = record s {
  deq = xs;
  taken = s.taken ++ (x ∷ []);
  threads = notify_one wake_producer choice (set s.threads i resting);
}

unfoldable pub step_at : (choice i : ℕ) → Option Position → BlockDeque → BlockDeque
step_at choice i (some (pushing x)) s = push_back choice i x s
step_at choice i (some popping) s = take_front choice i s.deq s
step_at choice i (some awake) s =
    if s.is_close then stand i refused s else take_front choice i s.deq s
step_at choice i p s = s

-- A thread that is outside calls `push_back` or `pop`.
abbrev pub enter : ℕ → Position → Option Position → BlockDeque → BlockDeque
enter i p (some resting) s = stand i p s
enter i p q s = s

-- A wait that ends for no reason.
abbrev pub let_go : ℕ → Option Position → BlockDeque → BlockDeque
let_go i (some waits_item) s = stand i awake s
let_go i (some (waits_room x)) s = stand i (pushing x) s
let_go i p s = s

-- The part of `Close` under the mutex.
unfoldable pub close_all : BlockDeque → BlockDeque
close_all s = record s { deq = []; is_close = true }

-- The notifications of `Close`, which come when it has given the mutex back.
unfoldable pub notify_closed : BlockDeque → BlockDeque
notify_closed s = record s {
  threads = notify_all wake_consumer (notify_all wake_producer s.threads);
}

-- `flush`
unfoldable pub flush : (choice : ℕ) → BlockDeque → BlockDeque
flush choice s = record s { threads = notify_one wake_consumer choice s.threads }

-- `clear`
abbrev pub clear_all : BlockDeque → BlockDeque
clear_all s = record s { deq = [] }

pub data Move : Type 0 where
  asks_push : (i x : ℕ) → Move
  asks_pop : (i : ℕ) → Move
  step : (choice i : ℕ) → Move
  spurious : (i : ℕ) → Move
  closes notifies clears : Move
  flushes : (choice : ℕ) → Move

abbrev pub occur : Move → BlockDeque → BlockDeque
occur (asks_push i x) s = enter i (pushing x) (get_elem? s.threads i) s
occur (asks_pop i) s = enter i popping (get_elem? s.threads i) s
occur (step choice i) s = step_at choice i (get_elem? s.threads i) s
occur (spurious i) s = let_go i (get_elem? s.threads i) s
occur closes s = close_all s
occur notifies s = notify_closed s
occur (flushes choice) s = flush choice s
occur clears s = clear_all s

abbrev pub occur_all : List Move → BlockDeque → BlockDeque
occur_all [] s = s
occur_all (e ∷ es) s = occur_all es (occur e s)
