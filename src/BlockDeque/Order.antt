-- ===== src/BlockDeque/Order.antt =====
-- The items of the queue of the log, whatever the order of the threads
-- (webServer/code/log/blockqueue.h).
use embedded_linux_iot_gatew.Prelude.{
  ℕ, ◌≤◌, ◌<◌, ◌≡◌, refl, sym, ap, ◌∙◌, Bool-cases, inl, inr, Option, none, some, List, [], ◌∷◌,
  ◌++◌, append_assoc, length, length-append, get_elem?, set, arith, leb, if◌then◌else◌, subst,
}
use embedded_linux_iot_gatew.BlockDeque.{
  Position, pushing, popping, awake, resting, waits_item, waits_room, refused, BlockDeque,
  push_back, take_front, step_at, enter, let_go, Move, asks_push, asks_pop, step, spurious, closes,
  clears, notifies, flushes, notify_closed, flush, occur_all,
}

-- No more items than the capacity, and what was put in is what was taken out and what is left.
pub record IsSound (s : BlockDeque) : Type 0 where
  pub bounded : length s.deq ≤ s.capacity
  pub in_order : s.added ≡ s.taken ++ s.deq

-- The queue is not emptied.
abbrev pub AreKeeping : List Move → Type 0
AreKeeping [] = Unit
AreKeeping (closes ∷ es) = ⊥
AreKeeping (clears ∷ es) = ⊥
AreKeeping (notifies ∷ es) = AreKeeping es
AreKeeping (flushes choice ∷ es) = AreKeeping es
AreKeeping (asks_push i x ∷ es) = AreKeeping es
AreKeeping (asks_pop i ∷ es) = AreKeeping es
AreKeeping (step choice i ∷ es) = AreKeeping es
AreKeeping (spurious i ∷ es) = AreKeeping es

push_back-IsSound : (choice i x : ℕ) (s : BlockDeque) → IsSound s → IsSound (push_back choice i x s)
unfolding push_back
push_back-IsSound choice i x s sound = elim (Bool-cases (leb s.capacity (length s.deq))) [
  | inl full ↦ rw full (record { bounded = sound.bounded; in_order = sound.in_order })
  | inr room ↦
      let less : length s.deq < s.capacity = ground arith in
      rw room (record {
        bounded = omega (arith, length-append s.deq (x ∷ []));
        in_order = ap (λ t. t ++ (x ∷ [])) sound.in_order ∙ append_assoc s.taken s.deq (x ∷ []);
      })
]

take_front-IsSound :
    (choice i : ℕ) (d : List ℕ) (s : BlockDeque)
    → d ≡ s.deq
    → IsSound s
    → IsSound (take_front choice i d s)
unfolding take_front
take_front-IsSound choice i [] s same sound = record {
  bounded = sound.bounded;
  in_order = sound.in_order;
}
take_front-IsSound choice i (x ∷ xs) s same sound = record {
  bounded = omega (arith, sound.bounded, ap length same);
  in_order =
      sound.in_order ∙ ap (λ t. s.taken ++ t) (sym same) ∙ sym (append_assoc s.taken (x ∷ []) xs);
}

moved-IsSound :
    (s : BlockDeque) (ps : List Position) → IsSound s → IsSound (record s { threads = ps })
moved-IsSound s ps sound = record { bounded = sound.bounded; in_order = sound.in_order }

step_at-IsSound :
    (choice i : ℕ) (p : Option Position) (s : BlockDeque)
    → IsSound s
    → IsSound (step_at choice i p s)
unfolding step_at
step_at-IsSound choice i (some (pushing x)) s sound = push_back-IsSound choice i x s sound
step_at-IsSound choice i (some popping) s sound = take_front-IsSound choice i s.deq s refl sound
step_at-IsSound choice i (some awake) s sound = elim (Bool-cases s.is_close) [
  | inl closed ↦
      subst IsSound
        (sym (
          ap
            (λ b.
              if b
              then record s { threads = set s.threads i refused }
              else take_front choice i s.deq s)
            closed))
        (moved-IsSound s (set s.threads i refused) sound)
  | inr running ↦
      subst IsSound
        (sym (
          ap
            (λ b.
              if b
              then record s { threads = set s.threads i refused }
              else take_front choice i s.deq s)
            running))
        (take_front-IsSound choice i s.deq s refl sound)
]
step_at-IsSound choice i (some resting) s sound = sound
step_at-IsSound choice i (some waits_item) s sound = sound
step_at-IsSound choice i (some refused) s sound = sound
step_at-IsSound choice i (some (waits_room x)) s sound = sound
step_at-IsSound choice i none s sound = sound

enter-IsSound :
    (i : ℕ) (p : Position) (q : Option Position) (s : BlockDeque)
    → IsSound s
    → IsSound (enter i p q s)
enter-IsSound i p (some resting) s sound = moved-IsSound s (set s.threads i p) sound
enter-IsSound i p (some popping) s sound = sound
enter-IsSound i p (some waits_item) s sound = sound
enter-IsSound i p (some awake) s sound = sound
enter-IsSound i p (some refused) s sound = sound
enter-IsSound i p (some (pushing x)) s sound = sound
enter-IsSound i p (some (waits_room x)) s sound = sound
enter-IsSound i p none s sound = sound

let_go-IsSound : (i : ℕ) (q : Option Position) (s : BlockDeque) → IsSound s → IsSound (let_go i q s)
let_go-IsSound i (some waits_item) s sound = moved-IsSound s (set s.threads i awake) sound
let_go-IsSound i (some (waits_room x)) s sound = moved-IsSound s (set s.threads i (pushing x)) sound
let_go-IsSound i (some resting) s sound = sound
let_go-IsSound i (some popping) s sound = sound
let_go-IsSound i (some awake) s sound = sound
let_go-IsSound i (some refused) s sound = sound
let_go-IsSound i (some (pushing x)) s sound = sound
let_go-IsSound i none s sound = sound

-- In whatever order the threads run, as long as the queue is not emptied, it holds no more items
-- than its capacity, and the items that were put in are, in order, those that were taken out and
-- those that are left, if it is so at the start.
pub occur_all-IsSound :
    (moves : List Move) (s : BlockDeque)
    → AreKeeping moves
    → IsSound s
    → IsSound (occur_all moves s)
unfolding notify_closed flush
occur_all-IsSound [] s keeping sound = sound
occur_all-IsSound (asks_push i x ∷ moves) s keeping sound =
    occur_all-IsSound moves _ keeping (enter-IsSound i (pushing x) (get_elem? s.threads i) s sound)
occur_all-IsSound (asks_pop i ∷ moves) s keeping sound =
    occur_all-IsSound moves _ keeping (enter-IsSound i popping (get_elem? s.threads i) s sound)
occur_all-IsSound (step choice i ∷ moves) s keeping sound =
    occur_all-IsSound moves _ keeping (step_at-IsSound choice i (get_elem? s.threads i) s sound)
occur_all-IsSound (spurious i ∷ moves) s keeping sound =
    occur_all-IsSound moves _ keeping (let_go-IsSound i (get_elem? s.threads i) s sound)
occur_all-IsSound (closes ∷ moves) s keeping sound = absurd keeping
occur_all-IsSound (clears ∷ moves) s keeping sound = absurd keeping
occur_all-IsSound (notifies ∷ moves) s keeping sound =
    occur_all-IsSound moves (notify_closed s) keeping (moved-IsSound s _ sound)
occur_all-IsSound (flushes choice ∷ moves) s keeping sound =
    occur_all-IsSound moves (flush choice s) keeping (moved-IsSound s _ sound)
