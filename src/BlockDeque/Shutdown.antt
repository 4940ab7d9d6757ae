-- ===== src/BlockDeque/Shutdown.antt =====
-- The end of the log's thread, when its queue is closed (webServer/code/log/blockqueue.h, log.cpp).
use embedded_linux_iot_gatew.Prelude.{
  ℕ, zero, suc, ◌≡◌, ◌≢◌, refl, sym, ap, ◌∙◌, Bool, true, false, Option, none, some, unsome, List,
  [], ◌∷◌, get_elem?, set, get_elem?-set_ne, if◌then◌else◌, subst,
}
use embedded_linux_iot_gatew.BlockDeque.{
  Position, pushing, popping, awake, resting, waits_item, waits_room, refused, BlockDeque, stand,
  take_front, step_at, enter, Move, asks_push, asks_pop, step, spurious, closes, notifies, flushes,
  clears, occur, occur_all,
}

abbrev pub may_push : Position → Bool
may_push (pushing x) = true
may_push (waits_room x) = true
may_push p = false

-- No thread is about to put an item in.
abbrev pub AreIdle : List Position → Type 0
AreIdle [] = Unit
AreIdle (p ∷ ps) = (may_push p ≡ false) × AreIdle ps

-- Nobody puts an item in, flushes or closes the queue, and no wait ends for no reason.
abbrev pub AreQuiet : List Move → Type 0
AreQuiet [] = Unit
AreQuiet (asks_push i x ∷ moves) = ⊥
AreQuiet (spurious i ∷ moves) = ⊥
AreQuiet (closes ∷ moves) = ⊥
AreQuiet (notifies ∷ moves) = ⊥
AreQuiet (flushes choice ∷ moves) = ⊥
AreQuiet (asks_pop i ∷ moves) = AreQuiet moves
AreQuiet (step choice i ∷ moves) = AreQuiet moves
AreQuiet (clears ∷ moves) = AreQuiet moves

AreIdle-set :
    (ps : List Position) (i : ℕ) (p : Position)
    → AreIdle ps
    → may_push p ≡ false
    → AreIdle (set ps i p)
AreIdle-set [] i p idle calm = tt
AreIdle-set (q ∷ ps) zero p (first, idle) calm = (calm, idle)
AreIdle-set (q ∷ ps) (suc i) p (first, idle) calm = (first, AreIdle-set ps i p idle calm)

AreIdle-get :
    (ps : List Position) (i : ℕ) (p : Position)
    → AreIdle ps
    → get_elem? ps i ≡ some p
    → may_push p ≡ false
AreIdle-get [] i p idle h = cc
AreIdle-get (q ∷ ps) zero p (first, idle) h = ap may_push (sym (unsome h)) ∙ first
AreIdle-get (q ∷ ps) (suc i) p (first, idle) h = AreIdle-get ps i p idle h

get_elem?-set_here :
    (ps : List Position) (i : ℕ) (p q : Position)
    → get_elem? ps i ≡ some p
    → get_elem? (set ps i q) i ≡ some q
get_elem?-set_here [] i p q h = cc
get_elem?-set_here (x ∷ ps) zero p q h = refl
get_elem?-set_here (x ∷ ps) (suc i) p q h = get_elem?-set_here ps i p q h

-- The queue is closed and empty, nobody fills it, and the thread `i` waits for an item.
pub record IsStuck (i : ℕ) (s : BlockDeque) : Type 0 where
  pub closed : s.is_close ≡ true
  pub empty : s.deq ≡ []
  pub idle : AreIdle s.threads
  pub waits : get_elem? s.threads i ≡ some waits_item

-- Another thread gets to another place.
stand-IsStuck :
    (i j : ℕ) (p q : Position) (s : BlockDeque)
    → IsStuck i s
    → get_elem? s.threads j ≡ some p
    → some p ≢ some waits_item
    → may_push q ≡ false
    → IsStuck i (stand j q s)
stand-IsStuck i j p q s stuck here other calm = record {
  closed = stuck.closed;
  empty = stuck.empty;
  idle = AreIdle-set s.threads j q stuck.idle calm;
  waits =
      get_elem?-set_ne s.threads q
        (λ e. other (sym here ∙ ap (get_elem? s.threads) e ∙ stuck.waits))
      ∙ stuck.waits;
}

enter-IsStuck :
    (i j : ℕ) (o : Option Position) (s : BlockDeque)
    → IsStuck i s
    → get_elem? s.threads j ≡ o
    → IsStuck i (enter j popping o s)
enter-IsStuck i j (some resting) s stuck here =
    stand-IsStuck i j resting popping s stuck here (λ e. cc) refl
enter-IsStuck i j (some popping) s stuck here = stuck
enter-IsStuck i j (some waits_item) s stuck here = stuck
enter-IsStuck i j (some awake) s stuck here = stuck
enter-IsStuck i j (some refused) s stuck here = stuck
enter-IsStuck i j (some (pushing x)) s stuck here = stuck
enter-IsStuck i j (some (waits_room x)) s stuck here = stuck
enter-IsStuck i j none s stuck here = stuck

step_at-IsStuck :
    (choice i j : ℕ) (o : Option Position) (s : BlockDeque)
    → IsStuck i s
    → get_elem? s.threads j ≡ o
    → IsStuck i (step_at choice j o s)
unfolding step_at take_front
step_at-IsStuck choice i j (some (pushing x)) s stuck here =
    let calm = AreIdle-get s.threads j (pushing x) stuck.idle here in cc
step_at-IsStuck choice i j (some popping) s stuck here =
    subst (λ d. IsStuck i (take_front choice j d s)) (sym stuck.empty)
      (stand-IsStuck i j popping waits_item s stuck here (λ e. cc) refl)
step_at-IsStuck choice i j (some awake) s stuck here =
    subst (λ b. IsStuck i (if b then stand j refused s else take_front choice j s.deq s))
      (sym stuck.closed) (stand-IsStuck i j awake refused s stuck here (λ e. cc) refl)
step_at-IsStuck choice i j (some resting) s stuck here = stuck
step_at-IsStuck choice i j (some waits_item) s stuck here = stuck
step_at-IsStuck choice i j (some refused) s stuck here = stuck
step_at-IsStuck choice i j (some (waits_room x)) s stuck here = stuck
step_at-IsStuck choice i j none s stuck here = stuck

occur_all-IsStuck :
    (i : ℕ) (moves : List Move) (s : BlockDeque)
    → AreQuiet moves
    → IsStuck i s
    → IsStuck i (occur_all moves s)
occur_all-IsStuck i [] s quiet stuck = stuck
occur_all-IsStuck i (asks_push j x ∷ moves) s quiet stuck = absurd quiet
occur_all-IsStuck i (spurious j ∷ moves) s quiet stuck = absurd quiet
occur_all-IsStuck i (closes ∷ moves) s quiet stuck = absurd quiet
occur_all-IsStuck i (notifies ∷ moves) s quiet stuck = absurd quiet
occur_all-IsStuck i (flushes choice ∷ moves) s quiet stuck = absurd quiet
occur_all-IsStuck i (asks_pop j ∷ moves) s quiet stuck =
    occur_all-IsStuck i moves _ quiet (enter-IsStuck i j (get_elem? s.threads j) s stuck refl)
occur_all-IsStuck i (step choice j ∷ moves) s quiet stuck =
    occur_all-IsStuck i moves _ quiet
      (step_at-IsStuck choice i j (get_elem? s.threads j) s stuck refl)
occur_all-IsStuck i (clears ∷ moves) s quiet stuck =
    occur_all-IsStuck i moves _ quiet
      (record { closed = stuck.closed; empty = refl; idle = stuck.idle; waits = stuck.waits })

-- A thread that has called `pop`, but has not tested the queue when `Close` is over with its
-- notifications, and the queue is empty, waits for ever: it tests whether the queue is closed only
-- behind a wait. It waits for an item through all that happens from then on, as long as nobody puts
-- an item in, flushes, or closes the queue again, and no wait ends for no reason. No thread is about
-- to put an item in, as at the end of the log.
pub close_all_stuck :
    (moves : List Move)
    → (s : BlockDeque) → (choice i : ℕ) → s.is_close ≡ true
    → s.deq ≡ []
    → get_elem? s.threads i ≡ some popping
    → AreIdle s.threads
    → AreQuiet moves
    → get_elem? (occur_all (step choice i ∷ moves) s).threads i ≡ some waits_item
unfolding step_at take_front
close_all_stuck moves s choice i closed empty here idle quiet =
    let stuck : IsStuck i (stand i waits_item s) = record {
      closed = closed;
      empty = empty;
      idle = AreIdle-set s.threads i waits_item idle refl;
      waits = get_elem?-set_here s.threads i popping waits_item here;
    } in
    let first : occur (step choice i) s ≡ stand i waits_item s =
      ap (λ o. step_at choice i o s) here ∙ ap (λ d. take_front choice i d s) empty in
    ap (λ u. get_elem? (occur_all moves u).threads i) first
    ∙ (occur_all-IsStuck i moves (stand i waits_item s) quiet stuck).waits
