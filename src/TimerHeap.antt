-- ===== src/TimerHeap.antt =====
-- frameWork/timer/heapTimer.c and frameWork/timer/heapTimer.h: timers in a binary heap, with a table
-- from the ids to their places. The array is a function from its indices, of which those below
-- `capacity` are in it; the table has 64 entries. A failing assertion, and a read or a write outside
-- of the array or the table, is `none`. `w` is the number of bits of `size_t`; the times that
-- `getCurrentTime` returns are arguments, in milliseconds, and a callback is a number.
pub mod Order
pub mod Up
pub mod Down
pub mod Insert
pub mod Delete
pub mod Tick
mod Tests
use embedded_linux_iot_gatew.Prelude.{
  ℕ, zero, suc, ◌+◌, ◌-◌, ◌*◌, ◌/◌, ◌%◌, ◌^◌, Bool, true, false, ◌&&◌, ◌||◌, not, Option, none,
  some, List, [], ◌∷◌, ltb, leb, ◌==◌, if◌then◌else◌, ◌>>=◌,
}

-- `TimerNode`
pub record TimerNode : Type 0 where
  pub id : ℕ
  pub expires : ℕ
  pub cb : ℕ

-- `MaxHeap`, and the table `gs_ref`.
pub record MaxHeap : Type 0 where
  pub array : ℕ → TimerNode
  pub capacity : ℕ
  pub size : ℕ
  pub gs_ref : ℕ → ℕ

-- The length of `gs_ref`.
abbrev pub ref_len : ℕ
ref_len = 64

unfoldable pub upd {ℓ} : {A : Type ℓ} → (ℕ → A) → ℕ → A → ℕ → A
upd f i v c = if c == i then v else f c

abbrev pub load : MaxHeap → ℕ → Option TimerNode
load h i = if ltb i h.capacity then some (h.array i) else none

-- heap->array[i] = x
unfoldable pub store : MaxHeap → ℕ → TimerNode → Option MaxHeap
store h i x = if ltb i h.capacity then some (record h { array = upd h.array i x }) else none

abbrev pub get_ref : MaxHeap → ℕ → Option ℕ
get_ref h id = if ltb id ref_len then some (h.gs_ref id) else none

unfoldable pub set_ref : (id : ℕ) → ℕ → MaxHeap → Option MaxHeap
set_ref id v h = if ltb id ref_len then some (record h { gs_ref = upd h.gs_ref id v }) else none

-- assert(b)
abbrev pub check {ℓ} : {A : Type ℓ} → Bool → Option A → Option A
check b r = if b then r else none

-- `initMaxHeap`, given the block that `malloc` returns and the table as it stands.
abbrev pub init_max_heap : (capacity : ℕ) (block : ℕ → TimerNode) (gs_ref : ℕ → ℕ) → MaxHeap
init_max_heap capacity block gs_ref = record {
  array = block;
  capacity = capacity;
  size = 0;
  gs_ref = gs_ref;
}

unfoldable pub swapped : (ℕ → TimerNode) → (i j : ℕ) → ℕ → TimerNode
swapped a i j c = if c == j then a i else (if c == i then a j else a c)

-- `SwapNode`
unfoldable pub swap_node : (i j : ℕ) → MaxHeap → Option MaxHeap
swap_node i j h = check (ltb i h.capacity && ltb j h.capacity) (
    let h1 : MaxHeap = record h { array = swapped h.array i j } in
    set_ref (h1.array i).id i h1 >>= set_ref (h1.array j).id j)

-- The `int` that `(i - 1) / 2` becomes, where it is not negative.
unfoldable pub parent_int : (w i : ℕ) → Option ℕ
parent_int w i =
    let j = (i + 2 ^ w - 1) % 2 ^ w / 2 % 2 ^ 32 in if ltb j (2 ^ 31) then some j else none

-- The loop of `heapSiftUp` at `i`, with the parent `j`. The fuel is the number of its turns.
unfoldable pub sift_up_loop : (fuel w : ℕ) → (i : ℕ) (j : Option ℕ) → MaxHeap → Option MaxHeap
sift_up_loop fuel w i none h = some h
sift_up_loop zero w i (some j) h = none
sift_up_loop (suc fuel) w i (some j) h = load h j >>= λ above. load h i >>= λ x.
    if ltb above.expires x.expires
    then some h
    else (swap_node i j h >>= sift_up_loop fuel w j (parent_int w j))

-- `heapSiftUp`
unfoldable pub heap_sift_up : (w : ℕ) → (i : ℕ) → MaxHeap → Option MaxHeap
heap_sift_up w i h = check (ltb i h.capacity) (sift_up_loop (i + 1) w i (parent_int w i) h)

-- The child of which `heapSiftDown` goes on, given the left one.
unfoldable pub child : (left n : ℕ) → MaxHeap → Option ℕ
child left n h =
    if ltb (left + 1) n
    then (load h (left + 1) >>= λ y.
        load h left >>= λ x. some (if ltb y.expires x.expires then left + 1 else left))
    else some left

-- The loop of `heapSiftDown`, which returns where it ends.
unfoldable pub sift_down_loop : (fuel : ℕ) → (i n : ℕ) → MaxHeap → Option (ℕ × MaxHeap)
sift_down_loop zero i n h = none
sift_down_loop (suc fuel) i n h =
    if ltb (i * 2 + 1) n
    then (child (i * 2 + 1) n h >>= λ j. load h i >>= λ x. load h j >>= λ y.
        if ltb x.expires y.expires
        then some (i, h)
        else (swap_node i j h >>= sift_down_loop fuel j n))
    else some (i, h)

-- `heapSiftDown`
unfoldable pub heap_sift_down : (index n : ℕ) → MaxHeap → Option (Bool × MaxHeap)
heap_sift_down index n h =
    check (ltb index h.capacity && leb n h.capacity)
      (sift_down_loop (n + 1) index n h >>= λ r. some (ltb index r.0, r.1))

-- Down, or else up.
unfoldable pub settle : (w : ℕ) → (i n : ℕ) → MaxHeap → Option MaxHeap
settle w i n h = heap_sift_down i n h >>= λ r. if r.0 then some r.1 else heap_sift_up w i r.1

-- The two branches of `heapInsert`.
module _ (w id timeout cb now : ℕ) (h : MaxHeap) where
  unfoldable pub insert_new : Option MaxHeap
  insert_new = set_ref id h.size h >>= λ h1.
      store h1 h.size (record { id = id; expires = now + timeout; cb = cb }) >>= λ h2.
      heap_sift_up w h.size h2 >>= λ h3. some (record h3 { size = h3.size + 1 })

  unfoldable pub insert_known : (i : ℕ) → Option MaxHeap
  insert_known i = load h i >>= λ x.
      store h i (record x { expires = now + timeout; cb = cb }) >>= settle w i h.size

-- `heapInsert`
unfoldable pub heap_insert : (w id timeout cb now : ℕ) → MaxHeap → Option MaxHeap
heap_insert w id timeout cb now h = get_ref h id >>= λ i.
    if i == 0 then insert_new w id timeout cb now h else insert_known w id timeout cb now h i

-- `heapInsertNode`
unfoldable pub heap_insert_node : (w : ℕ) → TimerNode → (now : ℕ) → MaxHeap → Option MaxHeap
heap_insert_node w x now h = heap_insert w x.id x.expires x.cb now h

-- `heapPopBack`
unfoldable pub heap_pop_back : MaxHeap → MaxHeap
heap_pop_back h = if ltb 0 h.size then record h { size = h.size - 1 } else h

-- `heapDel`; `gs_ref` becomes -1 at the id in the slot behind the last node, which holds what was
-- there before; `none` where that id has no place in the table.
unfoldable pub heap_del : (w : ℕ) → (index : ℕ) → MaxHeap → Option MaxHeap
heap_del w i h = check (ltb 0 h.size && ltb i h.capacity && leb i (h.size - 1)) (
    (if ltb i (h.size - 1)
      then (swap_node i (h.size - 1) h >>= settle w i (h.size - 1))
      else some h)
    >>= λ h1.
        load h1 h1.size >>= λ x. set_ref x.id (2 ^ w - 1) h1 >>= λ h2. some (heap_pop_back h2))

-- `HeapAdjust`
unfoldable pub heap_adjust : (id timeout now : ℕ) → MaxHeap → Option MaxHeap
heap_adjust id timeout now h = check (ltb 0 h.size) (
    get_ref h id >>= λ i. check (ltb 0 i) (
      load h i >>= λ x. store h i (record x { expires = now + timeout }) >>= λ h1.
      heap_sift_down i h.size h1 >>= λ r. some r.1))

-- `heapDoWork`, with the callback that it calls: that of the node at the place `id`.
unfoldable pub heap_do_work : (w : ℕ) → (id : ℕ) → MaxHeap → Option (List ℕ × MaxHeap)
heap_do_work w id h =
    if h.size == 0
    then some ([], h)
    else (get_ref h id >>= λ i.
        if i == 0
        then some ([], h)
        else (load h id >>= λ x. heap_del w i h >>= λ h1. some (x.cb ∷ [], h1)))

-- `heapPop`
unfoldable pub heap_pop : (w : ℕ) → MaxHeap → Option MaxHeap
heap_pop w h = check (ltb 0 h.size) (heap_del w 0 h)

-- `heapTick`, with the nodes whose callbacks it calls; `now k` is the time in the turn `k`. A
-- callback does not touch the heap.
unfoldable pub heap_tick :
    (fuel w : ℕ) → (now : ℕ → ℕ) → MaxHeap → Option (List TimerNode × MaxHeap)
heap_tick zero w now h = if h.size == 0 then some ([], h) else none
heap_tick (suc fuel) w now h =
    if h.size == 0
    then some ([], h)
    else (load h 0 >>= λ x.
        if ltb (now 0) x.expires
        then some ([], h)
        else (heap_pop w h >>= λ h1.
            heap_tick fuel w (λ k. now (k + 1)) h1 >>= λ r. some (x ∷ r.0, r.1)))

-- `heapGetNextTick`, the 32 bits of the `int`; the test `res < 0` is never true of a `size_t`.
unfoldable pub heap_get_next_tick : (w : ℕ) → (now : ℕ) → MaxHeap → Option ℕ
heap_get_next_tick w now h =
    if ltb 0 h.size
    then (load h 0 >>= λ x. some ((x.expires + 2 ^ 64 - now) % 2 ^ w % 2 ^ 32))
    else some ((2 ^ w - 1) % 2 ^ 32)
