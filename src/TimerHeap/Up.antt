-- ===== src/TimerHeap/Up.antt =====
-- `heapSiftUp` (frameWork/timer/heapTimer.c).
use embedded_linux_iot_gatew.Prelude.{
  ℕ, zero, suc, ◌+◌, ◌-◌, ◌/◌, ◌%◌, ◌^◌, ◌≤◌, ◌<◌, ◌≡◌, ◌≢◌, refl, sym, subst, false, Option, none,
  some, ltb, lt→ltb, arith, inl, inr, Bool-cases,
}
use embedded_linux_iot_gatew.TimerHeap.{
  TimerNode, MaxHeap, swapped, parent_int, sift_up_loop, heap_sift_up, heap_insert, insert_new,
  set_ref, store, init_max_heap, upd, ref_len,
}
use embedded_linux_iot_gatew.TimerHeap.Order.{
  key, parent, IsHeap, Fits, Kept, Kept-refl, Kept-trans, swap_node_lem,
}

-- Only the node at `i` may expire before its parent.
pub record UpInv (n : ℕ) (a : ℕ → TimerNode) (i : ℕ) : Type 0 where
  pub inside : i < n
  pub edges : (c : ℕ) → 0 < c → c < n → c ≢ i → key a (parent c) ≤ key a c
  pub bridged : (c : ℕ) → 0 < c → c < n → parent c ≡ i → 0 < i → key a (parent i) ≤ key a c

swap-UpInv :
    (n : ℕ) (a : ℕ → TimerNode) (i : ℕ)
    → UpInv n a i
    → 0 < i
    → key a i ≤ key a (parent i)
    → UpInv n (swapped a i (parent i)) (parent i)
unfolding swapped
swap-UpInv n a i v pos below = record {
  inside = omega (arith, v.inside);
  edges = λ c p q r. ground (arith, v.edges c, v.bridged c, v.edges (parent i));
  bridged = λ c p q r t. ground (arith, v.edges c, v.edges (parent i), v.edges (parent (parent i)));
}

parent_int-root : parent_int 64 0 ≡ none
unfolding parent_int
parent_int-root = refl

parent_int-parent : (i : ℕ) → 0 < i → i < 2147483648 → parent_int 64 i ≡ some (parent i)
unfolding parent_int
parent_int-parent i pos small =
    let e : (i + 2 ^ 64 - 1) % 2 ^ 64 / 2 % 2 ^ 32 ≡ parent i = omega arith in
    rw (e, lt→ltb (parent i) 2147483648 (omega arith)) refl

-- A sift of the first `n` nodes that ends with them in order.
abbrev pub Orders : ℕ → MaxHeap → Option MaxHeap → Type 0
Orders n h o = (h1 : MaxHeap) × (o ≡ some h1) × Kept n h h1 × IsHeap n h1.array

sift_up_loop-Orders :
    (fuel n : ℕ) (h : MaxHeap) (i : ℕ)
    → i < fuel
    → Fits n h
    → n ≤ h.capacity
    → UpInv n h.array i
    → Orders n h (sift_up_loop fuel 64 i (parent_int 64 i) h)
unfolding sift_up_loop
sift_up_loop-Orders zero n h i enough f le v = absurd (omega arith)
sift_up_loop-Orders (suc fuel) n h zero enough f le v =
    rw (parent_int-root, sift_up_loop)
      (h, refl, Kept-refl n h f, λ c p q. v.edges c p q (omega arith))
sift_up_loop-Orders (suc fuel) n h (suc k) enough f le v =
    let i = suc k in
    let j = parent i in
    let small = f.small in
    let i_in = v.inside in
    rw
      (
        parent_int-parent i (omega arith) (omega arith),
        lt→ltb j h.capacity (omega arith),
        lt→ltb i h.capacity (omega arith),
      )
      (elim (Bool-cases (ltb (key h.array j) (key h.array i))) [
        | inl settled ↦
            rw settled (h, refl, Kept-refl n h f, λ c p q. ground (arith, v.edges c p q))
        | inr rises ↦
            let (h1, ran, array_eq, kept) = swap_node_lem n h i j f le i_in (omega arith) in
            let v1 : UpInv n h1.array j =
              subst (λ a. UpInv n a j) (sym array_eq)
                (swap-UpInv n h.array i v (omega arith) (ground arith)) in
            let (h2, ran2, kept2, ordered) =
              sift_up_loop-Orders fuel n h1 j (omega arith) kept.fits
                (omega (arith, kept.capacity_eq)) v1 in
            rw (rises, ran) (h2, ran2, Kept-trans n h h1 h2 kept kept2, ordered)
      ])

-- Where `size_t` has 64 bits: on a heap of which only the node at `i` may expire before its parent,
-- `heapSiftUp` ends with the nodes in heap order; they are the same nodes, and what lies behind the
-- heap is as before.
pub heap_sift_up-Orders :
    (n : ℕ) (h : MaxHeap) (i : ℕ)
    → Fits n h
    → n ≤ h.capacity
    → UpInv n h.array i
    → Orders n h (heap_sift_up 64 i h)
unfolding heap_sift_up
heap_sift_up-Orders n h i f le v =
    let i_in = v.inside in
    rw (lt→ltb i h.capacity (omega arith)) (sift_up_loop-Orders (i + 1) n h i (omega arith) f le v)

-- With 32 bits, the parent of the root is far outside of the array.
root_outside : (h : MaxHeap) → h.capacity < 2147483648 → heap_sift_up 32 0 h ≡ none
unfolding heap_sift_up sift_up_loop parent_int
root_outside h small =
    let out : ltb 2147483647 h.capacity ≡ false = ground arith in
    elim (Bool-cases (ltb 0 h.capacity)) [
      | inl some_room ↦ rw (some_room, out) refl
      | inr no_room ↦ rw no_room refl
    ]

-- Where `size_t` has 32 bits, no timer can be added to a new heap while the table is all zeros, as it
-- is at the start: `heapSiftUp` takes the root for a node with a parent and reads outside of the
-- array.
pub heap_insert_outside :
    (capacity : ℕ) (block : ℕ → TimerNode) (id timeout cb now : ℕ)
    → capacity < 2147483648
    → heap_insert 32 id timeout cb now (init_max_heap capacity block (λ k. 0)) ≡ none
unfolding heap_insert insert_new set_ref store
heap_insert_outside capacity block id timeout cb now small = elim (Bool-cases (ltb id ref_len)) [
  | inr no_place ↦ rw no_place refl
  | inl place ↦ elim (Bool-cases (ltb 0 capacity)) [
    | inr no_room ↦ rw (place, no_room) refl
    | inl room ↦
        rw
          (
            place,
            room,
            root_outside
                (record {
                  array = upd block 0 (record { id = id; expires = now + timeout; cb = cb });
                  capacity = capacity;
                  size = 0;
                  gs_ref = upd (λ k. 0) id 0;
                })
                small,
          )
          refl
  ]
]
