-- ===== src/TimerHeap/Down.antt =====
-- `heapSiftDown`, and down or else up (frameWork/timer/heapTimer.c).
use embedded_linux_iot_gatew.Prelude.{
  ℕ, zero, suc, ◌+◌, ◌*◌, ◌≤◌, ◌<◌, ◌≡◌, ◌≢◌, ◌⊎◌, refl, sym, ap, subst, ◌∙◌, false, Option, some,
  ltb, lt→ltb, le→leb, ◌==◌, arith, inl, inr, Bool-cases,
}
use embedded_linux_iot_gatew.TimerHeap.{
  TimerNode, MaxHeap, swapped, child, sift_down_loop, heap_sift_down, heap_sift_up, settle,
}
use embedded_linux_iot_gatew.TimerHeap.Order.{
  key, parent, IsHeap, Fits, Kept, Kept-trans, swap_node_lem,
}
use embedded_linux_iot_gatew.TimerHeap.Up.{UpInv, Orders, heap_sift_up-Orders}

-- Only the edges at `i`, above and below it, may be out of order.
pub record AtInv (n : ℕ) (a : ℕ → TimerNode) (i : ℕ) : Type 0 where
  pub inside : i < n
  pub edges : (c : ℕ) → 0 < c → c < n → c ≢ i → parent c ≢ i → key a (parent c) ≤ key a c
  pub bridged : (c : ℕ) → 0 < c → c < n → parent c ≡ i → 0 < i → key a (parent i) ≤ key a c

-- `j` is a child of `i`, and none of its children expires earlier.
record IsSmallerChild (n : ℕ) (a : ℕ → TimerNode) (i j : ℕ) : Type 0 where
  inside : j < n
  below : (j ≡ i * 2 + 1) ⊎ (j ≡ i * 2 + 2)
  least : (c : ℕ) → 0 < c → c < n → parent c ≡ i → key a j ≤ key a c

children : (c i : ℕ) → 0 < c → parent c ≡ i → (c ≡ i * 2 + 1) ⊎ (c ≡ i * 2 + 1 + 1)
children c i pos e = ground arith

child-IsSmallerChild :
    (n : ℕ) (h : MaxHeap) (i : ℕ)
    → n ≤ h.capacity
    → i * 2 + 1 < n
    → (j : ℕ) × (child (i * 2 + 1) n h ≡ some j) × IsSmallerChild n h.array i j
unfolding child
child-IsSmallerChild n h i le in_heap =
    let l = i * 2 + 1 in
    elim (Bool-cases (ltb (l + 1) n)) [
      | inr only ↦ rw only (
        l,
        refl,
        record {
          inside = in_heap;
          below = inl refl;
          least = λ c p q e.
              let at : c ≡ l = ground (arith, children c i p e) in
              omega (arith, ap (key h.array) at);
        },
      )
      | inl both ↦
          let room : l + 1 < n = ground arith in
          rw (both, lt→ltb (l + 1) h.capacity (omega arith), lt→ltb l h.capacity (omega arith))
            (elim (Bool-cases (ltb (key h.array (l + 1)) (key h.array l))) [
              | inl right ↦ rw right (
                l + 1,
                refl,
                record {
                  inside = room;
                  below = inr (omega arith);
                  least = λ c p q e. elim (children c i p e) [
                    | inl at ↦ ground (arith, ap (key h.array) at)
                    | inr at ↦ ground (arith, ap (key h.array) at)
                  ];
                },
              )
              | inr left ↦ rw left (
                l,
                refl,
                record {
                  inside = in_heap;
                  below = inl refl;
                  least = λ c p q e. elim (children c i p e) [
                    | inl at ↦ ground (arith, ap (key h.array) at)
                    | inr at ↦ ground (arith, ap (key h.array) at)
                  ];
                },
              )
            ])
    ]

swap-AtInv :
    (n : ℕ) (a : ℕ → TimerNode) (i j : ℕ)
    → AtInv n a i
    → IsSmallerChild n a i j
    → key a j ≤ key a i
    → AtInv n (swapped a i j) j
unfolding swapped
swap-AtInv n a i j v s falls = record {
  inside = s.inside;
  edges = λ c p q r t. ground (arith, s.below, v.edges c, v.bridged j, s.least c);
  bridged = λ c p q r t. ground (arith, s.below, v.edges c);
}

-- An order of the edge above `i` is all that is missing.
AtInv-up :
    (n : ℕ) (a : ℕ → TimerNode) (i : ℕ)
    → AtInv n a i
    → ((c : ℕ) → 0 < c → c < n → parent c ≡ i → key a i ≤ key a c)
    → UpInv n a i
AtInv-up n a i v below = record {
  inside = v.inside;
  edges = λ c p q r. ground (arith, v.edges c, below c);
  bridged = v.bridged;
}

-- How the loop ends: at `i` with all as it was and the edges below `i` in order, or further down with
-- a heap.
abbrev Sinks : (n : ℕ) (h : MaxHeap) (i : ℕ) → Option (ℕ × MaxHeap) → Type 0
Sinks n h i o =
    (k : ℕ) × (h1 : MaxHeap) × (o ≡ some (k, h1))
    × (((k ≡ i) × (h1 ≡ h) × UpInv n h.array i) ⊎ ((i < k) × Kept n h h1 × IsHeap n h1.array))

swap-IsHeap :
    (n : ℕ) (a : ℕ → TimerNode) (i j : ℕ)
    → key a j ≤ key a i
    → parent j ≡ i
    → i < j
    → UpInv n (swapped a i j) j
    → IsHeap n (swapped a i j)
unfolding swapped
swap-IsHeap n a i j falls at later u c p q = elim (Bool-cases (c == j)) [
  | inl same ↦ ground arith
  | inr other ↦ u.edges c p q (ground arith)
]

-- After the swap of `i` and `j` the loop goes on at `j`.
sinks-end :
    (n : ℕ) (h : MaxHeap) (i j : ℕ)
    → key h.array j ≤ key h.array i
    → parent j ≡ i
    → i < j
    → (h1 : MaxHeap) → h1.array ≡ swapped h.array i j
    → Kept n h h1
    → (k : ℕ) (h2 : MaxHeap)
    → ((k ≡ j) × (h2 ≡ h1) × UpInv n h1.array j) ⊎ ((j < k) × Kept n h1 h2 × IsHeap n h2.array)
    → (i < k) × Kept n h h2 × IsHeap n h2.array
sinks-end n h i j falls at later h1 array_eq kept k h2 (inl (k_j, same, u)) = (
  omega arith,
  subst (Kept n h) (sym same) kept,
  subst (λ a. IsHeap n a) (sym (ap (λ (g : MaxHeap). g.array) same ∙ array_eq))
      (swap-IsHeap n h.array i j falls at later (subst (λ a. UpInv n a j) array_eq u)),
)
sinks-end n h i j falls at later h1 array_eq kept k h2 (inr (deeper, kept2, ordered)) =
    (omega arith, Kept-trans n h h1 h2 kept kept2, ordered)

sift_down_loop-Sinks :
    (fuel n : ℕ) (h : MaxHeap) (i : ℕ)
    → n ≤ i + fuel
    → Fits n h
    → n ≤ h.capacity
    → AtInv n h.array i
    → Sinks n h i (sift_down_loop fuel i n h)
unfolding sift_down_loop
sift_down_loop-Sinks zero n h i enough f le v = absurd (omega (arith, v.inside))
sift_down_loop-Sinks (suc fuel) n h i enough f le v = elim (Bool-cases (ltb (i * 2 + 1) n)) [
  | inr leaf ↦ rw leaf (
    i,
    h,
    refl,
    inl (refl, refl, AtInv-up n h.array i v (λ c p q e. absurd (ground (arith, children c i p e)))),
  )
  | inl inner ↦
      let (j, found, s) = child-IsSmallerChild n h i le (ground arith) in
      let i_in : i < n = v.inside in
      let j_in : j < n = s.inside in
      rw (inner, found, lt→ltb i h.capacity (omega arith), lt→ltb j h.capacity (omega arith))
        (elim (Bool-cases (ltb (key h.array i) (key h.array j))) [
          | inl settled ↦ rw settled (
            i,
            h,
            refl,
            inl (refl, refl, AtInv-up n h.array i v (λ c p q e. ground (arith, s.least c p q e))),
          )
          | inr sinks ↦
              let falls : key h.array j ≤ key h.array i = ground arith in
              let (h1, ran, array_eq, kept) = swap_node_lem n h i j f le i_in j_in in
              let v1 : AtInv n h1.array j =
                subst (λ a. AtInv n a j) (sym array_eq) (swap-AtInv n h.array i j v s falls) in
              let later : i < j = ground (arith, s.below) in
              let parent_j : parent j ≡ i = ground (arith, s.below) in
              let (k, h2, ran2, ended) =
                sift_down_loop-Sinks fuel n h1 j (omega arith) kept.fits
                  (omega (arith, kept.capacity_eq)) v1 in
              rw (sinks, ran)
                (
                  k,
                  h2,
                  ran2,
                  inr (sinks-end n h i j falls parent_j later h1 array_eq kept k h2 ended),
                )
        ])
]

heap_sift_down_lem :
    (n : ℕ) (h : MaxHeap) (i : ℕ)
    → Fits n h
    → n ≤ h.capacity
    → AtInv n h.array i
    → (k : ℕ) × (h1 : MaxHeap) × (heap_sift_down i n h ≡ some (ltb i k, h1))
      × (((k ≡ i) × (h1 ≡ h) × UpInv n h.array i) ⊎ ((i < k) × Kept n h h1 × IsHeap n h1.array))
unfolding heap_sift_down
heap_sift_down_lem n h i f le v =
    let (k, h1, ran, ended) = sift_down_loop-Sinks (n + 1) n h i (omega arith) f le v in
    (
      k,
      h1,
      rw (lt→ltb i h.capacity (omega (arith, v.inside)), le→leb n h.capacity le, ran) refl,
      ended,
    )

-- Where `size_t` has 64 bits: on a heap of which only the edges at `i` may be out of order,
-- `heapSiftDown`, and `heapSiftUp` where it moved nothing, end with the nodes in heap order; they are
-- the same nodes, and what lies behind the heap is as before.
pub settle-Orders :
    (n : ℕ) (h : MaxHeap) (i : ℕ)
    → Fits n h
    → n ≤ h.capacity
    → AtInv n h.array i
    → Orders n h (settle 64 i n h)
unfolding settle
settle-Orders n h i f le v =
    let (k, h1, ran, ended) = heap_sift_down_lem n h i f le v in
    rw ran (elim ended [
      | inl (here, same, u) ↦
          let stays : ltb i k ≡ false = ground (arith, here) in
          rw stays (
            subst (λ g. Orders n h (heap_sift_up 64 i g)) (sym same)
              (heap_sift_up-Orders n h i f le u))
      | inr (deeper, kept, ordered) ↦ rw (lt→ltb i k deeper) (h1, refl, kept, ordered)
    ])
