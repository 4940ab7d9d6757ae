-- ===== src/TimerHeap/Order.antt =====
-- The order of the heap and its nodes (frameWork/timer/heapTimer.c).
use embedded_linux_iot_gatew.Prelude.{
  ℕ, zero, suc, ◌+◌, ◌-◌, ◌/◌, ◌≤◌, ◌<◌, ◌≡◌, refl, ap, ap₂, ◌∙◌, Bool, false, some, lt→ltb, ◌==◌,
  inl, inr, Bool-cases, if◌then◌else◌, arith,
}
use embedded_linux_iot_gatew.TimerHeap.{
  TimerNode, MaxHeap, ref_len, upd, set_ref, swapped, swap_node,
}

abbrev pub key : (ℕ → TimerNode) → ℕ → ℕ
key a i = (a i).expires

abbrev pub parent : ℕ → ℕ
parent c = (c - 1) / 2

-- No node of the first `n` expires before its parent.
abbrev pub IsHeap : ℕ → (ℕ → TimerNode) → Type 0
IsHeap n a = (c : ℕ) → 0 < c → c < n → key a (parent c) ≤ key a c

-- How many of the first `n` nodes pass a test.
unfoldable pub count_where : (TimerNode → Bool) → ℕ → (ℕ → TimerNode) → ℕ
count_where p zero a = 0
count_where p (suc n) a = (if p (a n) then 1 else 0) + count_where p n a

-- The same nodes in some order: each test is passed by as many.
abbrev pub SameNodes : ℕ → (a b : ℕ → TimerNode) → Type 0
SameNodes n a b = (p : TimerNode → Bool) → count_where p n b ≡ count_where p n a

-- The ids in the first slots of the array have places in the table, and the capacity is an `int`.
pub record Fits (n : ℕ) (h : MaxHeap) : Type 0 where
  pub ids : (c : ℕ) → c < n → (h.array c).id < ref_len
  pub small : h.capacity < 2147483648

pub Fits-less : (m n : ℕ) (h : MaxHeap) → m ≤ n → Fits n h → Fits m h
Fits-less m n h le f = record { ids = λ c less. f.ids c (omega arith); small = f.small }

-- What a sift leaves as it was.
pub record Kept (n : ℕ) (h h1 : MaxHeap) : Type 0 where
  pub capacity_eq : h1.capacity ≡ h.capacity
  pub size_eq : h1.size ≡ h.size
  pub fits : Fits n h1
  pub nodes : SameNodes n h.array h1.array
  pub beyond : (c : ℕ) → n ≤ c → h1.array c ≡ h.array c

pub Kept-refl : (n : ℕ) (h : MaxHeap) → Fits n h → Kept n h h
Kept-refl n h f = record {
  capacity_eq = refl;
  size_eq = refl;
  fits = f;
  nodes = λ p. refl;
  beyond = λ c m. refl;
}

pub Kept-trans : (n : ℕ) (h h1 h2 : MaxHeap) → Kept n h h1 → Kept n h1 h2 → Kept n h h2
Kept-trans n h h1 h2 k l = record {
  capacity_eq = l.capacity_eq ∙ k.capacity_eq;
  size_eq = l.size_eq ∙ k.size_eq;
  fits = l.fits;
  nodes = λ p. l.nodes p ∙ k.nodes p;
  beyond = λ c m. l.beyond c m ∙ k.beyond c m;
}

count_where-same :
    (p : TimerNode → Bool) (n : ℕ) (a b : ℕ → TimerNode)
    → ((c : ℕ) → c < n → b c ≡ a c)
    → count_where p n b ≡ count_where p n a
unfolding count_where
count_where-same p zero a b same = refl
count_where-same p (suc n) a b same =
    ap₂ ◌+◌ (ap (λ x. if p x then 1 else 0) (same n (omega arith)))
      (count_where-same p n a b (λ c m. same c (omega arith)))

abbrev pub one_if : (TimerNode → Bool) → TimerNode → ℕ
one_if p x = if p x then 1 else 0

pub count_where-beyond :
    (p : TimerNode → Bool) (n : ℕ) (a : ℕ → TimerNode) (i : ℕ) (x : TimerNode)
    → n ≤ i
    → count_where p n (upd a i x) ≡ count_where p n a
unfolding upd
count_where-beyond p n a i x h = count_where-same p n a (upd a i x) (λ c m. ground arith)

-- A write trades the old node for the new one.
pub count_where-upd :
    (p : TimerNode → Bool) (n : ℕ) (a : ℕ → TimerNode) (i : ℕ) (x : TimerNode)
    → i < n
    → count_where p n (upd a i x) + one_if p (a i) ≡ count_where p n a + one_if p x
unfolding count_where upd
count_where-upd p zero a i x h = absurd (omega arith)
count_where-upd p (suc n) a i x h = elim (Bool-cases (n == i)) [
  | inl here ↦
      let at : n ≡ i = ground arith in
      let less = count_where-beyond p n a i x (omega arith) in
      rw here (omega (arith, less, ap (λ k. one_if p (a k)) at))
  | inr other ↦
      let less : i < n = ground arith in rw other (omega (arith, count_where-upd p n a i x less))
]

swapped-upd : (a : ℕ → TimerNode) (i j : ℕ) → swapped a i j ≡ upd (upd a i (a j)) j (a i)
unfolding swapped upd
swapped-upd a i j = refl

upd-same : (a : ℕ → TimerNode) (i j : ℕ) → upd a i (a j) j ≡ a j
unfolding upd
upd-same a i j = elim (Bool-cases (j == i)) [ inl same ↦ rw same refl | inr other ↦ rw other refl ]

swapped-nodes :
    (n : ℕ) (a : ℕ → TimerNode) (i j : ℕ) → i < n → j < n → SameNodes n a (swapped a i j)
swapped-nodes n a i j hi hj p =
    let b = upd a i (a j) in
    let same : b j ≡ a j = upd-same a i j in
    omega (
      arith,
      ap (count_where p n) (swapped-upd a i j),
      count_where-upd p n b j (a i) hj,
      count_where-upd p n a i (a j) hi,
      ap (one_if p) same,
    )

pub set_ref_lem :
    (id v : ℕ) (h : MaxHeap)
    → id < ref_len
    → set_ref id v h ≡ some (record h { gs_ref = upd h.gs_ref id v })
unfolding set_ref
set_ref_lem id v h small = rw (lt→ltb id ref_len small) refl

swapped-ids :
    (m : ℕ) (a : ℕ → TimerNode) (i j : ℕ)
    → ((c : ℕ) → c < m → (a c).id < ref_len)
    → i < m
    → j < m
    → (c : ℕ) → c < m
    → (swapped a i j c).id < ref_len
unfolding swapped
swapped-ids m a i j ids hi hj c hc = elim (Bool-cases (c == j)) [
  | inl at_j ↦ rw at_j (ids i hi)
  | inr not_j ↦ elim (Bool-cases (c == i)) [
    | inl at_i ↦ rw (not_j, at_i) (ids j hj)
    | inr not_i ↦ rw (not_j, not_i) (ids c hc)
  ]
]

swapped-beyond :
    (n : ℕ) (a : ℕ → TimerNode) (i j : ℕ) → i < n → j < n → (c : ℕ) → n ≤ c → swapped a i j c ≡ a c
unfolding swapped
swapped-beyond n a i j hi hj c m =
    let not_j : (c == j) ≡ false = ground arith in
    let not_i : (c == i) ≡ false = ground arith in rw (not_j, not_i) refl

-- A swap of two of the first `n` nodes succeeds.
pub swap_node_lem :
    (n : ℕ) (h : MaxHeap) (i j : ℕ)
    → Fits n h
    → n ≤ h.capacity
    → i < n
    → j < n
    → (h1 : MaxHeap) × (swap_node i j h ≡ some h1) × (h1.array ≡ swapped h.array i j) × Kept n h h1
unfolding swap_node
swap_node_lem n h i j f le hi hj =
    let hi1 : i < h.capacity = omega arith in
    let hj1 : j < h.capacity = omega arith in
    let ids = swapped-ids n h.array i j f.ids hi hj in
    let h1 : MaxHeap = record h { array = swapped h.array i j } in
    let x : TimerNode = swapped h.array i j i in
    let y : TimerNode = swapped h.array i j j in
    let h2 : MaxHeap = record h1 { gs_ref = upd h1.gs_ref x.id i } in
    (
      record h2 { gs_ref = upd h2.gs_ref y.id j },
      rw (lt→ltb i h.capacity hi1, lt→ltb j h.capacity hj1, set_ref_lem x.id i h1 (ids i hi))
          (set_ref_lem y.id j h2 (ids j hj)),
      refl,
      record {
        capacity_eq = refl;
        size_eq = refl;
        fits = record { ids = ids; small = f.small };
        nodes = swapped-nodes n h.array i j hi hj;
        beyond = swapped-beyond n h.array i j hi hj;
      },
    )
