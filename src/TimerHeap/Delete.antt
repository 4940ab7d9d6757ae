-- ===== src/TimerHeap/Delete.antt =====
-- `heapDel` and `heapPop` (frameWork/timer/heapTimer.c).
use embedded_linux_iot_gatew.Prelude.{
  ℕ, suc, ◌+◌, ◌-◌, ◌≤◌, ◌<◌, ◌≡◌, ◌^◌, refl, sym, ap, subst, ◌∙◌, Bool, false, Option, none, some,
  ltb, lt→ltb, le→leb, arith, inl, inr, Bool-cases, ◌>>=◌,
}
use embedded_linux_iot_gatew.TimerHeap.{
  TimerNode, MaxHeap, ref_len, upd, load, swapped, swap_node, set_ref, settle, heap_pop_back,
  heap_del, heap_pop,
}
use embedded_linux_iot_gatew.TimerHeap.Order.{
  IsHeap, count_where, one_if, Fits, Fits-less, set_ref_lem, swap_node_lem,
}
use embedded_linux_iot_gatew.TimerHeap.Down.{AtInv, settle-Orders}
use embedded_linux_iot_gatew.TimerHeap.Insert.{IsOrdered}

swapped-AtInv :
    (n : ℕ) (a : ℕ → TimerNode) (i : ℕ) → IsHeap (suc n) a → i < n → AtInv n (swapped a i n) i
unfolding swapped
swapped-AtInv n a i ordered inside = record {
  inside = inside;
  edges = λ c p q r t. ground (arith, ordered c);
  bridged = λ c p q e pos. ground (arith, ordered c, ordered i);
}

swapped-last : (a : ℕ → TimerNode) (i n : ℕ) → swapped a i n n ≡ a i
unfolding swapped
swapped-last a i n = ground arith

-- The last node is taken out of the `n + 1`; it stays in its slot, and so does what is behind it.
abbrev Rest : (n : ℕ) (h : MaxHeap) (x : TimerNode) → Option MaxHeap → Type 0
Rest n h x o =
    (h1 : MaxHeap) × (o ≡ some h1)
    × (h1.capacity ≡ h.capacity)
    × (h1.size ≡ h.size)
    × Fits n h1
    × IsHeap n h1.array
    × (h1.array n ≡ x)
    × (h1.array (suc n) ≡ h.array (suc n))
    × ((p : TimerNode → Bool)
        → count_where p n h1.array + one_if p x ≡ count_where p (suc n) h.array)

module _ (n : ℕ) (h : MaxHeap) (f : Fits (suc n) h) (room : suc n ≤ h.capacity)
    (ordered : IsHeap (suc n) h.array) where
  inner-Rest : (i : ℕ) → i < n → Rest n h (h.array i) (swap_node i n h >>= settle 64 i n)
  unfolding count_where
  inner-Rest i inside =
      let (h1, ran, array_eq, kept) =
        swap_node_lem (suc n) h i n f room (omega arith) (omega arith) in
      let at : AtInv n h1.array i =
        subst (λ a. AtInv n a i) (sym array_eq) (swapped-AtInv n h.array i ordered inside) in
      let (h2, ran2, kept2, ordered2) =
        settle-Orders n h1 i (Fits-less n (suc n) h1 (omega arith) kept.fits)
          (omega (arith, kept.capacity_eq)) at in
      rw ran (
        h2,
        ran2,
        kept2.capacity_eq ∙ kept.capacity_eq,
        kept2.size_eq ∙ kept.size_eq,
        kept2.fits,
        ordered2,
        kept2.beyond n (omega arith) ∙ ap (λ a. a n) array_eq ∙ swapped-last h.array i n,
        kept2.beyond (suc n) (omega arith) ∙ kept.beyond (suc n) (omega arith),
        λ p.
            let at_n = ap (one_if p) (ap (λ a. a n) array_eq ∙ swapped-last h.array i n) in
            omega (arith, kept2.nodes p, kept.nodes p, at_n),
      )

  last-Rest : Rest n h (h.array n) (some h)
  unfolding count_where
  last-Rest = (
    h,
    refl,
    refl,
    refl,
    Fits-less n (suc n) h (omega arith) f,
    λ c p q. ordered c p (omega arith),
    refl,
    refl,
    λ p. omega arith,
  )

-- What a deletion at `i` makes of a heap; the node is left in the slot behind the last one.
abbrev pub Deletes : (i : ℕ) → (h h1 : MaxHeap) → Type 0
Deletes i h h1 =
    (h1.size + 1 ≡ h.size)
    × (h1.capacity ≡ h.capacity)
    × (h1.array h1.size ≡ h.array i)
    × ((p : TimerNode → Bool)
        → count_where p h1.size h1.array + one_if p (h.array i) ≡ count_where p h.size h.array)

heap_pop_back_lem : (h : MaxHeap) → 0 < h.size → heap_pop_back h ≡ record h { size = h.size - 1 }
unfolding heap_pop_back
heap_pop_back_lem h some_node = rw (lt→ltb 0 h.size some_node) refl

-- The end of `heapDel`.
forget : MaxHeap → Option MaxHeap
forget h1 = load h1 h1.size >>= λ x. set_ref x.id (2 ^ 64 - 1) h1 >>= λ h2. some (heap_pop_back h2)

forget_lem :
    (n : ℕ) (h1 : MaxHeap)
    → (h1.array h1.size).id < ref_len
    → h1.size ≡ suc n
    → h1.size < h1.capacity
    → forget h1
      ≡ some (record h1 { size = n; gs_ref = upd h1.gs_ref (h1.array h1.size).id (2 ^ 64 - 1) })
unfolding forget
forget_lem n h1 placed size_eq room =
    let r : ℕ → ℕ = upd h1.gs_ref (h1.array h1.size).id (2 ^ 64 - 1) in
    let less : h1.size - 1 ≡ n = omega arith in
    rw (lt→ltb h1.size h1.capacity room, set_ref_lem (h1.array h1.size).id (2 ^ 64 - 1) h1 placed)
      (ap some (
        heap_pop_back_lem (record h1 { gs_ref = r }) (omega arith)
        ∙ ap (λ k. record h1 { size = k; gs_ref = r }) less))

module _ (i n : ℕ) (h : MaxHeap) (v : IsOrdered h) (size_eq : h.size ≡ suc n)
    (inside : i < h.size) where
  -- `heapDel` up to the change of the table.
  heap_del-Rest : (o : Option MaxHeap) × (heap_del 64 i h ≡ (o >>= forget)) × Rest n h (h.array i) o
  unfolding heap_del forget
  heap_del-Rest =
      let room = v.room in
      let less : h.size - 1 ≡ n = omega arith in
      let ordered : IsHeap (suc n) h.array = subst (λ k. IsHeap k h.array) size_eq v.ordered in
      let in_n : i ≤ n = omega arith in
      let fits : Fits (suc n) h = subst (λ k. Fits k h) size_eq v.fits in
      rw (lt→ltb 0 h.size (omega arith), lt→ltb i h.capacity (omega arith), less, le→leb i n in_n)
        (elim (Bool-cases (ltb i n)) [
          | inl inner ↦ rw inner (
            swap_node i n h >>= settle 64 i n,
            refl,
            inner-Rest n h fits (omega arith) ordered i (ground arith),
          )
          | inr last ↦
              let at : n ≡ i = ground arith in
              rw last (
                some h,
                refl,
                subst (λ k. Rest n h (h.array k) (some h)) at
                    (last-Rest n h fits (omega arith) ordered),
              )
        ])

  behind_placed :
      (h1 : MaxHeap)
      → h1.size ≡ h.size
      → h1.array (suc n) ≡ h.array (suc n)
      → (h.array h.size).id < ref_len
      → (h1.array h1.size).id < ref_len
  behind_placed h1 kept_size behind placed =
      let same : h1.array h1.size ≡ h.array h.size =
        ap h1.array (kept_size ∙ size_eq) ∙ behind ∙ ap h.array (sym size_eq) in
      subst (λ y. y.id < ref_len) (sym same) placed

  finish-Deletes :
      (o : Option MaxHeap)
      → Rest n h (h.array i) o
      → h.size < h.capacity
      → (h.array h.size).id < ref_len
      → (h1 : MaxHeap) × (o >>= forget ≡ some h1) × IsOrdered h1 × Deletes i h h1
  finish-Deletes o (h1, ran, capacity_eq, kept_size, f, ordered, last, behind, nodes) room placed =
      (
        record h1 { size = n; gs_ref = upd h1.gs_ref (h1.array h1.size).id (2 ^ 64 - 1) },
        ap (λ r. r >>= forget) ran
            ∙ forget_lem n h1 (behind_placed h1 kept_size behind placed) (kept_size ∙ size_eq)
                (omega (arith, kept_size, capacity_eq)),
        record {
          fits = record { ids = f.ids; small = f.small };
          room = omega (arith, kept_size, capacity_eq);
          ordered = ordered;
        },
        (
          omega arith,
          capacity_eq,
          last,
          λ p. nodes p ∙ ap (λ k. count_where p k h.array) (sym size_eq),
        ),
      )

  finish_full :
      (o : Option MaxHeap) → Rest n h (h.array i) o → h.size ≡ h.capacity → (o >>= forget) ≡ none
  unfolding forget
  finish_full o (h1, ran, capacity_eq, kept_size, f, ordered, last, behind, nodes) full =
      let out : ltb h1.size h1.capacity ≡ false = ground (arith, capacity_eq, kept_size) in
      rw (ran, out) refl

module _ (i : ℕ) (h : MaxHeap) (v : IsOrdered h) (inside : i < h.size) where
  del_parts :
      (o : Option MaxHeap) × (heap_del 64 i h ≡ (o >>= forget)) × Rest (h.size - 1) h (h.array i) o
  del_parts = heap_del-Rest i (h.size - 1) h v (omega arith) inside

-- Where `size_t` has 64 bits: `heapDel` of a node of a heap in order, which does not fill the array,
-- returns a heap in order with the other nodes, and leaves the node in the slot behind the last one.
-- The slot behind the last node, which may never have been written, must hold an id that has a place
-- in the table, since `heapDel` writes there.
pub heap_del-Deletes :
    (i : ℕ) (h : MaxHeap)
    → IsOrdered h
    → i < h.size
    → h.size < h.capacity
    → (h.array h.size).id < ref_len
    → (h1 : MaxHeap) × (heap_del 64 i h ≡ some h1) × IsOrdered h1 × Deletes i h h1
heap_del-Deletes i h v inside room placed =
    let (o, same, rest) = del_parts i h v inside in
    subst (λ r. (h1 : MaxHeap) × (r ≡ some h1) × IsOrdered h1 × Deletes i h h1) (sym same)
      (finish-Deletes i (h.size - 1) h v (omega arith) inside o rest room placed)

-- When the nodes of a heap in order fill the array, `heapDel` of any of them reads behind it, where
-- `size_t` has 64 bits.
pub heap_del_full :
    (i : ℕ) (h : MaxHeap) → IsOrdered h → i < h.size → h.size ≡ h.capacity → heap_del 64 i h ≡ none
heap_del_full i h v inside full =
    let (o, same, rest) = del_parts i h v inside in
    same ∙ finish_full i (h.size - 1) h v (omega arith) inside o rest full

-- When the slot behind the last node, which may never have been written, holds an id that has no
-- place in the table, `heapDel` of the last node writes outside of the table.
heap_del_unset :
    (w : ℕ) (h : MaxHeap)
    → 0 < h.size
    → h.size < h.capacity
    → ref_len ≤ (h.array h.size).id
    → heap_del w (h.size - 1) h ≡ none
unfolding heap_del set_ref
heap_del_unset w h some_node room unset =
    let last : ltb (h.size - 1) (h.size - 1) ≡ false = ground arith in
    let outside : ltb (h.array h.size).id ref_len ≡ false = ground arith in
    rw
      (
        lt→ltb 0 h.size some_node,
        lt→ltb (h.size - 1) h.capacity (omega arith),
        le→leb (h.size - 1) (h.size - 1) (omega arith),
        last,
        lt→ltb h.size h.capacity room,
        outside,
      )
      refl

-- Taking the root out of a heap in order that does not fill the array leaves a heap in order with the
-- other nodes, when the slot behind the last node holds an id that has a place in the table.
pub heap_pop-Deletes :
    (h : MaxHeap)
    → IsOrdered h
    → 0 < h.size
    → h.size < h.capacity
    → (h.array h.size).id < ref_len
    → (h1 : MaxHeap) × (heap_pop 64 h ≡ some h1) × IsOrdered h1 × Deletes 0 h h1
unfolding heap_pop
heap_pop-Deletes h v inside room placed =
    rw (lt→ltb 0 h.size inside) (heap_del-Deletes 0 h v inside room placed)
