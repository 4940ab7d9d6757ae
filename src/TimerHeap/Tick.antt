-- ===== src/TimerHeap/Tick.antt =====
-- `heapTick` (frameWork/timer/heapTimer.c).
use embedded_linux_iot_gatew.Prelude.{
  ℕ, zero, suc, ◌+◌, ◌≤◌, ◌<◌, ◌≡◌, refl, sym, ap, subst, Bool, true, some, List, [], ◌∷◌, length,
  ltb, lt→ltb, ◌==◌, arith, inl, inr, Bool-cases,
}
use embedded_linux_iot_gatew.TimerHeap.{TimerNode, MaxHeap, ref_len, heap_tick}
use embedded_linux_iot_gatew.TimerHeap.Order.{key, parent, IsHeap, count_where, one_if}
use embedded_linux_iot_gatew.TimerHeap.Insert.{IsOrdered}
use embedded_linux_iot_gatew.TimerHeap.Delete.{Deletes, heap_pop-Deletes}

-- The root of a heap expires first.
root_least :
    (fuel n : ℕ) (a : ℕ → TimerNode) (c : ℕ) → IsHeap n a → c < n → c < fuel → key a 0 ≤ key a c
root_least zero n a c ordered inside enough = absurd (omega arith)
root_least (suc fuel) n a zero ordered inside enough = omega arith
root_least (suc fuel) n a (suc c) ordered inside enough =
    let above = root_least fuel n a (parent (suc c)) ordered (omega arith) (omega arith) in
    omega (arith, above, ordered (suc c) (omega arith) inside)

-- None of the first `n` nodes expires before a time, said by a count, and by each node.
abbrev before : ℕ → TimerNode → Bool
before t x = ltb x.expires t

none_before :
    (n t : ℕ) (a : ℕ → TimerNode) → ((c : ℕ) → c < n → t ≤ key a c) → count_where (before t) n a ≡ 0
unfolding count_where
none_before zero t a late = refl
none_before (suc n) t a late =
    let last = late n (omega arith) in
    let rest = none_before n t a (λ c m. late c (omega arith)) in ground (arith, last, rest)

before_none :
    (n t : ℕ) (a : ℕ → TimerNode) → count_where (before t) n a ≡ 0 → (c : ℕ) → c < n → t ≤ key a c
unfolding count_where
before_none zero t a h c m = absurd (omega arith)
before_none (suc n) t a h c m = elim (Bool-cases (c == n)) [
  | inl last ↦ let at : c ≡ n = ground arith in ground (arith, ap (key a) at)
  | inr other ↦ before_none n t a (ground arith) c (ground arith)
]

unfoldable pub count_list : (TimerNode → Bool) → List TimerNode → ℕ
count_list p [] = 0
count_list p (x ∷ xs) = one_if p x + count_list p xs

-- Each node's time has come in its turn.
abbrev pub AreDue : (now : ℕ → ℕ) → List TimerNode → Type 0
AreDue now [] = Unit
AreDue now (x ∷ xs) = (x.expires ≤ now 0) × AreDue (λ k. now (k + 1)) xs

-- The times go up, from `t` on.
abbrev pub AreInOrder : (t : ℕ) → List TimerNode → Type 0
AreInOrder t [] = Unit
AreInOrder t (x ∷ xs) = (t ≤ x.expires) × AreInOrder x.expires xs

-- What `heapTick` has called back and what it leaves.
pub record IsTicked (now : ℕ → ℕ) (t : ℕ) (h h1 : MaxHeap) (fired : List TimerNode) : Type 0 where
  pub sound : IsOrdered h1
  pub due : AreDue now fired
  pub in_order : AreInOrder t fired
  pub later : (c : ℕ) → c < h1.size → now (length fired) < key h1.array c
  pub nodes :
      (p : TimerNode → Bool)
      → count_where p h1.size h1.array + count_list p fired ≡ count_where p h.size h.array

-- No node is called back.
rests :
    (now : ℕ → ℕ) (t : ℕ) (h : MaxHeap)
    → IsOrdered h
    → ((c : ℕ) → c < h.size → now 0 < key h.array c)
    → IsTicked now t h h []
unfolding count_list
rests now t h v later = record {
  sound = v;
  due = tt;
  in_order = tt;
  later = later;
  nodes = λ p. omega arith;
}

-- The root is called back first.
fires :
    (now : ℕ → ℕ) (t : ℕ) (h h1 h2 : MaxHeap) (fired : List TimerNode)
    → t ≤ key h.array 0
    → key h.array 0 ≤ now 0
    → Deletes 0 h h1
    → IsTicked (λ k. now (k + 1)) (key h.array 0) h1 h2 fired
    → IsTicked now t h h2 (h.array 0 ∷ fired)
unfolding count_list
fires now t h h1 h2 fired late due (less, capacity_eq, behind, nodes) k = record {
  sound = k.sound;
  due = (due, k.due);
  in_order = (late, k.in_order);
  later = λ c m.
      let e : length fired + 1 ≡ suc (length fired) = omega arith in
      subst (λ l. now l < key h2.array c) e (k.later c m);
  nodes = λ p. omega (arith, k.nodes p, nodes p);
}

heap_tick-IsTicked_from :
    (fuel : ℕ) (now : ℕ → ℕ) (t : ℕ) (h : MaxHeap)
    → IsOrdered h
    → h.size < h.capacity
    → (h.array h.size).id < ref_len
    → h.size ≤ fuel
    → ((c : ℕ) → c < h.size → t ≤ key h.array c)
    → (fired : List TimerNode) × (h1 : MaxHeap) × (heap_tick fuel 64 now h ≡ some (fired, h1))
      × IsTicked now t h h1 fired
unfolding heap_tick
heap_tick-IsTicked_from zero now t h v room placed enough late =
    let empty : (h.size == 0) ≡ true = ground arith in
    rw empty ([], h, refl, rests now t h v (λ c m. absurd (omega arith)))
heap_tick-IsTicked_from (suc fuel) now t h v room placed enough late =
    elim (Bool-cases (h.size == 0)) [
      | inl empty ↦ rw empty ([], h, refl, rests now t h v (λ c m. absurd (ground arith)))
      | inr some_node ↦
          let has_root : 0 < h.size = ground arith in
          let least = λ (c : ℕ) (m : c < h.size).
            root_least (suc c) h.size h.array c v.ordered m (omega arith) in
          rw (some_node, lt→ltb 0 h.capacity (omega arith))
            (elim (Bool-cases (ltb (now 0) (key h.array 0))) [
              | inl early ↦
                  rw early ([], h, refl, rests now t h v (λ c m. ground (arith, least c m)))
              | inr due ↦
                  let (h1, popped, v1, left) = heap_pop-Deletes h v has_root room placed in
                  let (less, capacity_eq, behind, nodes) = left in
                  let placed1 : (h1.array h1.size).id < ref_len =
                    subst (λ y. y.id < ref_len) (sym behind) (v.fits.ids 0 has_root) in
                  let low = key h.array 0 in
                  let none_left : count_where (before low) h1.size h1.array ≡ 0 =
                    omega (arith, nodes (before low), none_before h.size low h.array least) in
                  let (fired, h2, ticked, k) =
                    heap_tick-IsTicked_from fuel (λ k. now (k + 1)) low h1 v1
                      (omega (arith, less, capacity_eq)) placed1 (omega (arith, less))
                      (before_none h1.size low h1.array none_left) in
                  rw (due, popped, ticked)
                    (
                      h.array 0 ∷ fired,
                      h2,
                      refl,
                      fires now t h h1 h2 fired (late 0 has_root) (ground arith) left k,
                    )
            ])
    ]

-- Where `size_t` has 64 bits: on a heap in order that does not fill the array, whose slot behind the
-- last node, which may never have been written, holds an id that has a place in the table, and with
-- turns for as many nodes as it has, `heapTick` ends. It has called back nodes whose time had come
-- in their turn, in the order of their times, and leaves the other nodes as a heap in order, of
-- which none had come to its time when the last turn looked.
pub heap_tick-IsTicked :
    (fuel : ℕ) (now : ℕ → ℕ) (h : MaxHeap)
    → IsOrdered h
    → h.size < h.capacity
    → (h.array h.size).id < ref_len
    → h.size ≤ fuel
    → (fired : List TimerNode) × (h1 : MaxHeap) × (heap_tick fuel 64 now h ≡ some (fired, h1))
      × IsTicked now 0 h h1 fired
heap_tick-IsTicked fuel now h v room placed enough =
    heap_tick-IsTicked_from fuel now 0 h v room placed enough (λ c m. omega arith)
