-- ===== src/TimerHeap/Insert.antt =====
-- `heapInsert` (frameWork/timer/heapTimer.c).
use embedded_linux_iot_gatew.Prelude.{
  ℕ, zero, suc, ◌+◌, ◌≤◌, ◌<◌, ◌≡◌, ◌⊎◌, refl, sym, ap, subst, ◌∙◌, Bool, false, some, lt→ltb, ◌==◌,
  if◌then◌else◌, arith, inl, inr, Bool-cases,
}
use embedded_linux_iot_gatew.TimerHeap.{
  TimerNode, MaxHeap, ref_len, upd, store, insert_new, insert_known, heap_insert,
}
use embedded_linux_iot_gatew.TimerHeap.Order.{
  IsHeap, count_where, one_if, Fits, count_where-upd, count_where-beyond, set_ref_lem,
}
use embedded_linux_iot_gatew.TimerHeap.Up.{UpInv, heap_sift_up-Orders}
use embedded_linux_iot_gatew.TimerHeap.Down.{AtInv, settle-Orders}

-- The heap in use, in order.
pub record IsOrdered (h : MaxHeap) : Type 0 where
  pub fits : Fits h.size h
  pub room : h.size ≤ h.capacity
  pub ordered : IsHeap h.size h.array

upd-ids :
    (m : ℕ) (a : ℕ → TimerNode) (i : ℕ) (x : TimerNode)
    → ((c : ℕ) → c < m → (a c).id < ref_len)
    → x.id < ref_len
    → (c : ℕ) → c < m
    → (upd a i x c).id < ref_len
unfolding upd
upd-ids m a i x ids fine c hc = elim (Bool-cases (c == i)) [
  | inl here ↦ rw here fine
  | inr other ↦ rw other (ids c hc)
]

upd-Fits :
    (n : ℕ) (h : MaxHeap) (i : ℕ) (x : TimerNode)
    → Fits n h
    → x.id < ref_len
    → Fits n (record h { array = upd h.array i x })
upd-Fits n h i x f fine = record { ids = upd-ids n h.array i x f.ids fine; small = f.small }

push-Fits :
    (n : ℕ) (h : MaxHeap) (x : TimerNode)
    → Fits n h
    → x.id < ref_len
    → Fits (n + 1) (record h { array = upd h.array n x })
unfolding upd
push-Fits n h x f fine = record {
  ids = λ c less. elim (Bool-cases (c == n)) [
    | inl here ↦ rw here fine
    | inr other ↦ rw other (f.ids c (ground arith))
  ];
  small = f.small;
}

store_lem :
    (h : MaxHeap) (i : ℕ) (x : TimerNode)
    → i < h.capacity
    → store h i x ≡ some (record h { array = upd h.array i x })
unfolding store
store_lem h i x room = rw (lt→ltb i h.capacity room) refl

upd-UpInv : (n : ℕ) (a : ℕ → TimerNode) (x : TimerNode) → IsHeap n a → UpInv (n + 1) (upd a n x) n
unfolding upd
upd-UpInv n a x ordered = record {
  inside = omega arith;
  edges = λ c p q r. ground (arith, ordered c);
  bridged = λ c p q e pos. absurd (omega arith);
}

upd-AtInv :
    (n : ℕ) (a : ℕ → TimerNode) (i : ℕ) (x : TimerNode) → IsHeap n a → i < n → AtInv n (upd a i x) i
unfolding upd
upd-AtInv n a i x ordered inside = record {
  inside = inside;
  edges = λ c p q r t. ground (arith, ordered c);
  bridged = λ c p q e pos. ground (arith, ordered c, ordered i);
}

upd-here : (a : ℕ → TimerNode) (i : ℕ) (x : TimerNode) → upd a i x i ≡ x
unfolding upd
upd-here a i x = ground arith

count_where-push :
    (p : TimerNode → Bool) (n : ℕ) (a : ℕ → TimerNode) (x : TimerNode)
    → count_where p (n + 1) (upd a n x) ≡ count_where p n a + one_if p x
unfolding count_where
count_where-push p n a x =
    let e : n + 1 ≡ suc n = omega arith in
    let next = ap (λ k. count_where p k (upd a n x)) e in
    omega (arith, next, ap (one_if p) (upd-here a n x), count_where-beyond p n a n x (omega arith))

-- The slots behind the nodes are as before.
abbrev pub IsBehind : (h h1 : MaxHeap) → Type 0
IsBehind h h1 = (c : ℕ) → h1.size ≤ c → h1.array c ≡ h.array c

upd-beyond : (a : ℕ → TimerNode) (i : ℕ) (x : TimerNode) (c : ℕ) → i < c → upd a i x c ≡ a c
unfolding upd
upd-beyond a i x c less = ground arith

-- What an insertion makes of a heap, at the place `i` of the table.
abbrev pub Inserts : (id timeout cb now : ℕ) → (h h1 : MaxHeap) → (i : ℕ) → Type 0
Inserts id timeout cb now h h1 zero =
    (h1.size ≡ h.size + 1)
    × ((p : TimerNode → Bool)
        → count_where p h1.size h1.array
          ≡ count_where p h.size h.array
            + one_if p (record { id = id; expires = now + timeout; cb = cb }))
    × IsBehind h h1
Inserts id timeout cb now h h1 (suc k) =
    (h1.size ≡ h.size)
    × ((p : TimerNode → Bool)
        → count_where p h1.size h1.array + one_if p (h.array (suc k))
          ≡ count_where p h.size h.array
            + one_if p (record (h.array (suc k)) { expires = now + timeout; cb = cb }))
    × IsBehind h h1

module _ (id timeout cb now : ℕ) (h : MaxHeap) (v : IsOrdered h) where
  insert_new-Inserts :
      id < ref_len
      → h.size < h.capacity
      → (h1 : MaxHeap) × (insert_new 64 id timeout cb now h ≡ some h1)
        × IsOrdered h1
        × Inserts id timeout cb now h h1 0
  unfolding insert_new
  insert_new-Inserts place room =
      let x : TimerNode = record { id = id; expires = now + timeout; cb = cb } in
      let h1 : MaxHeap = record h { gs_ref = upd h.gs_ref id h.size } in
      let h2 : MaxHeap = record h1 { array = upd h.array h.size x } in
      let f1 : Fits h.size h1 = record { ids = v.fits.ids; small = v.fits.small } in
      let (h3, ran, kept, ordered) =
        heap_sift_up-Orders (h.size + 1) h2 h.size (push-Fits h.size h1 x f1 place) (omega arith)
          (upd-UpInv h.size h.array x v.ordered) in
      (
        record h3 { size = h3.size + 1 },
        rw (set_ref_lem id h.size h place, store_lem h1 h.size x room, ran) refl,
        record {
          fits = record {
            ids = λ c m. kept.fits.ids c (omega (arith, kept.size_eq));
            small = kept.fits.small;
          };
          room = omega (arith, kept.size_eq, kept.capacity_eq);
          ordered = subst (λ k. IsHeap k h3.array) (ap (λ k. k + 1) (sym kept.size_eq)) ordered;
        },
        (
          omega (arith, kept.size_eq),
          λ p.
              ap (λ k. count_where p (k + 1) h3.array) kept.size_eq
              ∙ kept.nodes p
              ∙ count_where-push p h.size h.array x,
          λ c m.
              kept.beyond c (omega (arith, kept.size_eq))
              ∙ upd-beyond h.array h.size x c (omega (arith, kept.size_eq)),
        ),
      )

  insert_known-Inserts :
      (k : ℕ)
      → suc k < h.size
      → (h1 : MaxHeap) × (insert_known 64 id timeout cb now h (suc k) ≡ some h1)
        × IsOrdered h1
        × Inserts id timeout cb now h h1 (suc k)
  unfolding insert_known
  insert_known-Inserts k inside =
      let i = suc k in
      let in_array : i < h.capacity = omega (arith, v.room) in
      let x : TimerNode = record (h.array i) { expires = now + timeout; cb = cb } in
      let h1 : MaxHeap = record h { array = upd h.array i x } in
      let (h2, ran, kept, ordered) =
        settle-Orders h.size h1 i (upd-Fits h.size h i x v.fits (v.fits.ids i inside)) v.room
          (upd-AtInv h.size h.array i x v.ordered inside) in
      (
        h2,
        rw (lt→ltb i h.capacity in_array, store_lem h i x in_array) ran,
        record {
          fits = record {
            ids = λ c m. kept.fits.ids c (omega (arith, kept.size_eq));
            small = kept.fits.small;
          };
          room = omega (arith, kept.size_eq, kept.capacity_eq, v.room);
          ordered = subst (λ k. IsHeap k h2.array) (sym kept.size_eq) ordered;
        },
        (
          kept.size_eq,
          λ p.
              let n_eq = ap (λ k. count_where p k h2.array) kept.size_eq in
              omega (arith, n_eq, kept.nodes p, count_where-upd p h.size h.array i x inside),
          λ c m.
              kept.beyond c (omega (arith, kept.size_eq))
              ∙ upd-beyond h.array i x c (omega (arith, kept.size_eq)),
        ),
      )

  insert-Inserts :
      (i : ℕ)
      → id < ref_len
      → h.size < h.capacity
      → (i ≡ 0) ⊎ (i < h.size)
      → (h1 : MaxHeap) × ((if i == 0
            then insert_new 64 id timeout cb now h
            else insert_known 64 id timeout cb now h i)
          ≡ some h1)
        × IsOrdered h1
        × Inserts id timeout cb now h h1 i
  insert-Inserts zero place room known = insert_new-Inserts place room
  insert-Inserts (suc k) place room known =
      let there : (suc k == 0) ≡ false = ground arith in
      rw there (insert_known-Inserts k (known_inside known))
    where
      known_inside : (suc k ≡ 0) ⊎ (suc k < h.size) → suc k < h.size
      known_inside (inl e) = absurd (omega arith)
      known_inside (inr e) = e

-- Where `size_t` has 64 bits: `heapInsert` into a heap in order that has room, with an id that has a
-- place in the table and whose entry there is 0 or the place of a node, returns a heap in order. If
-- the entry is 0, it has the new node besides the old ones; else it has the same nodes but for the
-- one at that place, which has the new time and callback. The slots behind the nodes are as before.
pub heap_insert-Inserts :
    (id timeout cb now : ℕ) (h : MaxHeap)
    → IsOrdered h
    → id < ref_len
    → h.size < h.capacity
    → (h.gs_ref id ≡ 0) ⊎ (h.gs_ref id < h.size)
    → (h1 : MaxHeap) × (heap_insert 64 id timeout cb now h ≡ some h1)
      × IsOrdered h1
      × Inserts id timeout cb now h h1 (h.gs_ref id)
unfolding heap_insert
heap_insert-Inserts id timeout cb now h v place room known =
    rw (lt→ltb id ref_len place)
      (insert-Inserts id timeout cb now h v (h.gs_ref id) place room known)
