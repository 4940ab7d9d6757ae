-- ===== src/LinkedList/Delete/Lemmas.antt =====
-- What the ways of `lstDel` (frameWork/list/list.c) share.
use embedded_linux_iot_gatew.Prelude.{
  ℕ, ◌≡◌, ◌≤◌, inl, inr, true, false, Option, none, some, List, [], ◌∷◌, ◌++◌, Bool-cases, ◌==◌,
  ◌>>=◌, arith, if◌then◌else◌,
}
use embedded_linux_iot_gatew.LinkedList.{
  Lst, Cell, Heap, load, ptr_eq, lst_del, del_head, del_tail, del_inner, uncount,
}
use embedded_linux_iot_gatew.LinkedList.Seg.{
  has, first_or, last_or, IsList, SameOutside, has-append,
}

-- The list without the node `n`, which is freed, from a list with it.
abbrev pub Drops : List ℕ → ℕ → List ℕ → Heap → Option (Lst × Heap) → Type 0
Drops before n after h o =
    (l' : Lst) × (h' : Heap) × (o ≡ some (l', h'))
    × IsList h' l' (before ++ after)
    × (h' n ≡ none)
    × SameOutside (before ++ (n ∷ after)) h h'

pub load_lem : (h : Heap) (p : ℕ) (c : Cell) → h p ≡ some c → load (some p) h ≡ some c
unfolding load
load_lem h p c e = e

pub ptr_eq_self : (n : ℕ) → ptr_eq (some n) (some n) ≡ true
unfolding ptr_eq
ptr_eq_self n = ground arith

pub ptr_eq-ne : (m n : ℕ) → (n == m) ≡ false → ptr_eq (some m) (some n) ≡ false
unfolding ptr_eq
ptr_eq-ne m n h = ground arith

pub not_in-front :
    (n : ℕ) (ys : List ℕ) (t : ℕ)
    → has n (ys ++ (t ∷ [])) ≡ false
    → (has n ys ≡ false) × ((n == t) ≡ false)
not_in-front n ys t h = ground (arith, has-append n ys (t ∷ []))

-- The nodes behind a part do not stand in it.
pub not_after :
    (front : List ℕ) (t : ℕ) (xs : List ℕ)
    → ((a : ℕ) → has a xs ≡ true → has a front ≡ false)
    → has t front ≡ true
    → has t xs ≡ false
not_after front t xs far here = elim (Bool-cases (has t xs)) [
  | inl twice ↦ cc (far t twice, here)
  | inr once ↦ once
]

pub not_last :
    (n x : ℕ) (xs : List ℕ)
    → (n == x) ≡ false
    → has n xs ≡ false
    → ptr_eq (last_or (some x) xs) (some n) ≡ false
not_last n x [] n_x out = ptr_eq-ne x n n_x
not_last n x (y ∷ ys) n_x out = not_last n y ys (ground arith) (ground arith)

pub outside-inner :
    (a : ℕ) (front : List ℕ) (n x : ℕ) (xs : List ℕ)
    → has a (front ++ (n ∷ x ∷ xs)) ≡ false
    → (has a front ≡ false) × ((a == n) ≡ false) × ((a == x) ≡ false)
outside-inner a front n x xs o = ground (arith, has-append a front (n ∷ x ∷ xs))

-- The first node is not one that stands behind it.
pub not_head :
    (l : Lst) (n : ℕ) (ys : List ℕ) (t : ℕ) (zs : List ℕ)
    → l.head ≡ first_or ((ys ++ (t ∷ [])) ++ zs) none
    → has n (ys ++ (t ∷ [])) ≡ false
    → ptr_eq l.head (some n) ≡ false
not_head l n [] t zs e out = rw e (ptr_eq-ne t n (ground arith))
not_head l n (y ∷ ys) t zs e out = rw e (ptr_eq-ne y n (ground arith))

module _ (h : Heap) (l : Lst) (n : ℕ) where
  pub del-more :
      2 ≤ l.count
      → lst_del l (some n) h ≡ (
          (if ptr_eq l.head (some n)
            then del_head l (some n) h
            else (if ptr_eq l.tail (some n) then del_tail l (some n) h else del_inner l (some n) h))
          >>= uncount)
  unfolding lst_del
  del-more many =
      let more : (l.count == 0) ≡ false = ground arith in
      let more' : (l.count == 1) ≡ false = ground arith in rw (more, more')
