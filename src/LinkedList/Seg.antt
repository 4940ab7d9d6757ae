-- ===== src/LinkedList/Seg.antt =====
-- Chains of nodes in the heap (frameWork/list/list.h), and the list that a `LIST` stands for.
use embedded_linux_iot_gatew.Prelude.{
  ℕ, ◌≡◌, refl, sym, ap, subst, ◌∙◌, ◌⊎◌, inl, inr, Bool, true, false, ◌||◌, Option, none, some,
  List, [], ◌∷◌, ◌++◌, length, ◌==◌, arith,
}
use embedded_linux_iot_gatew.LinkedList.Nodes.{
  Ptr, Cell, cell, Heap, write, set_next, set_prev, free,
}
use embedded_linux_iot_gatew.LinkedList.{Lst}

abbrev pub has : ℕ → List ℕ → Bool
has a [] = false
has a (x ∷ xs) = (a == x) || has a xs

abbrev pub AreDistinct : List ℕ → Type 0
AreDistinct [] = Unit
AreDistinct (x ∷ xs) = (has x xs ≡ false) × AreDistinct xs

-- The first node of a chain, or what follows it.
abbrev pub first_or : List ℕ → Ptr → Ptr
first_or [] q = q
first_or (x ∷ xs) q = some x

-- The last node of a chain, or what precedes it.
abbrev pub last_or : Ptr → List ℕ → Ptr
last_or p [] = p
last_or p (x ∷ xs) = last_or (some x) xs

-- The nodes are linked to one another both ways, between `p` and `q`.
abbrev pub Seg : Heap → Ptr → List ℕ → Ptr → Type 0
Seg h p [] q = Unit
Seg h p (x ∷ xs) q = (h x ≡ some (cell (first_or xs q) p)) × Seg h (some x) xs q

-- The `LIST` and the heap hold the list of the nodes, in order.
pub record IsList (h : Heap) (l : Lst) (xs : List ℕ) : Type 0 where
  pub head_eq : l.head ≡ first_or xs none
  pub tail_eq : l.tail ≡ last_or none xs
  pub counted : l.count ≡ length xs
  pub linked : Seg h none xs none
  pub distinct : AreDistinct xs

-- Outside of the nodes the heaps agree.
abbrev pub SameOutside : List ℕ → Heap → Heap → Type 0
SameOutside xs h g = (a : ℕ) → has a xs ≡ false → g a ≡ h a

pub has-append : (a : ℕ) (xs ys : List ℕ) → has a (xs ++ ys) ≡ (has a xs || has a ys)
has-append a [] ys = refl
has-append a (x ∷ xs) ys = ground (arith, has-append a xs ys)

pub first_or-append :
    (xs ys : List ℕ) (q : Ptr) → first_or (xs ++ ys) q ≡ first_or xs (first_or ys q)
first_or-append [] ys q = refl
first_or-append (x ∷ xs) ys q = refl

pub last_or-append : (p : Ptr) (xs ys : List ℕ) → last_or p (xs ++ ys) ≡ last_or (last_or p xs) ys
last_or-append p [] ys = refl
last_or-append p (x ∷ xs) ys = last_or-append (some x) xs ys

pub has_ne : (a b : ℕ) (xs : List ℕ) → has a xs ≡ false → has b xs ≡ true → (b == a) ≡ false
has_ne a b [] out m = cc
has_ne a b (x ∷ xs) out m = ground (arith, has_ne a b xs)

pub write_self : (h : Heap) (p : ℕ) (c : Option Cell) → write h p c p ≡ c
unfolding write
write_self h p c = ground arith

pub write_other :
    (h : Heap) (p : ℕ) (c : Option Cell) (a : ℕ) → (a == p) ≡ false → write h p c a ≡ h a
unfolding write
write_other h p c a e = rw e

module _ (h : Heap) (p : ℕ) (q r : Ptr) (e : h p ≡ some (cell q r)) where
  pub set_next_lem : (t : Ptr) → set_next (some p) t h ≡ some (write h p (some (cell t r)))
  unfolding set_next
  set_next_lem t = rw e

  pub set_prev_lem : (t : Ptr) → set_prev (some p) t h ≡ some (write h p (some (cell q t)))
  unfolding set_prev
  set_prev_lem t = rw e

  pub free_lem : free (some p) h ≡ some (write h p none)
  unfolding free
  free_lem = rw e

-- A list is empty or has a last node.
pub last-cases : (xs : List ℕ) → (xs ≡ []) ⊎ ((ys : List ℕ) × (t : ℕ) × (xs ≡ ys ++ (t ∷ [])))
last-cases [] = inl refl
last-cases (x ∷ xs) = inr (elim (last-cases xs) [
  | inl e ↦ ([], x, ap (λ r. x ∷ r) e)
  | inr (ys, t, e) ↦ (x ∷ ys, t, ap (λ r. x ∷ r) e)
])

module _ (h : Heap) where
  pub Seg-append :
      (p : Ptr) (xs ys : List ℕ) (q : Ptr)
      → Seg h p xs (first_or ys q)
      → Seg h (last_or p xs) ys q
      → Seg h p (xs ++ ys) q
  Seg-append p [] ys q s t = t
  Seg-append p (x ∷ xs) ys q (e, s) t = (
    e ∙ ap (λ r. some (cell r p)) (sym (first_or-append xs ys q)),
    Seg-append (some x) xs ys q s t,
  )

  pub Seg-split :
      (p : Ptr) (xs ys : List ℕ) (q : Ptr)
      → Seg h p (xs ++ ys) q
      → Seg h p xs (first_or ys q) × Seg h (last_or p xs) ys q
  Seg-split p [] ys q s = (tt, s)
  Seg-split p (x ∷ xs) ys q (e, s) =
      let (a, b) = Seg-split (some x) xs ys q s in
      ((e ∙ ap (λ r. some (cell r p)) (first_or-append xs ys q), a), b)

  pub frame :
      (g : Heap) (p : Ptr) (xs : List ℕ) (q : Ptr)
      → Seg h p xs q
      → ((a : ℕ) → has a xs ≡ true → g a ≡ h a)
      → Seg g p xs q
  frame g p [] q s same = tt
  frame g p (x ∷ xs) q (e, s) same =
      (same x (ground arith) ∙ e, frame g (some x) xs q s (λ a m. same a (ground arith)))

  pub frame-write :
      (p : Ptr) (xs : List ℕ) (q : Ptr) (a : ℕ) (c : Option Cell)
      → Seg h p xs q
      → has a xs ≡ false
      → Seg (write h a c) p xs q
  frame-write p xs q a c s out =
      frame (write h a c) p xs q s (λ b m. write_other h a c b (has_ne a b xs out m))

pub AreDistinct-append :
    (xs ys : List ℕ)
    → AreDistinct xs
    → AreDistinct ys
    → ((a : ℕ) → has a ys ≡ true → has a xs ≡ false)
    → AreDistinct (xs ++ ys)
AreDistinct-append [] ys d e apart = e
AreDistinct-append (x ∷ xs) ys d e apart = (
  has-append x xs ys ∙ ground (arith, d.0, apart x),
  AreDistinct-append xs ys d.1 e (λ a m. ground (arith, apart a m)),
)

pub distinct_split :
    (xs ys : List ℕ)
    → AreDistinct (xs ++ ys)
    → AreDistinct xs × AreDistinct ys × ((a : ℕ) → has a ys ≡ true → has a xs ≡ false)
distinct_split [] ys d = (tt, d, λ a m. refl)
distinct_split (x ∷ xs) ys (out, d) =
    let (dx, dy, apart) = distinct_split xs ys d in
    (
      (ground (arith, has-append x xs ys), dx),
      dy,
      λ a m. ground (arith, apart a m, has-append x xs ys),
    )

pub AreDistinct-add :
    (xs : List ℕ) (n : ℕ) → AreDistinct xs → has n xs ≡ false → AreDistinct (xs ++ (n ∷ []))
AreDistinct-add xs n d out =
    AreDistinct-append xs (n ∷ []) d (refl, tt)
      (λ a m. subst (λ b. has b xs ≡ false) (same a m) out)
  where
    same : (a : ℕ) → has a (n ∷ []) ≡ true → n ≡ a
    same a m = ground arith

pub first_or-more :
    (ys : List ℕ) (t : ℕ) (zs : List ℕ)
    → first_or (ys ++ (t ∷ [])) none ≡ first_or ((ys ++ (t ∷ [])) ++ zs) none
first_or-more [] t zs = refl
first_or-more (y ∷ ys) t zs = refl

pub outside-ends :
    (a : ℕ) (ys : List ℕ) (t n : ℕ)
    → has a ((ys ++ (t ∷ [])) ++ (n ∷ [])) ≡ false
    → ((a == t) ≡ false) × ((a == n) ≡ false)
outside-ends a ys t n o =
    ground (arith, has-append a (ys ++ (t ∷ [])) (n ∷ []), has-append a ys (t ∷ []))
