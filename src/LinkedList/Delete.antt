-- ===== src/LinkedList/Delete.antt =====
-- Taking a node out of a list (frameWork/list/list.c).
pub mod Lemmas
pub mod Ends
pub mod Inner
use embedded_linux_iot_gatew.Prelude.{
  ℕ, suc, ◌+◌, ◌-◌, ◌≡◌, ◌≤◌, refl, sym, ap, ap₂, subst, ◌∙◌, ◌⊎◌, inl, inr, Bool, true, false,
  ◌||◌, Option, none, some, List, [], ◌∷◌, ◌++◌, Bool-cases, length, length-append, ◌==◌, ◌>>=◌,
  arith, if◌then◌else◌, append-nil, append_assoc,
}
use embedded_linux_iot_gatew.LinkedList.{
  Lst, Ptr, Cell, cell, Heap, write, load, set_next, set_prev, free, ptr_eq, lst_del, del_only,
  del_head, del_tail, del_inner, uncount,
}
use embedded_linux_iot_gatew.LinkedList.Seg.{
  has, AreDistinct, first_or, last_or, Seg, IsList, SameOutside, has-append, first_or-append,
  last_or-append, write_self, write_other, set_next_lem, set_prev_lem, free_lem, last-cases,
  Seg-append, Seg-split, frame, frame-write, has_ne, AreDistinct-append, distinct_split,
  first_or-more, outside-ends,
}
use embedded_linux_iot_gatew.LinkedList.Delete.Lemmas.{
  Drops, load_lem, ptr_eq_self, ptr_eq-ne, not_in-front, not_after, not_last, outside-inner,
  not_head,
}
use embedded_linux_iot_gatew.LinkedList.Delete.Ends.{del-only, del-head, del-tail}
use embedded_linux_iot_gatew.LinkedList.Delete.Inner.{del-inner}

-- Deleting a node of a list, whichever it is, frees it and makes the list without it; the heap changes
-- at no node outside of the list.
pub lst_del-IsList :
    (h : Heap) (l : Lst) (before : List ℕ) (n : ℕ) (after : List ℕ)
    → IsList h l (before ++ (n ∷ after))
    → Drops before n after h (lst_del l (some n) h)
lst_del-IsList h l before n after v = elim (last-cases before) [
  | inl first ↦ rw first (first-del after (subst (λ b. IsList h l (b ++ (n ∷ after))) first v))
  | inr (ys, t, split) ↦
      rw split (later-del ys t after (subst (λ b. IsList h l (b ++ (n ∷ after))) split v))
]
  where
    first-del :
        (after : List ℕ) → IsList h l (n ∷ after) → Drops [] n after h (lst_del l (some n) h)
    first-del [] v = del-only h l n v
    first-del (x ∷ xs) v = del-head h l n x xs v

    later-del :
        (ys : List ℕ) (t : ℕ) (after : List ℕ)
        → IsList h l ((ys ++ (t ∷ [])) ++ (n ∷ after))
        → Drops (ys ++ (t ∷ [])) n after h (lst_del l (some n) h)
    later-del ys t [] v = del-tail h l n ys t v
    later-del ys t (x ∷ xs) v = del-inner h l n ys t x xs v
