-- ===== src/LinkedList/Merge.antt =====
-- Joining two lists (frameWork/list/list.c).
use embedded_linux_iot_gatew.Prelude.{
  ℕ, ◌+◌, ◌≡◌, ◌⊎◌, refl, sym, ap, ap₂, subst, ◌∙◌, inl, inr, true, false, none, some, List, [],
  ◌∷◌, ◌++◌, length-append, ◌==◌, ◌>>=◌, arith, Option-cases,
}
use embedded_linux_iot_gatew.LinkedList.{
  Lst, cell, Heap, write, set_next, set_prev, lst_merge, lst_init,
}
use embedded_linux_iot_gatew.LinkedList.Delete.Lemmas.{not_after}
use embedded_linux_iot_gatew.LinkedList.Seg.{
  has, first_or, last_or, IsList, SameOutside, has-append, last_or-append, write_self, write_other,
  first_or-more, set_next_lem, set_prev_lem, last-cases, Seg-append, Seg-split, frame-write,
  AreDistinct-append, distinct_split,
}

outside-joint :
    (a : ℕ) (xs : List ℕ) (t y : ℕ) (ys : List ℕ)
    → has a ((xs ++ (t ∷ [])) ++ (y ∷ ys)) ≡ false
    → ((a == t) ≡ false) × ((a == y) ≡ false)
outside-joint a xs t y ys o =
    ground (arith, has-append a (xs ++ (t ∷ [])) (y ∷ ys), has-append a xs (t ∷ []))

-- A list with the last node `t` and one with the first node `y`.
module _ (h : Heap) (l l2 : Lst) (xs : List ℕ) (t y : ℕ) (ys : List ℕ) where
  pub lst_merge-ends :
      IsList h l (xs ++ (t ∷ []))
      → IsList h l2 (y ∷ ys)
      → ((a : ℕ) → has a (y ∷ ys) ≡ true → has a (xs ++ (t ∷ [])) ≡ false)
      → (l' : Lst) × (h' : Heap) × (lst_merge l l2 h ≡ some (l', lst_init, h'))
        × IsList h' l' ((xs ++ (t ∷ [])) ++ (y ∷ ys))
        × SameOutside ((xs ++ (t ∷ [])) ++ (y ∷ ys)) h h'
  unfolding lst_merge
  lst_merge-ends v v2 apart =
      let front = xs ++ (t ∷ []) in
      let (sx, (et, _)) = Seg-split h none xs (t ∷ []) none v.linked in
      let (ey, sy) = v2.linked in
      let (dx, _, far) = distinct_split xs (t ∷ []) v.distinct in
      let last_eq : l.tail ≡ some t = v.tail_eq ∙ last_or-append none xs (t ∷ []) in
      let y_front : has y front ≡ false = apart y (ground arith) in
      let y_t : (y == t) ≡ false = ground (arith, has-append y xs (t ∷ [])) in
      let t_y : (t == y) ≡ false = ground arith in
      let y_xs : has y xs ≡ false = ground (arith, has-append y xs (t ∷ [])) in
      let t_xs : has t xs ≡ false = far t (ground arith) in
      let t_ys : has t ys ≡ false =
        not_after front t ys (λ a m. apart a (ground arith))
          (ground (arith, has-append t xs (t ∷ []))) in
      let p = last_or none xs in
      let h1 : Heap = write h t (some (cell (some y) p)) in
      let h2 : Heap = write h1 y (some (cell (first_or ys none) (some t))) in
      (
        record l { tail = l2.tail; count = l.count + l2.count },
        h2,
        ap₂
              (λ a b. set_next a b h >>= λ h1. set_prev b a h1 >>= λ h2.
                some (record l { tail = l2.tail; count = l.count + l2.count }, lst_init, h2))
              last_eq v2.head_eq
            ∙ rw (
              set_next_lem h t none p et (some y),
              set_prev_lem h1 y (first_or ys none) none (write_other h t _ y y_t ∙ ey) (some t),
            ),
        record {
          head_eq = v.head_eq ∙ first_or-more xs t (y ∷ ys);
          tail_eq = v2.tail_eq ∙ sym (last_or-append none front (y ∷ ys));
          counted = omega (arith, v.counted, v2.counted, length-append front (y ∷ ys));
          linked =
              Seg-append h2 none front (y ∷ ys) none
                (Seg-append h2 none xs (t ∷ []) (some y)
                  (frame-write h1 none xs (some t) y _ (frame-write h none xs (some t) t _ sx t_xs)
                    y_xs)
                  (write_other h1 y _ t t_y ∙ write_self h t _, tt))
                (
                  write_self h1 y _
                      ∙ ap (λ r. some (cell (first_or ys none) r))
                          (sym (last_or-append none xs (t ∷ []))),
                  frame-write h1 (some y) ys none y _ (frame-write h (some y) ys none t _ sy t_ys)
                      v2.distinct.0,
                );
          distinct = AreDistinct-append front (y ∷ ys) v.distinct v2.distinct apart;
        },
        λ a o.
            let (a_t, a_y) = outside-joint a xs t y ys o in
            write_other h1 y _ a a_y ∙ write_other h t _ a a_t,
      )

some_first : (xs : List ℕ) → (xs ≡ [] → ⊥) → (y : ℕ) × (ys : List ℕ) × (xs ≡ y ∷ ys)
some_first [] h = absurd (h refl)
some_first (x ∷ xs) h = (x, xs, refl)

-- Merging two lists that are not empty and share no node makes the nodes of the first one followed by
-- those of the second one, and empties the second one; the heap changes at no other node.
pub lst_merge-IsList :
    (h : Heap) (l l2 : Lst) (xs ys : List ℕ)
    → IsList h l xs
    → IsList h l2 ys
    → (xs ≡ [] → ⊥)
    → (ys ≡ [] → ⊥)
    → ((a : ℕ) → has a ys ≡ true → has a xs ≡ false)
    → (l' : Lst) × (h' : Heap) × (lst_merge l l2 h ≡ some (l', lst_init, h'))
      × IsList h' l' (xs ++ ys)
      × SameOutside (xs ++ ys) h h'
lst_merge-IsList h l l2 xs ys v v2 full full2 apart =
    let (y, bs, first) = some_first ys full2 in
    elim (last-cases xs) [
      | inl empty ↦ absurd (full empty)
      | inr (front, t, split) ↦
          rw (split, first)
            (lst_merge-ends h l l2 front t y bs (subst (IsList h l) split v)
              (subst (IsList h l2) first v2)
              (λ a m. ap (has a) (sym split) ∙ apart a (ap (has a) first ∙ m)))
    ]

-- Merging with an empty list, on either side, goes through NULL.
pub lst_merge_empty :
    (h : Heap) (l l2 : Lst) (xs ys : List ℕ)
    → IsList h l xs
    → IsList h l2 ys
    → (xs ≡ []) ⊎ (ys ≡ [])
    → lst_merge l l2 h ≡ none
unfolding lst_merge set_next set_prev
lst_merge_empty h l l2 xs ys v v2 (inl empty) =
    let nil : l.tail ≡ none = v.tail_eq ∙ ap (last_or none) empty in
    ap
      (λ p. set_next p l2.head h >>= λ h1. set_prev l2.head p h1 >>= λ h2.
        some (record l { tail = l2.tail; count = l.count + l2.count }, lst_init, h2))
      nil
lst_merge_empty h l l2 xs ys v v2 (inr empty) =
    let nil : l2.head ≡ none = v2.head_eq ∙ ap (λ r. first_or r none) empty in
    elim (Option-cases (set_next l.tail l2.head h)) [ inl e ↦ rw e | inr (h1, e) ↦ rw (e, nil) ]
