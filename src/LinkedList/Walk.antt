-- ===== src/LinkedList/Walk.antt =====
-- Walking a list: the node at an index, and freeing all nodes (frameWork/list/list.c).
use embedded_linux_iot_gatew.Prelude.{
  ℕ, zero, suc, ◌+◌, ◌-◌, ◌/◌, ◌≡◌, ◌≤◌, ◌<◌, refl, sym, ap, ap₂, subst, ◌∙◌, inl, inr, true, false,
  ◌||◌, none, some, List, [], ◌∷◌, ◌++◌, length, length-append, get_elem?, Bool-cases, ◌==◌, ltb,
  leb, arith, if◌then◌else◌,
}
use embedded_linux_iot_gatew.LinkedList.{
  Lst, Ptr, cell, Heap, write, forward, backward, lst_dth, free_from, lst_free, lst_init,
}
use embedded_linux_iot_gatew.LinkedList.Seg.{
  has, AreDistinct, first_or, last_or, Seg, IsList, SameOutside, last_or-append, write_self,
  write_other, last-cases, Seg-split, frame-write,
}
use embedded_linux_iot_gatew.LinkedList.Delete.Lemmas.{load_lem}

module _ {ℓ} {A : Type ℓ} where
  get_elem?-append_lt :
      (xs ys : List A) (i : ℕ) → i < length xs → get_elem? (xs ++ ys) i ≡ get_elem? xs i
  get_elem?-append_lt [] ys i h = absurd (omega arith)
  get_elem?-append_lt (x ∷ xs) ys zero h = refl
  get_elem?-append_lt (x ∷ xs) ys (suc i) h = get_elem?-append_lt xs ys i (omega arith)

  get_elem?-last : (xs : List A) (x : A) → get_elem? (xs ++ (x ∷ [])) (length xs) ≡ some x
  get_elem?-last [] x = refl
  get_elem?-last (y ∷ xs) x = get_elem?-last xs x

  get_elem?-past : (xs : List A) (i : ℕ) → length xs ≤ i → get_elem? xs i ≡ none
  get_elem?-past [] i h = refl
  get_elem?-past (x ∷ xs) zero h = absurd (omega arith)
  get_elem?-past (x ∷ xs) (suc i) h = get_elem?-past xs i (omega arith)

module _ (h : Heap) where
  forward-get_elem? :
      (k : ℕ) (p : Ptr) (xs : List ℕ)
      → Seg h p xs none
      → k < length xs
      → forward k (first_or xs none) h ≡ some (get_elem? xs k)
  unfolding forward
  forward-get_elem? k p [] s small = absurd (omega arith)
  forward-get_elem? zero p (x ∷ xs) s small = refl
  forward-get_elem? (suc k) p (x ∷ xs) (e, s) small =
      rw (load_lem h x (cell (first_or xs none) p) e)
        (forward-get_elem? k (some x) xs s (omega arith))

  -- From the last node `t` of a list on.
  backward-get_elem? :
      (k : ℕ) (ys : List ℕ) (t : ℕ) (q : Ptr)
      → Seg h none (ys ++ (t ∷ [])) q
      → k ≤ length ys
      → backward k (some t) h ≡ some (get_elem? (ys ++ (t ∷ [])) (length ys - k))
  unfolding backward
  backward-get_elem? zero ys t q s small =
      ap some (sym (ap (get_elem? (ys ++ (t ∷ []))) (omega arith) ∙ get_elem?-last ys t))
  backward-get_elem? (suc k) ys t q s small =
      let (sy, (e, _)) = Seg-split h none ys (t ∷ []) q s in
      elim (last-cases ys) [
        | inl no_more ↦ absurd (omega (arith, ap (length {A = ℕ}) no_more))
        | inr (zs, u, split) ↦
            let size : length ys ≡ length zs + 1 = ap length split ∙ length-append zs (u ∷ []) in
            let back : last_or none ys ≡ some u =
              ap (last_or none) split ∙ last_or-append none zs (u ∷ []) in
            let rest =
              backward-get_elem? k zs u (some t) (subst (λ l. Seg h none l (some t)) split sy)
                (omega arith) in
            rw (load_lem h t (cell q (last_or none ys)) e, back)
              (rest
                ∙ ap some (
                    ap (λ l. get_elem? l (length zs - k)) (sym split)
                    ∙ ap (get_elem? ys) (omega arith)
                    ∙ sym (get_elem?-append_lt ys (t ∷ []) (length ys - suc k) (omega arith))))
      ]

  -- `lstDth` with an index from 1 to the length returns the node at this place of the list, from
  -- whichever end it walks, and NULL with any other index.
  pub lst_dth-get_elem? :
      (l : Lst) (xs : List ℕ) (index : ℕ)
      → IsList h l xs
      → lst_dth l index h ≡ some (if index == 0 then none else get_elem? xs (index - 1))
  unfolding lst_dth
  lst_dth-get_elem? l xs index v = elim (Bool-cases (ltb index 1 || ltb l.count index)) [
    | inl outside ↦ rw outside (elim (Bool-cases (index == 0)) [
      | inl none_at ↦ rw none_at
      | inr later ↦ rw (later, get_elem?-past xs (index - 1) (ground (arith, v.counted)))
    ])
    | inr inside ↦
        let positive : (index == 0) ≡ false = ground arith in
        let small : index ≤ length xs = ground (arith, v.counted) in
        let some_at : 1 ≤ index = ground arith in
        rw (inside, positive)
          (elim (Bool-cases (leb index (l.count / 2))) [
            | inl near ↦
                rw (near, v.head_eq) (forward-get_elem? (index - 1) none xs v.linked (omega arith))
            | inr far ↦ rw far (elim (last-cases xs) [
              | inl no_more ↦ absurd (omega (arith, ap (length {A = ℕ}) no_more))
              | inr (ys, t, split) ↦
                  let size : length xs ≡ length ys + 1 =
                    ap length split ∙ length-append ys (t ∷ []) in
                  let end : l.tail ≡ some t =
                    v.tail_eq ∙ ap (last_or none) split ∙ last_or-append none ys (t ∷ []) in
                  ap (λ p. backward (l.count - index) p h) end
                  ∙ backward-get_elem? (l.count - index) ys t none
                      (subst (λ r. Seg h none r none) split v.linked) (omega (arith, v.counted))
                  ∙ ap₂ (λ r i. some (get_elem? r i)) (sym split) (omega (arith, v.counted))
            ])
          ])
  ]

free_from-all :
    (fuel : ℕ) (h : Heap) (p : Ptr) (xs : List ℕ)
    → Seg h p xs none
    → AreDistinct xs
    → length xs ≤ fuel
    → (h' : Heap) × (free_from fuel (first_or xs none) h ≡ some h')
      × ((a : ℕ) → has a xs ≡ true → h' a ≡ none)
      × SameOutside xs h h'
unfolding free_from
free_from-all zero h p [] s d enough = (h, refl, λ a m. cc, λ a o. refl)
free_from-all (suc fuel) h p [] s d enough = (h, refl, λ a m. cc, λ a o. refl)
free_from-all zero h p (x ∷ xs) s d enough = absurd (omega arith)
free_from-all (suc fuel) h p (x ∷ xs) (e, s) d enough =
    let h1 : Heap = write h x none in
    let (h', run, gone, same) =
      free_from-all fuel h1 (some x) xs (frame-write h (some x) xs none x none s d.0) d.1
        (omega arith) in
    (
      h',
      rw e run,
      λ a m. elim (Bool-cases (has a xs)) [
        | inl later ↦ gone a later
        | inr here ↦
            let at_x : a ≡ x = ground arith in same a here ∙ ap h1 at_x ∙ write_self h x none
      ],
      λ a o.
          let a_x : (a == x) ≡ false = ground arith in
          same a (ground arith) ∙ write_other h x none a a_x,
    )

-- With fuel for as many rounds as the list has nodes, `lstFree` ends: it frees each node of the list
-- and no other, and leaves the empty list.
pub lst_free-all :
    (fuel : ℕ) (h : Heap) (l : Lst) (xs : List ℕ)
    → IsList h l xs
    → length xs ≤ fuel
    → (h' : Heap) × (lst_free fuel l h ≡ some (lst_init, h'))
      × IsList h' lst_init []
      × ((a : ℕ) → has a xs ≡ true → h' a ≡ none)
      × SameOutside xs h h'
unfolding lst_free
lst_free-all fuel h l xs v enough =
    let (h', run, gone, same) = free_from-all fuel h none xs v.linked v.distinct enough in
    (
      h',
      rw (v.head_eq, run),
      record { head_eq = refl; tail_eq = refl; counted = refl; linked = tt; distinct = tt },
      gone,
      same,
    )
