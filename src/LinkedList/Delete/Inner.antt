-- ===== src/LinkedList/Delete/Inner.antt =====
-- `lstDel` (frameWork/list/list.c) on a node between two others.
use embedded_linux_iot_gatew.Prelude.{
  ℕ, ◌-◌, ◌≡◌, sym, ap, ◌∙◌, false, none, some, List, [], ◌∷◌, ◌++◌, length-append, ◌==◌, arith,
}
use embedded_linux_iot_gatew.LinkedList.{Lst, cell, Heap, write, ptr_eq, lst_del, del_inner}
use embedded_linux_iot_gatew.LinkedList.Seg.{
  has, AreDistinct, first_or, last_or, IsList, has-append, last_or-append, write_self, write_other,
  set_next_lem, set_prev_lem, free_lem, Seg-append, Seg-split, frame, has_ne, AreDistinct-append,
  distinct_split, first_or-more,
}
use embedded_linux_iot_gatew.LinkedList.Delete.Lemmas.{
  Drops, load_lem, not_in-front, not_after, not_last, outside-inner, not_head, del-more,
}

module _ (h : Heap) (l : Lst) (n : ℕ) where
  -- A node between `t` and `x`.
  module _ (ys : List ℕ) (t x : ℕ) (xs : List ℕ)
      (v : IsList h l ((ys ++ (t ∷ [])) ++ (n ∷ x ∷ xs))) where
    -- The nodes all differ.
    record Apart : Type 0 where
      n_t : (n == t) ≡ false
      n_x : (n == x) ≡ false
      x_t : (x == t) ≡ false
      n_front : has n (ys ++ (t ∷ [])) ≡ false
      n_ys : has n ys ≡ false
      x_ys : has x ys ≡ false
      t_ys : has t ys ≡ false
      n_xs : has n xs ≡ false
      x_xs : has x xs ≡ false
      t_xs : has t xs ≡ false
      distinct : AreDistinct ((ys ++ (t ∷ [])) ++ (x ∷ xs))

    apart : Apart
    apart =
        let front = ys ++ (t ∷ []) in
        let (df, (dn, dx), far) = distinct_split front (n ∷ x ∷ xs) v.distinct in
        let (dy, _, far') = distinct_split ys (t ∷ []) df in
        let n_front : has n front ≡ false = far n (ground arith) in
        let x_front : has x front ≡ false = far x (ground arith) in
        let (n_ys, n_t) = not_in-front n ys t n_front in
        let (x_ys, x_t) = not_in-front x ys t x_front in
        record {
          n_t = n_t;
          n_x = ground arith;
          x_t = x_t;
          n_front = n_front;
          n_ys = n_ys;
          x_ys = x_ys;
          t_ys = far' t (ground arith);
          n_xs = ground arith;
          x_xs = dx.0;
          t_xs =
              not_after front t xs (λ a m. far a (ground arith))
                (ground (arith, has-append t ys (t ∷ [])));
          distinct = AreDistinct-append front (x ∷ xs) df dx (λ a m. far a (ground arith));
        }

    after_t : Heap
    after_t = write h t (some (cell (some x) (last_or none ys)))

    after_x : Heap
    unfolding after_t
    after_x = write after_t x (some (cell (first_or xs none) (some t)))

    after_n : Heap
    unfolding after_x
    after_n =
        write (write (write after_x n (some (cell none (some t)))) n (some (cell none none))) n none

    kept : (a : ℕ) → (a == t) ≡ false → (a == x) ≡ false → (a == n) ≡ false → after_n a ≡ h a
    unfolding after_t after_x after_n write
    kept a a_t a_x a_n = rw (a_t, a_x, a_n)

    at_t : after_n t ≡ some (cell (some x) (last_or none ys))
    unfolding after_t after_x after_n write
    at_t =
        let t_n : (t == n) ≡ false = ground (arith, apart.n_t) in
        let t_x : (t == x) ≡ false = ground (arith, apart.x_t) in ground arith

    at_x : after_n x ≡ some (cell (first_or xs none) (some t))
    unfolding after_t after_x after_n write
    at_x = let x_n : (x == n) ≡ false = ground (arith, apart.n_x) in ground arith

    freed : after_n n ≡ none
    unfolding after_n
    freed = write_self _ n none

    inner_runs : del_inner l (some n) h ≡ some (l, after_n)
    unfolding del_inner after_n after_x after_t
    inner_runs =
        let front = ys ++ (t ∷ []) in
        let (s, (en, (ex, sx))) = Seg-split h none front (n ∷ x ∷ xs) none v.linked in
        let (sy, (et, _)) = Seg-split h none ys (t ∷ []) (some n) s in
        let en' : h n ≡ some (cell (some x) (some t)) =
          en ∙ ap (λ r. some (cell (some x) r)) (last_or-append none ys (t ∷ [])) in
        let e1 : after_t n ≡ some (cell (some x) (some t)) = write_other h t _ n apart.n_t ∙ en' in
        let e2 : after_x n ≡ some (cell (some x) (some t)) =
          write_other after_t x _ n apart.n_x ∙ e1 in
        rw (
          load_lem h n (cell (some x) (some t)) en',
          set_next_lem h t (some n) (last_or none ys) et (some x),
          load_lem after_t n (cell (some x) (some t)) e1,
          set_prev_lem after_t x (first_or xs none) (some n) (write_other h t _ x apart.x_t ∙ ex)
              (some t),
          set_next_lem after_x n (some x) (some t) e2 none,
          set_prev_lem (write after_x n (some (cell none (some t)))) n none (some t)
              (write_self after_x n (some (cell none (some t)))) none,
          free_lem (write (write after_x n (some (cell none (some t)))) n (some (cell none none))) n
              none none
              (write_self (write after_x n (some (cell none (some t)))) n (some (cell none none))),
        )

    pub del-inner : Drops (ys ++ (t ∷ [])) n (x ∷ xs) h (lst_del l (some n) h)
    del-inner =
        let front = ys ++ (t ∷ []) in
        let (s, (en, (ex, sx))) = Seg-split h none front (n ∷ x ∷ xs) none v.linked in
        let (sy, (et, _)) = Seg-split h none ys (t ∷ []) (some n) s in
        let back : last_or none front ≡ some t = last_or-append none ys (t ∷ []) in
        (
          record l { count = l.count - 1 },
          after_n,
          del-more h l n (omega (arith, v.counted, length-append front (n ∷ x ∷ xs)))
              ∙ rw (
                not_head l n ys t (n ∷ x ∷ xs) v.head_eq apart.n_front,
                ap (λ r. ptr_eq r (some n)) (v.tail_eq ∙ last_or-append none front (n ∷ x ∷ xs))
                    ∙ not_last n x xs apart.n_x apart.n_xs,
                inner_runs,
              ),
          record {
            head_eq =
                v.head_eq ∙ sym (first_or-more ys t (n ∷ x ∷ xs)) ∙ first_or-more ys t (x ∷ xs);
            tail_eq =
                v.tail_eq
                ∙ last_or-append none front (n ∷ x ∷ xs)
                ∙ sym (last_or-append none front (x ∷ xs));
            counted =
                omega (
                  arith,
                  v.counted,
                  length-append front (n ∷ x ∷ xs),
                  length-append front (x ∷ xs),
                );
            linked =
                Seg-append after_n none front (x ∷ xs) none
                  (Seg-append after_n none ys (t ∷ []) (some x)
                    (frame h after_n none ys (some t) sy (λ a m.
                      kept a (has_ne t a ys apart.t_ys m) (has_ne x a ys apart.x_ys m)
                        (has_ne n a ys apart.n_ys m)))
                    (at_t, tt))
                  (
                    at_x ∙ ap (λ r. some (cell (first_or xs none) r)) (sym back),
                    frame h after_n (some x) xs none sx (λ a m.
                        kept a (has_ne t a xs apart.t_xs m) (has_ne x a xs apart.x_xs m)
                          (has_ne n a xs apart.n_xs m)),
                  );
            distinct = apart.distinct;
          },
          freed,
          λ a o.
              let (f, a_n, a_x) = outside-inner a front n x xs o in
              kept a (not_in-front a ys t f).1 a_x a_n,
        )
