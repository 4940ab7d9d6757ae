-- ===== src/LinkedList/Delete/Ends.antt =====
-- `lstDel` (frameWork/list/list.c) on the only, the first and the last node.
use embedded_linux_iot_gatew.Prelude.{
  ℕ, ◌-◌, ◌≡◌, refl, sym, ap, subst, ◌∙◌, true, false, none, some, List, [], ◌∷◌, ◌++◌,
  length-append, ◌==◌, arith, append-nil,
}
use embedded_linux_iot_gatew.LinkedList.{
  Lst, cell, Heap, write, ptr_eq, lst_del, del_only, del_head, del_tail,
}
use embedded_linux_iot_gatew.LinkedList.Seg.{
  has, first_or, last_or, IsList, last_or-append, write_self, write_other, set_next_lem,
  set_prev_lem, free_lem, Seg-append, Seg-split, frame-write, distinct_split, first_or-more,
  outside-ends,
}
use embedded_linux_iot_gatew.LinkedList.Delete.Lemmas.{
  Drops, load_lem, ptr_eq_self, not_in-front, not_head, del-more,
}

module _ (h : Heap) (l : Lst) (n : ℕ) where
  pub del-only : IsList h l (n ∷ []) → Drops [] n [] h (lst_del l (some n) h)
  unfolding lst_del del_only
  del-only v =
      rw (v.counted, free_lem h n none none v.linked.0)
        (
          record { head = none; tail = none; count = 0 },
          write h n none,
          refl,
          record { head_eq = refl; tail_eq = refl; counted = refl; linked = tt; distinct = tt },
          write_self h n none,
          λ a o. write_other h n none a (ground arith),
        )

  pub del-head :
      (x : ℕ) (xs : List ℕ) → IsList h l (n ∷ x ∷ xs) → Drops [] n (x ∷ xs) h (lst_del l (some n) h)
  unfolding del_head ptr_eq
  del-head x xs v =
      let (en, (ex, s)) = v.linked in
      let n_x : (n == x) ≡ false = ground (arith, v.distinct) in
      let x_n : (x == n) ≡ false = ground arith in
      let n_xs : has n xs ≡ false = ground (arith, v.distinct) in
      let n_n : (n == n) ≡ true = ground arith in
      let h1 : Heap = write h x (some (cell (first_or xs none) none)) in
      let h2 : Heap = write h1 n none in
      let e1 : h1 n ≡ some (cell (some x) none) = write_other h x _ n n_x ∙ en in
      (
        record l { head = some x; count = l.count - 1 },
        h2,
        del-more h l n (omega (arith, v.counted))
            ∙ rw (
              v.head_eq,
              n_n,
              load_lem h n (cell (some x) none) en,
              set_prev_lem h x (first_or xs none) (some n) ex none,
              free_lem h1 n (some x) none e1,
            ),
        record {
          head_eq = refl;
          tail_eq = v.tail_eq;
          counted = omega (arith, v.counted);
          linked = (
            write_other h1 n _ x x_n ∙ write_self h x _,
            frame-write h1 (some x) xs none n _
                (frame-write h (some x) xs none x _ s v.distinct.1.0) n_xs,
          );
          distinct = v.distinct.1;
        },
        write_self h1 n none,
        λ a o.
            let a_n : (a == n) ≡ false = ground arith in
            let a_x : (a == x) ≡ false = ground arith in
            write_other h1 n none a a_n ∙ write_other h x _ a a_x,
      )

  -- The last node, behind `t`.
  pub del-tail :
      (ys : List ℕ) (t : ℕ)
      → IsList h l ((ys ++ (t ∷ [])) ++ (n ∷ []))
      → Drops (ys ++ (t ∷ [])) n [] h (lst_del l (some n) h)
  unfolding del_tail
  del-tail ys t v =
      let front = ys ++ (t ∷ []) in
      let (s, (en, _)) = Seg-split h none front (n ∷ []) none v.linked in
      let (sy, (et, _)) = Seg-split h none ys (t ∷ []) (some n) s in
      let (df, _, apart) = distinct_split front (n ∷ []) v.distinct in
      let (dy, _, apart') = distinct_split ys (t ∷ []) df in
      let n_front : has n front ≡ false = apart n (ground arith) in
      let n_t : (n == t) ≡ false = (not_in-front n ys t n_front).1 in
      let n_ys : has n ys ≡ false = (not_in-front n ys t n_front).0 in
      let t_n : (t == n) ≡ false = ground arith in
      let t_ys : has t ys ≡ false = apart' t (ground arith) in
      let p = last_or none ys in
      let last_eq : last_or none front ≡ some t = last_or-append none ys (t ∷ []) in
      let en' : h n ≡ some (cell none (some t)) = en ∙ ap (λ r. some (cell none r)) last_eq in
      let h1 : Heap = write h t (some (cell none p)) in
      let h2 : Heap = write h1 n none in
      let e1 : h1 n ≡ some (cell none (some t)) = write_other h t _ n n_t ∙ en' in
      (
        record l { tail = some t; count = l.count - 1 },
        h2,
        del-more h l n
              (omega (arith, v.counted, length-append front (n ∷ []), length-append ys (t ∷ [])))
            ∙ rw (
              v.tail_eq ∙ last_or-append none front (n ∷ []),
              not_head l n ys t (n ∷ []) v.head_eq n_front,
              ptr_eq_self n,
              load_lem h n (cell none (some t)) en',
              set_next_lem h t (some n) p et none,
              free_lem h1 n none (some t) e1,
            ),
        subst (IsList h2 (record l { tail = some t; count = l.count - 1 })) (sym (append-nil front))
            (record {
              head_eq = v.head_eq ∙ sym (first_or-more ys t (n ∷ []));
              tail_eq = sym last_eq;
              counted = omega (arith, v.counted, length-append front (n ∷ []));
              linked =
                  Seg-append h2 none ys (t ∷ []) none
                    (frame-write h1 none ys (some t) n _
                      (frame-write h none ys (some t) t _ sy t_ys) n_ys)
                    (write_other h1 n _ t t_n ∙ write_self h t _, tt);
              distinct = df;
            }),
        write_self h1 n none,
        λ a o.
            let (a_t, a_n) = outside-ends a ys t n o in
            write_other h1 n none a a_n ∙ write_other h t _ a a_t,
      )
