-- ===== src/LinkedList/Insert.antt =====
-- Adding a node at either end of a list (frameWork/list/list.c).
use embedded_linux_iot_gatew.Prelude.{
  ℕ, ◌+◌, ◌≡◌, refl, sym, ap, subst, ◌∙◌, inl, inr, false, Option, none, some, List, [], ◌∷◌, ◌++◌,
  length-append, ◌==◌, arith,
}
use embedded_linux_iot_gatew.LinkedList.{
  Lst, Cell, cell, Heap, write, lst_insert_tail, lst_insert_head, lst_add_tail, lst_add_head,
}
use embedded_linux_iot_gatew.LinkedList.Seg.{
  has, first_or, last_or, IsList, SameOutside, has-append, last_or-append, write_self, write_other,
  set_next_lem, set_prev_lem, last-cases, Seg-append, Seg-split, frame-write, AreDistinct-add,
  first_or-more, outside-ends, distinct_split,
}

-- The result of an operation: a list of the nodes, and the rest of the heap as it was.
abbrev pub Makes : List ℕ → Heap → Option (Lst × Heap) → Type 0
Makes xs h o =
    (l' : Lst) × (h' : Heap) × (o ≡ some (l', h')) × IsList h' l' xs × SameOutside xs h h'

abbrev lonely : Heap → ℕ → Cell → Heap
lonely h n c = write (write h n (some (cell c.next none))) n (some (cell none none))

lonely-IsList :
    (h : Heap) (n k : ℕ) (c : Cell)
    → k ≡ 0
    → IsList (lonely h n c) (record { head = some n; tail = some n; count = k + 1 }) (n ∷ [])
lonely-IsList h n k c zero_count = record {
  head_eq = refl;
  tail_eq = refl;
  counted = omega arith;
  linked = (write_self _ n _, tt);
  distinct = (refl, tt);
}

twice-same :
    (h : Heap) (n : ℕ) (c d : Option Cell) (xs : List ℕ)
    → SameOutside (n ∷ xs) h (write (write h n c) n d)
twice-same h n c d xs a out =
    write_other (write h n c) n d a (ground arith) ∙ write_other h n c a (ground arith)

alone-tail :
    (h : Heap) (l : Lst) (n : ℕ) (c : Cell)
    → l.count ≡ 0
    → h n ≡ some c
    → lst_insert_tail l none (some n) h
      ≡ some (record { head = some n; tail = some n; count = l.count + 1 }, lonely h n c)
unfolding lst_insert_tail
alone-tail h l n c zero_count e = rw (
  set_prev_lem h n c.next c.prev e none,
  set_next_lem (write h n (some (cell c.next none))) n c.next none
      (write_self h n (some (cell c.next none))) none,
)

module _ (h : Heap) (l : Lst) (n : ℕ) (c : Cell) (e : h n ≡ some c) where
  -- Behind the last node `t`.
  tail-Makes :
      (ys : List ℕ) (t : ℕ)
      → IsList h l (ys ++ (t ∷ []))
      → has n (ys ++ (t ∷ [])) ≡ false
      → Makes ((ys ++ (t ∷ [])) ++ (n ∷ [])) h (lst_insert_tail l (some t) (some n) h)
  unfolding lst_insert_tail
  tail-Makes ys t v out =
      let (s, (et, _)) = Seg-split h none ys (t ∷ []) none v.linked in
      let (dy, _, apart) = distinct_split ys (t ∷ []) v.distinct in
      let parts = has-append n ys (t ∷ []) in
      let n_t : (n == t) ≡ false = ground arith in
      let t_n : (t == n) ≡ false = ground arith in
      let n_ys : has n ys ≡ false = ground arith in
      let t_ys : has t ys ≡ false = apart t (ground arith) in
      let p = last_or none ys in
      let h1 : Heap = write h t (some (cell (some n) p)) in
      let h2 : Heap = write h1 n (some (cell c.next (some t))) in
      let h3 : Heap = write h2 n (some (cell none (some t))) in
      let e1 : h1 n ≡ some c = write_other h t _ n n_t ∙ e in
      let at_t : h3 t ≡ some (cell (some n) p) =
        write_other h2 n _ t t_n ∙ write_other h1 n _ t t_n ∙ write_self h t _ in
      (
        record l { tail = some n; count = l.count + 1 },
        h3,
        rw (
          set_next_lem h t none p et (some n),
          set_prev_lem h1 n c.next c.prev e1 (some t),
          set_next_lem h2 n c.next (some t) (write_self h1 n (some (cell c.next (some t)))) none,
        ),
        record {
          head_eq = v.head_eq ∙ first_or-more ys t (n ∷ []);
          tail_eq = sym (last_or-append none (ys ++ (t ∷ [])) (n ∷ []));
          counted = omega (arith, v.counted, length-append (ys ++ (t ∷ [])) (n ∷ []));
          linked =
              Seg-append h3 none (ys ++ (t ∷ [])) (n ∷ []) none
                (Seg-append h3 none ys (t ∷ []) (some n)
                  (frame-write h2 none ys (some t) n _
                    (frame-write h1 none ys (some t) n _ (frame-write h none ys (some t) t _ s t_ys)
                      n_ys)
                    n_ys)
                  (at_t, tt))
                (
                  write_self h2 n _
                      ∙ ap (λ r. some (cell none r)) (sym (last_or-append none ys (t ∷ []))),
                  tt,
                );
          distinct = AreDistinct-add (ys ++ (t ∷ [])) n v.distinct out;
        },
        λ a o.
            let (a_t, a_n) = outside-ends a ys t n o in
            write_other h2 n _ a a_n ∙ write_other h1 n _ a a_n ∙ write_other h t _ a a_t,
      )

-- Adding a node, which is in the heap and not in the list, at the end of a list makes the list with
-- the node behind the others; the heap changes at no other node.
pub lst_add_tail-IsList :
    (h : Heap) (l : Lst) (xs : List ℕ) (n : ℕ) (c : Cell)
    → IsList h l xs
    → h n ≡ some c
    → has n xs ≡ false
    → Makes (xs ++ (n ∷ [])) h (lst_add_tail l (some n) h)
unfolding lst_add_tail
lst_add_tail-IsList h l xs n c v e out = elim (last-cases xs) [
  | inl none_left ↦
      let v' = subst (IsList h l) none_left v in
      rw (none_left, v'.tail_eq)
        (
          record { head = some n; tail = some n; count = l.count + 1 },
          lonely h n c,
          alone-tail h l n c v'.counted e,
          lonely-IsList h n l.count c v'.counted,
          twice-same h n _ _ [],
        )
  | inr (ys, t, split) ↦
      let v' = subst (IsList h l) split v in
      rw (split, v'.tail_eq, last_or-append none ys (t ∷ []))
        (tail-Makes h l n c e ys t v' (sym (ap (has n) split) ∙ out))
]

module _ (h : Heap) (l : Lst) (n : ℕ) (c : Cell) (e : h n ≡ some c) where
  alone-head :
      l.count ≡ 0
      → lst_insert_head l none (some n) h
        ≡ some (record { head = some n; tail = some n; count = l.count + 1 }, lonely h n c)
  unfolding lst_insert_head
  alone-head zero_count = rw (
    set_prev_lem h n c.next c.prev e none,
    set_next_lem (write h n (some (cell c.next none))) n c.next none
        (write_self h n (some (cell c.next none))) none,
  )

  -- In front of the first node `x`.
  head-Makes :
      (x : ℕ) (xs : List ℕ)
      → IsList h l (x ∷ xs)
      → has n (x ∷ xs) ≡ false
      → Makes (n ∷ x ∷ xs) h (lst_insert_head l (some x) (some n) h)
  unfolding lst_insert_head
  head-Makes x xs v out =
      let (ex, s) = v.linked in
      let n_x : (n == x) ≡ false = ground arith in
      let x_n : (x == n) ≡ false = ground arith in
      let n_xs : has n xs ≡ false = ground arith in
      let h1 : Heap = write h n (some (cell (some x) c.prev)) in
      let h2 : Heap = write h1 n (some (cell (some x) none)) in
      let h3 : Heap = write h2 x (some (cell (first_or xs none) (some n))) in
      let e2 : h2 x ≡ some (cell (first_or xs none) none) =
        write_other h1 n _ x x_n ∙ write_other h n _ x x_n ∙ ex in
      (
        record l { head = some n; count = l.count + 1 },
        h3,
        rw (
          set_next_lem h n c.next c.prev e (some x),
          set_prev_lem h1 n (some x) c.prev (write_self h n (some (cell (some x) c.prev))) none,
          set_prev_lem h2 x (first_or xs none) none e2 (some n),
        ),
        record {
          head_eq = refl;
          tail_eq = v.tail_eq;
          counted = omega (arith, v.counted);
          linked = (
            write_other h2 x _ n n_x ∙ write_self h1 n _,
            (
              write_self h2 x _,
              frame-write h2 (some x) xs none x _
                  (frame-write h1 (some x) xs none n _ (frame-write h (some x) xs none n _ s n_xs)
                    n_xs)
                  v.distinct.0,
            ),
          );
          distinct = (out, v.distinct);
        },
        λ a o.
            let a_x : (a == x) ≡ false = ground arith in
            let a_n : (a == n) ≡ false = ground arith in
            write_other h2 x _ a a_x ∙ write_other h1 n _ a a_n ∙ write_other h n _ a a_n,
      )

  head-cases :
      (xs : List ℕ)
      → IsList h l xs
      → has n xs ≡ false
      → Makes (n ∷ xs) h (lst_insert_head l (first_or xs none) (some n) h)
  head-cases [] v out = (
    record { head = some n; tail = some n; count = l.count + 1 },
    lonely h n c,
    alone-head v.counted,
    lonely-IsList h n l.count c v.counted,
    twice-same h n _ _ [],
  )
  head-cases (x ∷ xs) v out = head-Makes x xs v out

-- Adding a node, which is in the heap and not in the list, at the head of a list makes the list with
-- the node in front of the others; the heap changes at no other node.
pub lst_add_head-IsList :
    (h : Heap) (l : Lst) (xs : List ℕ) (n : ℕ) (c : Cell)
    → IsList h l xs
    → h n ≡ some c
    → has n xs ≡ false
    → Makes (n ∷ xs) h (lst_add_head l (some n) h)
unfolding lst_add_head
lst_add_head-IsList h l xs n c v e out = rw v.head_eq (head-cases h l n c e xs v out)
