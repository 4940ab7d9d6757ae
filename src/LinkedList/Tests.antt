-- ===== src/LinkedList/Tests.antt =====
-- Lists in a heap, and the theorems at an input.
use embedded_linux_iot_gatew.Prelude.{
  ℕ, ◌≡◌, refl, true, false, none, some, [], ◌∷◌, ◌==◌, if◌then◌else◌, arith,
}
use embedded_linux_iot_gatew.LinkedList.{Lst, cell, Heap, lst_del, lst_free, lst_init}
use embedded_linux_iot_gatew.LinkedList.Seg.{has, IsList, SameOutside}
use embedded_linux_iot_gatew.LinkedList.Delete.Lemmas.{Drops}
use embedded_linux_iot_gatew.LinkedList.Delete.{lst_del-IsList}
use embedded_linux_iot_gatew.LinkedList.Walk.{lst_free-all}

-- The nodes 1 and 2 are a list, 3 is a list of its own, and 4 is in none.
abbrev heap : Heap
heap a =
    if a == 1
    then some (cell (some 2) none)
    else (if a == 2
        then some (cell none (some 1))
        else (if a == 3
            then some (cell none none)
            else (if a == 4 then some (cell none none) else none)))

abbrev two : Lst
two = record { head = some 1; tail = some 2; count = 2 }

abbrev one : Lst
one = record { head = some 3; tail = some 3; count = 1 }

two-IsList : IsList heap two (1 ∷ 2 ∷ [])
two-IsList = record {
  head_eq = refl;
  tail_eq = refl;
  counted = refl;
  linked = (refl, (refl, tt));
  distinct = (refl, (refl, tt));
}

one-IsList : IsList heap one (3 ∷ [])
one-IsList = record {
  head_eq = refl;
  tail_eq = refl;
  counted = refl;
  linked = (refl, tt);
  distinct = (refl, tt);
}

empty-IsList : IsList heap lst_init []
empty-IsList = record { head_eq = refl; tail_eq = refl; counted = refl; linked = tt; distinct = tt }

lst_del-IsList_example : Drops (1 ∷ []) 2 [] heap (lst_del two (some 2) heap)
lst_del-IsList_example = lst_del-IsList heap two (1 ∷ []) 2 [] two-IsList

lst_free-all_example :
    (h' : Heap) × (lst_free 2 two heap ≡ some (lst_init, h'))
    × IsList h' lst_init []
    × ((a : ℕ) → has a (1 ∷ 2 ∷ []) ≡ true → h' a ≡ none)
    × SameOutside (1 ∷ 2 ∷ []) heap h'
lst_free-all_example = lst_free-all 2 heap two (1 ∷ 2 ∷ []) two-IsList (omega arith)

one_or_two : (a : ℕ) → has a (3 ∷ []) ≡ true → has a (1 ∷ 2 ∷ []) ≡ false
one_or_two a m = ground arith
