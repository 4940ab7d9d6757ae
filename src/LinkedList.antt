-- ===== src/LinkedList.antt =====
-- frameWork/list/list.c and frameWork/list/list.h: doubly linked lists. The nodes stand at addresses
-- of a heap, and a list is its first and last node and their number; NULL is `none`. A read or write
-- through NULL or at an address that holds no node is `none`.
pub mod Nodes
pub mod Seg
pub mod Insert
pub mod Delete
pub mod Walk
pub mod Merge
mod Tests
use embedded_linux_iot_gatew.Prelude.{
  ℕ, zero, suc, ◌+◌, ◌-◌, ◌/◌, Bool, true, false, ◌||◌, Option, none, some, ltb, leb, ◌==◌,
  if◌then◌else◌, ◌>>=◌,
}
unfoldable pub use Nodes.*

-- `LIST`, with its fields HEAD and TAIL.
pub record Lst : Type 0 where
  pub head : Ptr
  pub tail : Ptr
  pub count : ℕ

abbrev pub lst_init : Lst
lst_init = record { head = none; tail = none; count = 0 }

-- `lstNodeInit`
unfoldable pub lst_node_init : Ptr → Heap → Option Heap
unfolding set_next set_prev
lst_node_init p h = set_next p none h >>= set_prev p none

-- `lstInsertTail`
unfoldable pub lst_insert_tail : Lst → (prev node : Ptr) → Heap → Option (Lst × Heap)
unfolding set_next set_prev
lst_insert_tail l none p h = set_prev p none h >>= λ h1.
    set_next p none h1 >>= λ h2. some (record { head = p; tail = p; count = l.count + 1 }, h2)
lst_insert_tail l (some t) p h = set_next (some t) p h >>= λ h1. set_prev p (some t) h1 >>= λ h2.
    set_next p none h2 >>= λ h3. some (record l { tail = p; count = l.count + 1 }, h3)

-- `lstInsertHead`
unfoldable pub lst_insert_head : Lst → (next node : Ptr) → Heap → Option (Lst × Heap)
unfolding set_next set_prev
lst_insert_head l none p h = set_prev p none h >>= λ h1.
    set_next p none h1 >>= λ h2. some (record { head = p; tail = p; count = l.count + 1 }, h2)
lst_insert_head l (some n) p h = set_next p (some n) h >>= λ h1. set_prev p none h1 >>= λ h2.
    set_prev (some n) p h2 >>= λ h3. some (record l { head = p; count = l.count + 1 }, h3)

unfoldable pub lst_add_tail : Lst → Ptr → Heap → Option (Lst × Heap)
unfolding lst_insert_tail
lst_add_tail l p h = lst_insert_tail l l.tail p h

unfoldable pub lst_add_head : Lst → Ptr → Heap → Option (Lst × Heap)
unfolding lst_insert_head
lst_add_head l p h = lst_insert_head l l.head p h

-- The four ways of `lstDel` to take a node out.
module _ (l : Lst) (p : Ptr) (h : Heap) where
  unfoldable pub del_only : Option (Lst × Heap)
  unfolding free
  del_only = free p h >>= λ h1. some (record l { head = none; tail = none }, h1)

  unfoldable pub del_head : Option (Lst × Heap)
  unfolding load set_prev free
  del_head = load l.head h >>= λ c.
      set_prev c.next none h >>= λ h1. free p h1 >>= λ h2. some (record l { head = c.next }, h2)

  unfoldable pub del_tail : Option (Lst × Heap)
  unfolding load set_next free
  del_tail = load l.tail h >>= λ c.
      set_next c.prev none h >>= λ h1. free p h1 >>= λ h2. some (record l { tail = c.prev }, h2)

  unfoldable pub del_inner : Option (Lst × Heap)
  unfolding load set_next set_prev free
  del_inner = load p h >>= λ c. set_next c.prev c.next h >>= λ h1. load p h1 >>= λ c1.
      set_prev c1.next c1.prev h1 >>= λ h2.
      set_next p none h2 >>= λ h3. set_prev p none h3 >>= λ h4. free p h4 >>= λ h5. some (l, h5)

abbrev pub uncount : Lst × Heap → Option (Lst × Heap)
uncount (l, h) = some (record l { count = l.count - 1 }, h)

-- `lstDel`; every way but the refusal counts one node less.
unfoldable pub lst_del : Lst → Ptr → Heap → Option (Lst × Heap)
unfolding del_only del_head del_tail del_inner
lst_del l none h = some (l, h)
lst_del l (some p) h =
    if l.count == 0
    then some (l, h)
    else ((if l.count == 1
          then del_only l (some p) h
          else (if ptr_eq l.head (some p)
              then del_head l (some p) h
              else (if ptr_eq l.tail (some p)
                  then del_tail l (some p) h
                  else del_inner l (some p) h)))
        >>= uncount)

abbrev pub lst_first : Lst → Ptr
lst_first l = l.head

abbrev pub lst_last : Lst → Ptr
lst_last l = l.tail

abbrev pub lst_length : Lst → ℕ
lst_length l = l.count

unfoldable pub lst_next : Ptr → Heap → Option Ptr
unfolding load
lst_next none h = some none
lst_next (some p) h = load (some p) h >>= λ c. some c.next

unfoldable pub lst_prev : Ptr → Heap → Option Ptr
unfolding load
lst_prev none h = some none
lst_prev (some p) h = load (some p) h >>= λ c. some c.prev

-- The loops of `lstDth`, which take `k` steps.
unfoldable pub forward : ℕ → Ptr → Heap → Option Ptr
unfolding load
forward zero p h = some p
forward (suc k) p h = load p h >>= λ c. forward k c.next h

unfoldable pub backward : ℕ → Ptr → Heap → Option Ptr
unfolding load
backward zero p h = some p
backward (suc k) p h = load p h >>= λ c. backward k c.prev h

-- `lstDth`; an index below 1 is 0.
unfoldable pub lst_dth : Lst → ℕ → Heap → Option Ptr
unfolding forward backward
lst_dth l index h =
    if ltb index 1 || ltb l.count index
    then some none
    else (if leb index (l.count / 2)
        then forward (index - 1) l.head h
        else backward (l.count - index) l.tail h)

-- The loop of `lstFree`, with fuel; `none` also when that runs out.
unfoldable pub free_from : ℕ → Ptr → Heap → Option Heap
unfolding load free
free_from fuel none h = some h
free_from zero (some p) h = none
free_from (suc fuel) (some p) h =
    load (some p) h >>= λ c. free (some p) h >>= λ h1. free_from fuel c.next h1

unfoldable pub lst_free : (fuel : ℕ) → Lst → Heap → Option (Lst × Heap)
unfolding free_from
lst_free fuel l h = free_from fuel l.head h >>= λ h1. some (lst_init, h1)

-- `lstMerge`: the first list with the second one behind it, and the second one emptied.
unfoldable pub lst_merge : Lst → Lst → Heap → Option (Lst × Lst × Heap)
unfolding set_next set_prev
lst_merge l l2 h = set_next l.tail l2.head h >>= λ h1. set_prev l2.head l.tail h1 >>= λ h2.
    some (record l { tail = l2.tail; count = l.count + l2.count }, lst_init, h2)

-- The loops of `lstMergeN`: nodes are freed up to the start, and back to the end.
unfoldable pub trim_head : (fuel start : ℕ) → Ptr → Lst → Heap → Option (Lst × Heap)
unfolding load set_prev free
trim_head fuel start none l h = some (l, h)
trim_head zero start (some p) l h = none
trim_head (suc fuel) start (some p) l h = load (some p) h >>= λ c. elim (start == p) [
  | false ↦
      free (some p) h >>= λ h1. trim_head fuel start c.next (record l { count = l.count - 1 }) h1
  | true ↦ set_prev (some p) none h >>= λ h1. some (record l { head = some p }, h1)
]

unfoldable pub trim_tail : (fuel last : ℕ) → Ptr → Lst → Heap → Option (Lst × Heap)
unfolding load set_next free
trim_tail fuel last none l h = some (l, h)
trim_tail zero last (some p) l h = none
trim_tail (suc fuel) last (some p) l h = load (some p) h >>= λ c. elim (last == p) [
  | false ↦
      free (some p) h >>= λ h1. trim_tail fuel last c.prev (record l { count = l.count - 1 }) h1
  | true ↦ set_next (some p) none h >>= λ h1. some (record l { tail = some p }, h1)
]

-- The refusal of `lstMergeN`, by the addresses.
abbrev pub wrong_order : (start last : ℕ) → Bool
wrong_order start last = ltb start last

-- `lstMergeN`, for nodes that are not NULL; the Bool is false for the result -1.
unfoldable pub lst_merge_n :
    (fuel : ℕ) → Lst → (start last : ℕ) → Lst → Heap → Option (Lst × Lst × Heap × Bool)
unfolding trim_head trim_tail lst_merge
lst_merge_n fuel l start last l2 h =
    if wrong_order start last
    then some (l, l2, h, false)
    else (trim_head fuel start l2.head l2 h >>= λ (l3, h1).
        trim_tail fuel last l3.tail l3 h1 >>= λ (l4, h2).
        lst_merge l l4 h2 >>= λ (l5, l6, h3). some (l5, l6, h3, true))
