-- ===== src/LinkedList/Nodes.antt =====
-- Nodes at addresses (frameWork/list/list.h), and the reads and writes through pointers.
use embedded_linux_iot_gatew.Prelude.{
  ℕ, Bool, true, false, Option, none, some, ◌==◌, if◌then◌else◌, ◌>>=◌,
}

-- A pointer to a node; NULL is `none`.
abbrev pub Ptr : Type 0
Ptr = Option ℕ

-- `NODE`
pub record Cell : Type 0 where
  pub next : Ptr
  pub prev : Ptr

abbrev pub cell : Ptr → Ptr → Cell
cell q p = record { next = q; prev = p }

abbrev pub Heap : Type 0
Heap = ℕ → Option Cell

unfoldable pub write : Heap → ℕ → Option Cell → Heap
write h p c a = if a == p then c else h a

unfoldable pub ptr_eq : Ptr → Ptr → Bool
ptr_eq none none = true
ptr_eq none (some q) = false
ptr_eq (some p) none = false
ptr_eq (some p) (some q) = p == q

unfoldable pub load : Ptr → Heap → Option Cell
load none h = none
load (some p) h = h p

-- p->next = q
unfoldable pub set_next : Ptr → Ptr → Heap → Option Heap
unfolding write
set_next none q h = none
set_next (some p) q h = h p >>= λ c. some (write h p (some (record c { next = q })))

-- p->prev = q
unfoldable pub set_prev : Ptr → Ptr → Heap → Option Heap
unfolding write
set_prev none q h = none
set_prev (some p) q h = h p >>= λ c. some (write h p (some (record c { prev = q })))

-- free(p)
unfoldable pub free : Ptr → Heap → Option Heap
unfolding write
free none h = some h
free (some p) h = h p >>= λ _. some (write h p none)
