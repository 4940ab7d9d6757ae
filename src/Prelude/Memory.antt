-- ===== src/Prelude/Memory.antt =====
-- Blocks of memory as lists of bytes, and the C library's routines on them. `none` is what the
-- language leaves undefined: an access outside the block, or an assertion that fails.
use embedded_linux_iot_gatew.Prelude.Tests.{leb, if◌then◌else◌, ◌==◌}
use embedded_linux_iot_gatew.Prelude.Lists.{
  length, take, drop, replicate, length-append, length-take, length-drop, take-append_add,
  take_of_ge, length-replicate,
}
use Prim.Native.Nat.{ℕ, ◌+◌, ◌≤◌, ◌<◌, ◌^◌}
use mathlib.Core.Path.{◌≡◌, refl, ap, ◌∙◌}
use mathlib.Core.Bool.{Bool, true, false}
use mathlib.Core.List.{List, [], ◌∷◌, ◌++◌, append-nil}
use mathlib.Core.Option.{Option, none, some}
use native.Mathlib.Nat.{zero-add}
use native.Mathlib.Omega.{arith}

infixl 5 ◌>>=◌ ◌>>◌
abbrev pub ◌>>=◌ {ℓ κ} : {A : Type ℓ} {B : Type κ} → Option A → (A → Option B) → Option B
none >>= f = none
some a >>= f = f a

abbrev pub ◌>>◌ {ℓ} : {B : Type ℓ} → Option (Unit {0}) → Option B → Option B
m >> k = m >>= λ _. k

abbrev pub assert : Bool → Option (Unit {0})
assert true = some tt
assert false = none

-- `size_t` has 32 bits on the gateway's processor (demo/toolchain.mk).
abbrev pub size_mod : ℕ
size_mod = 2 ^ 32

-- memcpy(block + off, src, n), where `src` holds the bytes that can be read behind its pointer
unfoldable pub memcpy : List ℕ → ℕ → List ℕ → ℕ → Option (List ℕ)
memcpy block off src n =
    if leb n (length src)
    then (if leb (off + n) (length block)
        then some (take off block ++ (take n src ++ drop (off + n) block))
        else none)
    else none

-- memmove(block, block + from, n): the source is read before the target is written
unfoldable pub memmove_down : List ℕ → ℕ → ℕ → Option (List ℕ)
unfolding memcpy
memmove_down block from n =
    if leb (from + n) (length block) then memcpy block 0 (drop from block) n else none

-- memset(block, 0, n)
unfoldable pub memset_zero : List ℕ → ℕ → Option (List ℕ)
unfolding memcpy
memset_zero block n = memcpy block 0 (replicate n 0) n

-- strlen: the bytes in front of the first zero byte; with none in the block it reads past the end
unfoldable pub strlen : List ℕ → Option ℕ
strlen [] = none
strlen (c ∷ s) = if c == 0 then some 0 else (strlen s >>= λ n. some (n + 1))

-- What a copy inside the block gives.
pub memcpy-ok :
    (block : List ℕ) (off : ℕ) (src : List ℕ) (n : ℕ)
    → n ≤ length src
    → off + n ≤ length block
    → memcpy block off src n ≡ some (take off block ++ (take n src ++ drop (off + n) block))
unfolding memcpy
memcpy-ok block off src n h k = ground arith

pub memcpy-none :
    (block : List ℕ) (off : ℕ) (src : List ℕ) (n : ℕ)
    → length block < off + n
    → memcpy block off src n ≡ none
unfolding memcpy
memcpy-none block off src n h = ground arith

-- The block keeps its length under a copy inside it.
pub length-splice :
    (block : List ℕ) (off : ℕ) (src : List ℕ) (n : ℕ)
    → n ≤ length src
    → off + n ≤ length block
    → length (take off block ++ (take n src ++ drop (off + n) block)) ≡ length block
length-splice block off src n h k = omega (
  arith,
  length-append (take off block) (take n src ++ drop (off + n) block),
  length-append (take n src) (drop (off + n) block),
  length-take off block,
  length-take n src,
  length-drop (off + n) block,
)

-- Up to the end of what was copied, the block is its old front and the copied bytes.
pub take-splice :
    (block : List ℕ) (off : ℕ) (src : List ℕ) (n k : ℕ)
    → n ≤ length src
    → off + n ≤ length block
    → off + n ≡ k
    → take k (take off block ++ (take n src ++ drop (off + n) block)) ≡ take off block ++ take n src
take-splice block off src n k h in_block e =
    take-append_add (take off block) _ k n (omega (arith, length-take off block))
    ∙ ap (λ t. take off block ++ t)
        (take-append_add (take n src) _ n 0 (omega (arith, length-take n src))
          ∙ append-nil (take n src))

pub memmove_down-ok :
    (block : List ℕ) (from n : ℕ)
    → from + n ≤ length block
    → memmove_down block from n ≡ some (take n (drop from block) ++ drop n block)
unfolding memmove_down
memmove_down-ok block from n h =
    let le : leb (from + n) (length block) ≡ true = ground arith in
    rw (
      le,
      memcpy-ok block 0 (drop from block) n (omega (arith, length-drop from block)) (omega arith),
      zero-add n,
    )

pub memmove_down-none :
    (block : List ℕ) (from n : ℕ) → length block < from + n → memmove_down block from n ≡ none
unfolding memmove_down
memmove_down-none block from n h = ground arith

pub length-move :
    (block : List ℕ) (from n : ℕ)
    → from + n ≤ length block
    → length (take n (drop from block) ++ drop n block) ≡ length block
length-move block from n h = omega (
  arith,
  length-append (take n (drop from block)) (drop n block),
  length-take n (drop from block),
  length-drop from block,
  length-drop n block,
)

pub memset_zero-ok :
    (block : List ℕ) (n : ℕ)
    → n ≤ length block
    → memset_zero block n ≡ some (replicate n 0 ++ drop n block)
unfolding memset_zero
memset_zero-ok block n h =
    let zeros : length (replicate {A = ℕ} n 0) ≡ n = length-replicate n 0 in
    rw (
      memcpy-ok block 0 (replicate n 0) n (omega arith) (omega arith),
      zero-add n,
      take_of_ge n (replicate {A = ℕ} n 0) (omega arith),
    )

-- A chain that has a result has one at its first link.
pub bind-some {ℓ ℓ'} :
    {A : Type ℓ} {B : Type ℓ'} (o : Option A) (f : A → Option B) {b : B}
    → (o >>= f) ≡ some b
    → (a : A) × (o ≡ some a) × (f a ≡ some b)
bind-some none f e = cc
bind-some (some a) f e = (a, refl, e)

-- A chain that fails has no result.
pub no_result {ℓ κ} : {A : Type ℓ} {C : Type κ} {b : A} → none ≡ some b → C
no_result h = cc
