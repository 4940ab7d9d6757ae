-- ===== src/Kmp.antt =====
-- frameWork/stringAlgorithm/string.c: the search of a pattern in a text by a table of its borders. The
-- two strings are functions from the places to the characters; the code reads them only below their
-- lengths. A write or a read outside of the table, and fuel that has run out, are `none`. What the code
-- prints is left out.
pub mod Borders
pub mod Table
pub mod Search
pub mod Overflow
mod Tests
use embedded_linux_iot_gatew.Prelude.{
  ℕ, zero, suc, ◌+◌, ◌-◌, ◌*◌, Bool, ◌&&◌, Option, none, some, ltb, ◌==◌, if◌then◌else◌, ◌>>=◌,
}

-- The length of `next`.
abbrev pub next_len : ℕ
next_len = 256

unfoldable pub put_next : (ℕ → ℕ) → ℕ → ℕ → ℕ → ℕ
put_next next i v c = if c == i then v else next c

-- next[i] = v
unfoldable pub write_next : (next : ℕ → ℕ) → (i v : ℕ) → Option (ℕ → ℕ)
write_next next i v = if ltb i next_len then some (put_next next i v) else none

abbrev pub read_next : (next : ℕ → ℕ) → (i : ℕ) → Option ℕ
read_next next i = if ltb i next_len then some (next i) else none

-- The variables of the first loop.
pub record Building : Type 0 where
  pub i : ℕ
  pub j : ℕ
  pub next : ℕ → ℕ

abbrev pub building : (i j : ℕ) → (ℕ → ℕ) → Building
building i j next = record { i = i; j = j; next = next }

-- A turn of the first loop, with the step of `i`.
unfoldable pub build_step : (pattern : ℕ → ℕ) → Building → Option Building
build_step pattern b =
    if pattern b.i == pattern b.j
    then (write_next b.next b.i (b.j + 1) >>= λ next. some (building (b.i + 1) (b.j + 1) next))
    else (if b.j == 0
        then (write_next b.next b.i 0 >>= λ next. some (building (b.i + 1) 0 next))
        else (read_next b.next (b.j - 1) >>= λ v. some (building b.i v b.next)))

-- The first loop. The fuel is the number of its turns.
unfoldable pub build : (fuel : ℕ) → (pattern : ℕ → ℕ) → (len_p : ℕ) → Building → Option (ℕ → ℕ)
build zero pattern len_p b = if ltb b.i len_p then none else some b.next
build (suc fuel) pattern len_p b =
    if ltb b.i len_p then (build_step pattern b >>= build fuel pattern len_p) else some b.next

-- The variables of the second loop.
pub record Searching : Type 0 where
  pub k : ℕ
  pub i : ℕ

abbrev pub searching : (k i : ℕ) → Searching
searching k i = record { k = k; i = i }

-- A turn of the second loop, with the step of `k`.
unfoldable pub search_step : (pattern text next : ℕ → ℕ) → Searching → Option Searching
search_step pattern text next s =
    if pattern s.i == text s.k
    then some (searching (s.k + 1) (s.i + 1))
    else (if s.i == 0
        then some (searching (s.k + 1) 0)
        else (read_next next (s.i - 1) >>= λ v. some (searching s.k v)))

-- The second loop. The fuel is the number of its turns.
unfoldable pub search_on :
    (fuel : ℕ) → (pattern text next : ℕ → ℕ) → (len_t len_p : ℕ) → Searching → Option Searching
search_on zero pattern text next len_t len_p s =
    if ltb s.k len_t && ltb s.i len_p then none else some s
search_on (suc fuel) pattern text next len_t len_p s =
    if ltb s.k len_t && ltb s.i len_p
    then (search_step pattern text next s >>= search_on fuel pattern text next len_t len_p)
    else some s

-- `kmp`; the result -1 is `none`.
unfoldable pub kmp : (text pattern : ℕ → ℕ) → (len_t len_p : ℕ) → Option (Option ℕ)
kmp text pattern len_t len_p =
    if len_p == 0
    then some (some 0)
    else (build (len_p * 2) pattern len_p (building 1 0 (λ c. 0)) >>= λ next.
        search_on (len_t * 2) pattern text next len_t len_p (searching 0 0) >>= λ s.
        some (if len_p == s.i then some (s.k - s.i) else none))
