-- ===== src/Kmp/Overflow.antt =====
-- Patterns that the table has no room for (frameWork/stringAlgorithm/string.c).
use embedded_linux_iot_gatew.Prelude.{
  ℕ, zero, suc, ◌+◌, ◌-◌, ◌*◌, ◌≤◌, ◌<◌, ◌≡◌, ◌⊎◌, refl, inl, inr, true, false, ◌==◌, Bool-cases,
  arith, Option, none, some, ltb, if◌then◌else◌, ◌>>=◌,
}
use embedded_linux_iot_gatew.Kmp.{
  next_len, put_next, write_next, Building, building, build_step, build, kmp,
}

-- A turn of the first loop goes outside of the table, or stays in it.
abbrev StaysOrStops : Option Building → Type 0
StaysOrStops o = (o ≡ none) ⊎ ((b : Building) × (o ≡ some b) × (b.i ≤ 256))

write-StaysOrStops :
    (next : ℕ → ℕ) (i w : ℕ)
    → StaysOrStops (write_next next i w >>= λ n. some (building (i + 1) w n))
unfolding write_next
write-StaysOrStops next i w = elim (Bool-cases (ltb i next_len)) [
  | inl room ↦ rw room (inr (building (i + 1) w (put_next next i w), refl, ground arith))
  | inr no_room ↦ rw no_room (inl refl)
]

read-StaysOrStops :
    (next : ℕ → ℕ) (i q : ℕ)
    → i ≤ 256
    → StaysOrStops
        ((if ltb q next_len then some (next q) else none) >>= λ w. some (building i w next))
read-StaysOrStops next i q le = elim (Bool-cases (ltb q next_len)) [
  | inl room ↦ rw room (inr (building i (next q) next, refl, le))
  | inr no_room ↦ rw no_room (inl refl)
]

build_step-StaysOrStops : (p : ℕ → ℕ) (b : Building) → b.i ≤ 256 → StaysOrStops (build_step p b)
unfolding build_step
build_step-StaysOrStops p b le = elim (Bool-cases (p b.i == p b.j)) [
  | inl same ↦ rw same (write-StaysOrStops b.next b.i (b.j + 1))
  | inr other ↦ elim (Bool-cases (b.j == 0)) [
    | inl at ↦ rw (other, at) (write-StaysOrStops b.next b.i 0)
    | inr inner ↦ rw (other, inner) (read-StaysOrStops b.next b.i (b.j - 1) le)
  ]
]

build_outside :
    (fuel : ℕ) (p : ℕ → ℕ) (len_p : ℕ) (b : Building)
    → b.i ≤ 256
    → 256 < len_p
    → build fuel p len_p b ≡ none
unfolding build
build_outside zero p len_p b le long =
    let more : ltb b.i len_p ≡ true = ground arith in rw more refl
build_outside (suc fuel) p len_p b le long =
    let more : ltb b.i len_p ≡ true = ground arith in
    elim (build_step-StaysOrStops p b le) [
      | inl stops ↦ rw (more, stops) refl
      | inr (b1, goes, le1) ↦ rw (more, goes) (build_outside fuel p len_p b1 le1 long)
    ]

-- With a pattern of more than 256 characters `kmp` never gets past its first loop, whatever its
-- fuel.
pub kmp_outside :
    (text pattern : ℕ → ℕ) (len_t len_p : ℕ) → 256 < len_p → kmp text pattern len_t len_p ≡ none
unfolding kmp
kmp_outside t p n m long =
    let some_char : (m == 0) ≡ false = ground arith in
    rw (some_char, build_outside (m * 2) p m (building 1 0 (λ c. 0)) (omega arith) long) refl
