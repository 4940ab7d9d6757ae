-- ===== src/Kmp/Table.antt =====
-- The table of the borders (frameWork/stringAlgorithm/string.c).
use embedded_linux_iot_gatew.Prelude.{
  ℕ, zero, suc, ◌+◌, ◌-◌, ◌*◌, ◌≤◌, ◌<◌, ◌≡◌, ◌≢◌, refl, sym, ap, subst, ◌∙◌, inl, inr, false, ◌==◌,
  Bool-cases, arith, Option, some, ltb, lt→ltb,
}
use embedded_linux_iot_gatew.Kmp.{
  next_len, put_next, write_next, Building, building, build_step, build,
}
use embedded_linux_iot_gatew.Kmp.Borders.{
  Matches, IsLongest, Matches-snoc, Matches-take, Matches-border, border-Matches,
}

-- The entries below `n` are those of the table.
abbrev pub IsTable : (pattern next : ℕ → ℕ) → ℕ → Type 0
IsTable pattern next n = (c : ℕ) → c < n → IsLongest pattern c (next c)

-- The first loop: `j` is the length of a border of the first `i` characters, and each border that the
-- next character goes on is at most as long.
pub record BuildInv (p : ℕ → ℕ) (i j : ℕ) (next : ℕ → ℕ) : Type 0 where
  pub inside : j < i
  pub table : IsTable p next i
  pub border : (d : ℕ) → d + j ≡ i → Matches p p d j
  pub bound : (d b : ℕ) → 0 < d → d + b ≡ i → Matches p p d (b + 1) → b ≤ j

module _ (p : ℕ → ℕ) (i j : ℕ) (next : ℕ → ℕ) (v : BuildInv p i j next) where
  grows-IsLongest : p i ≡ p j → IsLongest p i (j + 1)
  grows-IsLongest same = record {
    small = omega (arith, v.inside);
    border = λ d e.
        let back : d + j ≡ i = omega arith in
        Matches-snoc p p d j (v.border d back) (sym same ∙ ap p (sym back));
    longest = longest_cases;
  }
    where
      longest_cases : (d b : ℕ) → 0 < d → d + b ≡ i + 1 → Matches p p d b → b ≤ j + 1
      longest_cases d zero pos e m = omega arith
      longest_cases d (suc b) pos e m =
          let less =
            v.bound d b pos (omega arith) (Matches-take p p d (suc b) (b + 1) (omega arith) m) in
          omega (arith, less)

  none-IsLongest : j ≡ 0 → p i ≢ p j → IsLongest p i 0
  none-IsLongest at other = record {
    small = omega arith;
    border = λ d e c m. absurd (omega arith);
    longest = longest_cases;
  }
    where
      longest_cases : (d b : ℕ) → 0 < d → d + b ≡ i + 1 → Matches p p d b → b ≤ 0
      longest_cases d zero pos e m = omega arith
      longest_cases d (suc b) pos e m =
          let less =
            v.bound d b pos (omega arith) (Matches-take p p d (suc b) (b + 1) (omega arith) m) in
          let there : i ≡ d + 0 = omega (arith, less) in
          absurd (other (ap p there ∙ sym (m 0 (omega arith)) ∙ ap p (sym at)))

  -- An entry is written, and the loop goes on behind it.
  write-BuildInv : (w : ℕ) → IsLongest p i w → BuildInv p (i + 1) w (put_next next i w)
  unfolding put_next
  write-BuildInv w l = record {
    inside = omega (arith, l.small);
    table = λ c m. elim (Bool-cases (c == i)) [
      | inl here ↦ let at : i ≡ c = ground arith in rw here (subst (λ k. IsLongest p k w) at l)
      | inr other ↦ rw other (v.table c (ground arith))
    ];
    border = l.border;
    bound = λ d b pos e m. l.longest d b pos e (Matches-take p p d (b + 1) b (omega arith) m);
  }

  -- The loop falls back to the next shorter border.
  fall-BuildInv : (q : ℕ) → j ≡ q + 1 → p i ≢ p j → BuildInv p i (next q) next
  fall-BuildInv q at other =
      let q_in = v.inside in
      let l = v.table q (omega arith) in
      let s = i - j in
      let s_j : s + j ≡ i = omega arith in
      record {
        inside = omega (arith, l.small);
        table = v.table;
        border = λ d e.
            Matches-border p p s (j - next q) d j (next q) (omega (arith, l.small))
              (omega (arith, s_j)) (l.border (j - next q) (omega (arith, l.small)))
              (v.border s s_j);
        bound = λ d b pos e m.
            let less : b ≤ j = v.bound d b pos e m in
            let mismatch : b ≢ j =
              λ same. other (ap p (sym e) ∙ sym (m b (omega arith)) ∙ ap p same) in
            l.longest (j - b) b (omega arith) (omega arith) (
              border-Matches p p s d j b (j - b) (omega arith) (omega (arith, s_j)) (v.border s s_j)
                (Matches-take p p d (b + 1) b (omega arith) m));
      }

  write_next_lem : (w : ℕ) → i < next_len → write_next next i w ≡ some (put_next next i w)
  unfolding write_next
  write_next_lem w room = rw (lt→ltb i next_len room) refl

-- A turn of the loop keeps the invariant and brings the end nearer.
abbrev Steps : (p : ℕ → ℕ) (i j : ℕ) → Option Building → Type 0
Steps p i j o =
    (b : Building) × (o ≡ some b)
    × BuildInv p b.i b.j b.next
    × (b.i ≤ i + 1)
    × (i * 2 + b.j < b.i * 2 + j)

build_step-Steps :
    (p : ℕ → ℕ) (i j : ℕ) (next : ℕ → ℕ)
    → BuildInv p i j next
    → i < next_len
    → Steps p i j (build_step p (building i j next))
unfolding build_step
build_step-Steps p i j next v room = elim (Bool-cases (p i == p j)) [
  | inl same ↦
      let n = put_next next i (j + 1) in
      rw (same, write_next_lem p i j next v (j + 1) room)
        (
          building (i + 1) (j + 1) n,
          refl,
          write-BuildInv p i j next v (j + 1) (grows-IsLongest p i j next v (ground arith)),
          omega arith,
          omega arith,
        )
  | inr other ↦
      let differ : p i ≢ p j = ground arith in
      rw other (elim (Bool-cases (j == 0)) [
        | inl at ↦
            let j_0 : j ≡ 0 = ground arith in
            rw (at, write_next_lem p i j next v 0 room)
              (
                building (i + 1) 0 (put_next next i 0),
                refl,
                write-BuildInv p i j next v 0 (none-IsLongest p i j next v j_0 differ),
                omega arith,
                omega arith,
              )
        | inr inner ↦
            let inside = v.inside in
            let q = j - 1 in
            let j_q : j ≡ q + 1 = ground arith in
            let l = v.table q (omega arith) in
            rw (inner, lt→ltb q next_len (omega arith))
              (
                building i (next q) next,
                refl,
                fall-BuildInv p i j next v q j_q differ,
                omega arith,
                omega (arith, l.small),
              )
      ])
]

build-IsTable_from :
    (fuel : ℕ) (p : ℕ → ℕ) (len_p i j : ℕ) (next : ℕ → ℕ)
    → BuildInv p i j next
    → len_p ≤ next_len
    → i ≤ len_p
    → len_p * 2 + j ≤ i * 2 + fuel
    → (table : ℕ → ℕ) × (build fuel p len_p (building i j next) ≡ some table)
      × IsTable p table len_p
unfolding build
build-IsTable_from zero p len_p i j next v room le enough =
    let inside = v.inside in
    let over : ltb i len_p ≡ false = ground arith in
    let at : i ≡ len_p = omega arith in
    rw over (next, refl, subst (λ n. IsTable p next n) at v.table)
build-IsTable_from (suc fuel) p len_p i j next v room le enough = elim (Bool-cases (ltb i len_p)) [
  | inr over ↦
      let at : i ≡ len_p = ground arith in
      rw over (next, refl, subst (λ n. IsTable p next n) at v.table)
  | inl more ↦
      let here : i < len_p = ground arith in
      let (b, stepped, v1, near, nearer) = build_step-Steps p i j next v (omega arith) in
      rw (more, stepped)
        (build-IsTable_from fuel p len_p b.i b.j b.next v1 room (omega (arith, near))
          (omega (arith, nearer)))
]

first-IsLongest : (p : ℕ → ℕ) → IsLongest p 0 0
first-IsLongest p = record {
  small = omega arith;
  border = λ d e c m. absurd (omega arith);
  longest = λ d b pos e m. omega arith;
}

-- For a pattern of at most 256 characters and not none, the first loop of `kmp` ends with the lengths
-- of the longest borders of its prefixes in the table.
pub build-IsTable :
    (p : ℕ → ℕ) (len_p : ℕ)
    → 0 < len_p
    → len_p ≤ next_len
    → (table : ℕ → ℕ) × (build (len_p * 2) p len_p (building 1 0 (λ c. 0)) ≡ some table)
      × IsTable p table len_p
build-IsTable p len_p some_char room =
    build-IsTable_from (len_p * 2) p len_p 1 0 (λ c. 0)
      (record {
        inside = omega arith;
        table = λ c m.
            let at : 0 ≡ c = omega arith in subst (λ k. IsLongest p k 0) at (first-IsLongest p);
        border = λ d e c m. absurd (omega arith);
        bound = λ d b pos e m. omega arith;
      })
      room (omega arith) (omega arith)
