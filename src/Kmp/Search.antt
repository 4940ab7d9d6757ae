-- ===== src/Kmp/Search.antt =====
-- The search (frameWork/stringAlgorithm/string.c).
use embedded_linux_iot_gatew.Prelude.{
  ℕ, zero, suc, ◌+◌, ◌-◌, ◌*◌, ◌≤◌, ◌<◌, ◌≡◌, ◌≢◌, ◌⊎◌, refl, sym, ap, subst, ◌∙◌, inl, inr, false,
  ◌==◌, Bool-cases, arith, Option, none, some, ltb, lt→ltb, if◌then◌else◌,
}
use embedded_linux_iot_gatew.Kmp.{next_len, Searching, searching, search_step, search_on, kmp}
use embedded_linux_iot_gatew.Kmp.Borders.{
  Matches, IsLongest, Matches-snoc, Matches-take, Matches-border, border-Matches,
}
use embedded_linux_iot_gatew.Kmp.Table.{IsTable, build-IsTable}

-- The second loop: the `i` characters before the place `k` are those that the pattern begins with,
-- and the pattern of `m` characters does not stand at any place before them.
pub record SearchInv (p t : ℕ → ℕ) (m k i : ℕ) : Type 0 where
  pub inside : i ≤ k
  pub short : i ≤ m
  pub matched : (s : ℕ) → s + i ≡ k → Matches p t s i
  pub nothing : (s : ℕ) → s + i < k → Matches p t s m → ⊥

module _ (p t : ℕ → ℕ) (m k i : ℕ) (v : SearchInv p t m k i) (less : i < m) where
  grows-SearchInv : p i ≡ t k → SearchInv p t m (k + 1) (i + 1)
  grows-SearchInv same = record {
    inside = omega (arith, v.inside);
    short = omega (arith, less);
    matched = λ s e.
        let back : s + i ≡ k = omega arith in
        Matches-snoc p t s i (v.matched s back) (same ∙ ap t (sym back));
    nothing = λ s e. v.nothing s (omega arith);
  }

  none-SearchInv : i ≡ 0 → p i ≢ t k → SearchInv p t m (k + 1) 0
  none-SearchInv at differ = record {
    inside = omega arith;
    short = omega arith;
    matched = λ s e c h. absurd (omega arith);
    nothing = λ s e found. elim (Bool-cases (s == k)) [
      | inl here ↦
          let there : s + 0 ≡ k = ground arith in
          differ (ap p at ∙ found 0 (omega arith) ∙ ap t there)
      | inr before ↦ v.nothing s (ground arith) found
    ];
  }

  fall-SearchInv : (q w : ℕ) → i ≡ q + 1 → IsLongest p q w → p i ≢ t k → SearchInv p t m k w
  fall-SearchInv q w at l differ =
      let le = v.inside in
      let w_q = l.small in
      let s0 = k - i in
      let s0_k : s0 + i ≡ k = omega arith in
      record {
        inside = omega arith;
        short = omega arith;
        matched = λ s e.
            Matches-border p t s0 (i - w) s i w (omega arith) (omega arith)
              (l.border (i - w) (omega arith)) (v.matched s0 s0_k);
        nothing = λ s e found. elim (Bool-cases (ltb (s + i) k)) [
          | inl before ↦ v.nothing s (ground arith) found
          | inr not_before ↦ elim (Bool-cases (s + i == k)) [
            | inl here ↦ let there : s + i ≡ k = ground arith in differ (found i less ∙ ap t there)
            | inr behind ↦
                let past : k < s + i = ground arith in
                let b = k - s in
                let border : Matches p p (i - b) b =
                  border-Matches p t s0 s i b (i - b) (omega arith) (omega arith)
                    (v.matched s0 s0_k) (Matches-take p t s m b (omega arith) found) in
                let shorter = l.longest (i - b) b (omega arith) (omega arith) border in
                absurd (omega (arith, shorter))
          ]
        ];
      }

-- A turn of the loop keeps the invariant and brings the end nearer.
abbrev Goes : (p t : ℕ → ℕ) (m k i : ℕ) → Option Searching → Type 0
Goes p t m k i o =
    (s : Searching) × (o ≡ some s)
    × SearchInv p t m s.k s.i
    × (s.k ≤ k + 1)
    × (k * 2 + s.i < s.k * 2 + i)

search_step-Goes :
    (p t next : ℕ → ℕ) (m k i : ℕ)
    → IsTable p next m
    → m ≤ next_len
    → SearchInv p t m k i
    → i < m
    → Goes p t m k i (search_step p t next (searching k i))
unfolding search_step
search_step-Goes p t next m k i table room v less = elim (Bool-cases (p i == t k)) [
  | inl same ↦ rw same (
    searching (k + 1) (i + 1),
    refl,
    grows-SearchInv p t m k i v less (ground arith),
    omega arith,
    omega arith,
  )
  | inr other ↦
      let differ : p i ≢ t k = ground arith in
      rw other (elim (Bool-cases (i == 0)) [
        | inl at ↦
            let i_0 : i ≡ 0 = ground arith in
            rw at (
              searching (k + 1) 0,
              refl,
              none-SearchInv p t m k i v less i_0 differ,
              omega arith,
              omega arith,
            )
        | inr inner ↦
            let q = i - 1 in
            let i_q : i ≡ q + 1 = ground arith in
            let l = table q (omega arith) in
            rw (inner, lt→ltb q next_len (omega arith))
              (
                searching k (next q),
                refl,
                fall-SearchInv p t m k i v less q (next q) i_q l differ,
                omega arith,
                omega (arith, l.small),
              )
      ])
]

-- How the second loop ends.
record IsSearched (p t : ℕ → ℕ) (n m : ℕ) (s : Searching) : Type 0 where
  inv : SearchInv p t m s.k s.i
  in_text : s.k ≤ n
  ended : (n ≤ s.k) ⊎ (m ≤ s.i)

search_on-IsSearched :
    (fuel : ℕ) (p t next : ℕ → ℕ) (n m k i : ℕ)
    → IsTable p next m
    → m ≤ next_len
    → SearchInv p t m k i
    → k ≤ n
    → n * 2 + i ≤ k * 2 + fuel
    → (s : Searching) × (search_on fuel p t next n m (searching k i) ≡ some s)
      × IsSearched p t n m s
unfolding search_on
search_on-IsSearched zero p t next n m k i table room v le enough =
    let over : ltb k n ≡ false = ground arith in
    rw over (searching k i, refl, record { inv = v; in_text = le; ended = inl (ground arith) })
search_on-IsSearched (suc fuel) p t next n m k i table room v le enough =
    elim (Bool-cases (ltb k n)) [
      | inr over ↦
          rw over
            (searching k i, refl, record { inv = v; in_text = le; ended = inl (ground arith) })
      | inl more ↦
          let k_n : k < n = ground arith in
          rw more (elim (Bool-cases (ltb i m)) [
            | inr found ↦
                rw found (
                  searching k i,
                  refl,
                  record { inv = v; in_text = le; ended = inr (ground arith) },
                )
            | inl less ↦
                let (s, stepped, v1, near, nearer) =
                  search_step-Goes p t next m k i table room v (ground arith) in
                rw (less, stepped)
                  (search_on-IsSearched fuel p t next n m s.k s.i table room v1
                    (omega (arith, near)) (omega (arith, nearer)))
          ])
    ]

-- The first place of the text of `n` characters at which the pattern of `m` stands, or that there is
-- none.
abbrev pub IsFirst : (text pattern : ℕ → ℕ) → (n m : ℕ) → Option ℕ → Type 0
IsFirst t p n m none = (s : ℕ) → s + m ≤ n → Matches p t s m → ⊥
IsFirst t p n m (some s) =
    (s + m ≤ n) × Matches p t s m × ((s1 : ℕ) → s1 < s → Matches p t s1 m → ⊥)

result-IsFirst :
    (p t : ℕ → ℕ) (n m : ℕ) (s : Searching)
    → IsSearched p t n m s
    → IsFirst t p n m (if m == s.i then some (s.k - s.i) else none)
result-IsFirst p t n m s w =
    let v = w.inv in
    let le = v.inside in
    elim (Bool-cases (m == s.i)) [
      | inl found ↦
          let whole : s.i ≡ m = ground arith in
          let at : s.k - s.i + s.i ≡ s.k = omega arith in
          rw found (
            omega (arith, w.in_text),
            subst (Matches p t (s.k - s.i)) whole (v.matched (s.k - s.i) at),
            λ s1 before. v.nothing s1 (omega arith),
          )
      | inr missing ↦
          let part : s.i < m = ground (arith, v.short) in
          let all : n ≤ s.k = elim w.ended [ inl e ↦ e | inr e ↦ absurd (omega arith) ] in
          rw missing (λ s1 le1. v.nothing s1 (omega arith))
    ]

start : (p t : ℕ → ℕ) (m : ℕ) → SearchInv p t m 0 0
start p t m = record {
  inside = omega arith;
  short = omega arith;
  matched = λ s e c h. absurd (omega arith);
  nothing = λ s e. absurd (omega arith);
}

-- `kmp` of a pattern of at most 256 characters ends, and returns the first place at which the pattern
-- stands in the text, or -1 if there is none.
pub kmp-IsFirst :
    (text pattern : ℕ → ℕ) (len_t len_p : ℕ)
    → len_p ≤ 256
    → (r : Option ℕ) × (kmp text pattern len_t len_p ≡ some r) × IsFirst text pattern len_t len_p r
unfolding kmp
kmp-IsFirst t p n zero room =
    (some 0, refl, (omega arith, λ c h. absurd (omega arith), λ s h. absurd (omega arith)))
kmp-IsFirst t p n (suc l) room =
    let m = suc l in
    let some_char : (m == 0) ≡ false = ground arith in
    let (next, built, table) = build-IsTable p m (omega arith) room in
    let (s, searched, w) =
      search_on-IsSearched (n * 2) p t next n m 0 0 table room (start p t m) (omega arith)
        (omega arith) in
    rw (some_char, built, searched)
      (if m == s.i then some (s.k - s.i) else none, refl, result-IsFirst p t n m s w)
