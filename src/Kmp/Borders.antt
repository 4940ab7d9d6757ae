-- ===== src/Kmp/Borders.antt =====
-- Where strings match, and the borders of a pattern (frameWork/stringAlgorithm/string.c).
use embedded_linux_iot_gatew.Prelude.{
  ℕ, ◌+◌, ◌≤◌, ◌<◌, ◌≡◌, sym, ap, subst, ◌∙◌, inl, inr, ◌==◌, Bool-cases, arith,
}

-- The first `n` characters of the pattern stand at the place `s` of the text.
abbrev pub Matches : (pattern text : ℕ → ℕ) → (s n : ℕ) → Type 0
Matches pattern text s n = (c : ℕ) → c < n → pattern c ≡ text (s + c)

-- `v` is the length of the longest string that the first `i + 1` characters both begin and end with,
-- and that is shorter.
pub record IsLongest (pattern : ℕ → ℕ) (i v : ℕ) : Type 0 where
  pub small : v ≤ i
  pub border : (d : ℕ) → d + v ≡ i + 1 → Matches pattern pattern d v
  pub longest : (d b : ℕ) → 0 < d → d + b ≡ i + 1 → Matches pattern pattern d b → b ≤ v

module _ (p t : ℕ → ℕ) where
  pub Matches-snoc : (s n : ℕ) → Matches p t s n → p n ≡ t (s + n) → Matches p t s (n + 1)
  Matches-snoc s n m e c h = elim (Bool-cases (c == n)) [
    | inl last ↦ let at : n ≡ c = ground arith in subst (λ k. p k ≡ t (s + k)) at e
    | inr other ↦ m c (ground arith)
  ]

  pub Matches-take : (s n m : ℕ) → m ≤ n → Matches p t s n → Matches p t s m
  Matches-take s n m le h c less = h c (omega arith)

  -- A border of what stands at a place of the text stands at the end of it.
  pub Matches-border :
      (s e d i v : ℕ)
      → e + v ≡ i
      → d + v ≡ s + i
      → Matches p p e v
      → Matches p t s i
      → Matches p t d v
  Matches-border s e d i v ei di border whole c less =
      let at : s + (e + c) ≡ d + c = omega arith in
      border c less ∙ whole (e + c) (omega arith) ∙ ap t at

  -- Of two prefixes that end at the same place the shorter is a border of the longer.
  pub border-Matches :
      (s d i b e : ℕ)
      → e + b ≡ i
      → d + b ≡ s + i
      → Matches p t s i
      → Matches p t d b
      → Matches p p e b
  border-Matches s d i b e ei di whole short c less =
      let at : d + c ≡ s + (e + c) = omega arith in
      short c less ∙ ap t at ∙ sym (whole (e + c) (omega arith))
