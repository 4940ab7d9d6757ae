-- ===== src/HashTable/Clear.antt =====
-- What `hashClear` leaves in the table.
use embedded_linux_iot_gatew.Prelude.{
  unsome, ℕ, zero, suc, ◌+◌, ◌%◌, ◌≤◌, ◌<◌, ◌≡◌, refl, sym, ap, ◌∙◌, false, Bool-cases, inl, inr,
  none, some, [], ◌∷◌, map, ◌==◌, if◌then◌else◌, ◌>>=◌, Text, text_eq, arith, Option-cases,
}
use embedded_linux_iot_gatew.HashTable.{
  Chain, Table, hash, hash_from, set_bucket, clear_key, clear_bucket, clear_from, hash_clear,
  find_chain, find_bucket, hash_find,
}
use embedded_linux_iot_gatew.HashTable.Find.{is_empty}

-- The other buckets are as they were, and those in the range are cleared.
record IsCleared (i n : ℕ) (t t' : Table) : Type 0 where
  cleared : (j : ℕ) → i ≤ j → j < i + n → clear_bucket (t j) ≡ some (t' j)
  kept : (j : ℕ) → j < i → t' j ≡ t j

clear_bucket-some : (c : Chain) → is_empty c ≡ false → (c' : Chain) × (clear_bucket c ≡ some c')
unfolding clear_bucket
clear_bucket-some [] h = cc
clear_bucket-some (e ∷ es) h = (_, refl)

other_bucket : (t : Table) (i : ℕ) (c : Chain) (j : ℕ) → (j ≡ i → ⊥) → set_bucket t i c j ≡ t j
unfolding set_bucket
other_bucket t i c j h = ground arith

same_bucket : (t : Table) (i : ℕ) (c : Chain) → set_bucket t i c i ≡ c
unfolding set_bucket
same_bucket t i c = ground arith

clear_from-IsCleared :
    (i n : ℕ) (t : Table)
    → ((j : ℕ) → i ≤ j → j < i + n → is_empty (t j) ≡ false)
    → (t' : Table) × (clear_from i n t ≡ some t') × IsCleared i n t t'
unfolding clear_from
clear_from-IsCleared i zero t full =
    (t, refl, record { cleared = λ j low high. absurd (omega arith); kept = λ j h. refl })
clear_from-IsCleared i (suc n) t full =
    let (c, e) = clear_bucket-some (t i) (full i (omega arith) (omega arith)) in
    let next : Table = set_bucket t i c in
    let away = λ (j : ℕ) (h : i + 1 ≤ j). other_bucket t i c j (omega arith) in
    let (t', run, r) =
      clear_from-IsCleared (i + 1) n next
        (λ j low high. ap is_empty (away j low) ∙ full j (omega arith) (omega arith)) in
    (
      t',
      rw e run,
      record {
        cleared = λ j low high. elim (Bool-cases (j == i)) [
          | inl here ↦
              let same : j ≡ i = ground arith in
              ap (λ k. clear_bucket (t k)) same
              ∙ e
              ∙ ap some (sym (same_bucket t i c) ∙ sym (r.kept i (omega arith)))
              ∙ ap (λ k. some (t' k)) (sym same)
          | inr other ↦
              let above : i + 1 ≤ j = ground arith in
              ap clear_bucket (sym (away j above)) ∙ r.cleared j above (omega arith)
        ];
        kept = λ j h. r.kept j (omega arith) ∙ other_bucket t i c j (omega arith);
      },
    )

find_chain-cleared :
    (es : Chain) (c : ℕ) (cs : Text) → find_chain (map clear_key es) (c ∷ cs) ≡ none
unfolding find_chain text_eq
find_chain-cleared [] c cs = refl
find_chain-cleared (e ∷ es) c cs = find_chain-cleared es c cs

find_bucket-cleared :
    (b b' : Chain) (c : ℕ) (cs : Text)
    → clear_bucket b ≡ some b'
    → find_bucket b' (c ∷ cs) ≡ some none
unfolding clear_bucket find_bucket find_chain text_eq
find_bucket-cleared [] b' c cs h = cc
find_bucket-cleared (e ∷ es) [] c cs h = cc
find_bucket-cleared (e ∷ es) (d ∷ ds) c cs h =
    ap (λ b. some (find_chain b (c ∷ cs))) (sym (unsome h)) ∙ ap some (find_chain-cleared es c cs)

hash-small : (key : Text) (i : ℕ) → hash key ≡ some i → i < 10
unfolding hash
hash-small key i h = elim (Option-cases (hash_from 0 key)) [
  | inl e ↦ cc (sym (ap (λ o. o >>= λ n. some (n % 10)) e) ∙ h)
  | inr (n, e) ↦
      let small : n % 10 ≡ i = unsome (sym (ap (λ o. o >>= λ n. some (n % 10)) e) ∙ h) in
      omega (arith, small)
]

-- When no bucket from 1 on is empty, `hashClear` succeeds, and afterwards `hashFind` with a key that
-- is not empty and has a hash finds no value, except for a key with the hash 0, for which it returns
-- what it did before.
pub hash_clear-find :
    (t : Table) (c : ℕ) (cs : Text) (i : ℕ)
    → ((j : ℕ) → 1 ≤ j → j < 10 → is_empty (t j) ≡ false)
    → hash (c ∷ cs) ≡ some i
    → (t' : Table) × (hash_clear t ≡ some t')
      × (hash_find t' (some (c ∷ cs)) ≡ (if i == 0 then hash_find t (some (c ∷ cs)) else some none))
unfolding hash_clear hash_find
hash_clear-find t c cs i full h =
    let (t', run, r) = clear_from-IsCleared 1 9 t full in
    (
      t',
      run,
      elim (Bool-cases (i == 0)) [
        | inl first ↦
            let at_zero : i ≡ 0 = ground arith in
            rw (h, first) (ap (λ b. find_bucket b (c ∷ cs)) (r.kept i (omega arith)))
        | inr later ↦
            let above : 1 ≤ i = ground arith in
            rw (h, later)
              (find_bucket-cleared (t i) (t' i) c cs (r.cleared i above (hash-small (c ∷ cs) i h)))
      ],
    )
