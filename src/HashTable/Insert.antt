-- ===== src/HashTable/Insert.antt =====
-- What `hashInsertNode` does to the map, and when it writes behind a block.
use embedded_linux_iot_gatew.Prelude.{
  ℕ, ◌+◌, ◌≤◌, ◌≡◌, refl, sym, ap, ◌∙◌, Bool, true, false, ◌||◌, Bool-cases, inl, inr, Option, none,
  some, [], ◌∷◌, length, ltb, leb, ◌==◌, if◌then◌else◌, Text, text_eq, text_eq_iff, text_eq_sym,
  arith, Option-cases,
}
use embedded_linux_iot_gatew.HashTable.{
  Entry, Chain, Table, new_entry, hash, put_value, put_chain, put_bucket, set_bucket,
  hash_insert_node,
}
use embedded_linux_iot_gatew.HashTable.Find.{lookup, first, values}

-- Every value fits its block.
abbrev pub IsSizedChain : Chain → Type 0
IsSizedChain [] = Unit
IsSizedChain (e ∷ es) = (length e.value + 1 ≤ e.room) × IsSizedChain es

abbrev pub IsSized : Table → Type 0
IsSized t = (i : ℕ) → IsSizedChain (t i)

-- The new value is no longer than the old one, or fits into four bytes.
unfoldable pub fits : Option Text → Text → Bool
fits none value = true
fits (some old) value = leb (length value) (length old) || leb (length value) 3

-- The chain holds the value for the key, and for other keys what it held.
abbrev Holds : Chain → Text → Text → Chain → Type 0
Holds c key value c' =
    IsSizedChain c'
    × ((k : Text)
        → first (values k c') ≡ (if text_eq key k then some value else first (values k c)))

put_value-fits :
    (e : Entry) (value : Text)
    → length e.value + 1 ≤ e.room
    → fits (some e.value) value ≡ true
    → (room : ℕ) × (put_value e value ≡ some (record e { value = value; room = room }))
      × (length value + 1 ≤ room)
unfolding put_value fits
put_value-fits e value sized ok =
    let room : ℕ = if ltb (length e.value) (length value) then 4 else e.room in
    let enough : length value + 1 ≤ room = ground arith in
    let test : leb (length value + 1) room ≡ true = ground arith in (room, rw test, enough)

put_value-overflow :
    (e : Entry) (value : Text) → fits (some e.value) value ≡ false → put_value e value ≡ none
unfolding put_value fits
put_value-overflow e value bad = ground arith

module _ (key value : Text) where
  put_chain-Holds :
      (c : Chain)
      → IsSizedChain c
      → fits (first (values key c)) value ≡ true
      → (c' : Chain) × (put_chain true c key value ≡ some c') × Holds c key value c'
  unfolding put_chain values
  put_chain-Holds [] sized ok = (
    new_entry key value ∷ [],
    refl,
    (
      (omega arith, tt),
      λ k.
          ap (λ b. first (if b then value ∷ [] else [])) (text_eq_sym k key)
          ∙ elim (Bool-cases (text_eq key k)) [ inl b ↦ rw b refl | inr b ↦ rw b refl ],
    ),
  )
  put_chain-Holds (e ∷ es) sized ok = elim (Bool-cases (text_eq e.key key)) [
    | inl same ↦
        let mirror : text_eq key e.key ≡ true = text_eq_sym key e.key ∙ same in
        let (room, put, enough) = put_value-fits e value sized.0 (rw mirror at ok) in
        (
          record e { value = value; room = room } ∷ es,
          rw (same, put),
          (
            (enough, sized.1),
            λ k.
                let equal : text_eq k e.key ≡ text_eq key k =
                  ap (text_eq k) ((text_eq_iff e.key key).0 same) ∙ text_eq_sym k key in
                rw equal (elim (Bool-cases (text_eq key k)) [ inl b ↦ rw b | inr b ↦ rw b ]),
          ),
        )
    | inr other ↦
        let mirror : text_eq key e.key ≡ false = text_eq_sym key e.key ∙ other in
        let (c', put, (sized', holds)) = put_chain-Holds es sized.1 (rw mirror at ok) in
        (
          e ∷ c',
          rw (other, put),
          (
            (sized.0, sized'),
            λ k. elim (Bool-cases (text_eq k e.key)) [
              | inl here ↦
                  let apart : text_eq key k ≡ false =
                    ap (text_eq key) ((text_eq_iff k e.key).0 here) ∙ mirror in
                  rw (here, apart)
              | inr later ↦ rw later (holds k)
            ],
          ),
        )
  ]

  put_chain-overflow :
      (c : Chain) → fits (first (values key c)) value ≡ false → put_chain true c key value ≡ none
  unfolding put_chain values fits
  put_chain-overflow [] bad = cc
  put_chain-overflow (e ∷ es) bad = elim (Bool-cases (text_eq e.key key)) [
    | inl same ↦
        let mirror : text_eq key e.key ≡ true = text_eq_sym key e.key ∙ same in
        rw (same, put_value-overflow e value (rw mirror at bad))
    | inr other ↦
        let mirror : text_eq key e.key ≡ false = text_eq_sym key e.key ∙ other in
        rw (other, put_chain-overflow es (rw mirror at bad))
  ]

  put_bucket_lem : (c : Chain) → put_bucket true c key value ≡ put_chain true c key value
  unfolding put_bucket put_chain
  put_bucket_lem [] = refl
  put_bucket_lem (e ∷ es) = refl

  set_bucket-IsSized :
      (t : Table) (i : ℕ) (c : Chain) → IsSized t → IsSizedChain c → IsSized (set_bucket t i c)
  unfolding set_bucket
  set_bucket-IsSized t i c sized one j = elim (Bool-cases (j == i)) [
    | inl here ↦ rw here one
    | inr other ↦ rw other (sized j)
  ]

  -- Keys with different hashes differ.
  other_hash :
      (k : Text) (i : ℕ) (o : Option ℕ)
      → hash key ≡ some i
      → hash k ≡ o
      → (o ≡ some i → ⊥)
      → text_eq key k ≡ false
  other_hash k i o h hk differs = elim (Bool-cases (text_eq key k)) [
    | inl same ↦ absurd (differs (sym hk ∙ ap hash (sym ((text_eq_iff key k).0 same)) ∙ h))
    | inr other ↦ other
  ]

  -- In a table in which every value fits its block, with memory at hand, a key with a hash and a
  -- value that is new, no longer than the key's old value, or at most three characters long:
  -- `hashInsertNode` returns the hash, every value still fits, and the key has the value while all
  -- other keys have what they had.
  pub hash_insert_node-lookup :
      (t : Table) (i : ℕ)
      → hash key ≡ some i
      → IsSized t
      → fits (lookup t key) value ≡ true
      → (t' : Table) × (hash_insert_node true t (some key) (some value) ≡ some (t', some i))
        × IsSized t'
        × ((k : Text) → lookup t' k ≡ (if text_eq key k then some value else lookup t k))
  unfolding hash_insert_node lookup set_bucket
  hash_insert_node-lookup t i h sized ok =
      let (c, put, (sized', holds)) = put_chain-Holds (t i) (sized i) (rw h at ok) in
      (
        set_bucket t i c,
        rw (h, put_bucket_lem (t i), put),
        set_bucket-IsSized t i c sized sized',
        λ k. elim (Option-cases (hash k)) [
          | inl no_hash ↦
              let apart : text_eq key k ≡ false = other_hash k i none h no_hash (λ e. cc e) in
              rw (no_hash, apart)
          | inr (j, hk) ↦ elim (Bool-cases (j == i)) [
            | inl here ↦
                let same : j ≡ i = ground arith in
                rw (hk, here)
                  (holds k
                    ∙ ap (λ n. if text_eq key k then some value else first (values k (t n)))
                        (sym same))
            | inr away ↦
                let apart : text_eq key k ≡ false =
                  other_hash k i (some j) h hk (λ e. ground arith) in
                rw (hk, away, apart)
          ]
        ],
      )

  -- A value that is longer than the key's old one, and than three characters, makes `hashInsertNode`
  -- write behind a block of four bytes.
  pub hash_insert_node_overflows :
      (t : Table) (i : ℕ)
      → hash key ≡ some i
      → fits (lookup t key) value ≡ false
      → hash_insert_node true t (some key) (some value) ≡ none
  unfolding hash_insert_node lookup
  hash_insert_node_overflows t i h bad =
      rw (h, put_bucket_lem (t i), put_chain-overflow (t i) (rw h at bad))
