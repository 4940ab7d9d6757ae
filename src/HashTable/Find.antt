-- ===== src/HashTable/Find.antt =====
-- The table as a map from keys to values, and what `hashFind` and `hashCount` say of it.
use embedded_linux_iot_gatew.Prelude.{
  ℕ, ◌≡◌, refl, Bool, true, false, Bool-cases, inl, inr, Option, none, some, List, [], ◌∷◌,
  if◌then◌else◌, ◌>>=◌, Text, text_eq, ap,
}
use embedded_linux_iot_gatew.HashTable.{
  Chain, Table, hash, find_chain, find_bucket, hash_find, hash_count, found,
}

-- The values that a chain has for a key.
unfoldable pub values : Text → Chain → List Text
values key [] = []
values key (e ∷ es) = if text_eq key e.key then e.value ∷ values key es else values key es

abbrev pub first : List Text → Option Text
first [] = none
first (v ∷ vs) = some v

-- The table as a map: of the values that the chain has for the key the first, `none` if there is
-- none or if the key has no hash.
unfoldable pub lookup : Table → Text → Option Text
lookup t key = hash key >>= λ i. first (values key (t i))

find_chain_lem : (c : Chain) (key : Text) → find_chain c key ≡ first (values key c)
unfolding find_chain values
find_chain_lem [] key = refl
find_chain_lem (e ∷ es) key = elim (Bool-cases (text_eq key e.key)) [
  | inl here ↦ rw here refl
  | inr later ↦ rw later (find_chain_lem es key)
]

abbrev pub is_empty {ℓ} : {A : Type ℓ} → List A → Bool
is_empty [] = true
is_empty (_ ∷ _) = false

find_bucket_lem :
    (c : Chain) (key : Text)
    → find_bucket c key ≡ (if is_empty c then none else some (first (values key c)))
unfolding find_bucket
find_bucket_lem [] key = refl
find_bucket_lem (e ∷ es) key = ap some (find_chain_lem (e ∷ es) key)

-- For a key with the hash `i`: `hashFind` returns the value of the key in the map, or NULL, and
-- `hashCount` returns 1 or 0 to match, unless the bucket `i` is empty: then both read through NULL.
pub hash_find-lookup :
    (t : Table) (key : Text) (i : ℕ)
    → hash key ≡ some i
    → (hash_find t (some key) ≡ (if is_empty (t i) then none else some (lookup t key)))
      × (hash_count t (some key)
          ≡ (if is_empty (t i) then none else some (some (found (lookup t key)))))
unfolding hash_find hash_count lookup
hash_find-lookup t key i h =
    rw (h, find_bucket_lem (t i) key)
      (refl, elim (Bool-cases (is_empty (t i))) [ inl e ↦ rw e | inr e ↦ rw e ])
