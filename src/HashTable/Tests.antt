-- ===== src/HashTable/Tests.antt =====
-- A table, and the theorems at an input.
use embedded_linux_iot_gatew.Prelude.{
  ◌≡◌, refl, true, none, some, [], ◌∷◌, if◌then◌else◌, Text, text_eq, arith,
}
use embedded_linux_iot_gatew.HashTable.{
  Table, new_entry, hash, hash_from, find_chain, find_bucket, init_hash_table, hash_insert_node,
  hash_find, hash_count, found,
}
use embedded_linux_iot_gatew.HashTable.Find.{values, lookup, hash_find-lookup}
use embedded_linux_iot_gatew.HashTable.Insert.{
  IsSized, fits, hash_insert_node-lookup, hash_insert_node_overflows,
}

abbrev key : Text
key = (b'd' ∷ [])

-- The hash of "d" is 0, and every bucket holds its value.
abbrev sample : Table
sample _ = new_entry key (b'n' ∷ b'e' ∷ b't' ∷ []) ∷ []

hash_key : hash key ≡ some 0
unfolding hash hash_from
hash_key = refl

sample-IsSized : IsSized sample
sample-IsSized i = (omega arith, tt)

sample-lookup : lookup sample key ≡ some (b'n' ∷ b'e' ∷ b't' ∷ [])
unfolding lookup hash hash_from values find_chain text_eq
sample-lookup = refl

-- An empty table is not searched but read through NULL.
find_in_empty : hash_find init_hash_table (some key) ≡ none
unfolding hash_find hash hash_from find_bucket
find_in_empty = refl

hash_find-lookup_example :
    (hash_find sample (some key) ≡ some (lookup sample key))
    × (hash_count sample (some key) ≡ some (some (found (lookup sample key))))
hash_find-lookup_example = hash_find-lookup sample key 0 hash_key

hash_insert_node-lookup_example :
    (t' : Table) × (hash_insert_node true sample (some key) (some (b'f' ∷ b'o' ∷ b'x' ∷ []))
      ≡ some (t', some 0))
    × IsSized t'
    × ((k : Text)
        → lookup t' k ≡ (if text_eq key k then some (b'f' ∷ b'o' ∷ b'x' ∷ []) else lookup sample k))
unfolding fits
hash_insert_node-lookup_example =
    hash_insert_node-lookup key (b'f' ∷ b'o' ∷ b'x' ∷ []) sample 0 hash_key sample-IsSized
      (rw sample-lookup refl)

hash_insert_node_overflows_example :
    hash_insert_node true sample (some key) (some (b'd' ∷ b'o' ∷ b'g' ∷ b'e' ∷ [])) ≡ none
unfolding fits
hash_insert_node_overflows_example =
    hash_insert_node_overflows key (b'd' ∷ b'o' ∷ b'g' ∷ b'e' ∷ []) sample 0 hash_key
      (rw sample-lookup refl)
