-- ===== src/HashTable.antt =====
-- frameWork/hash/hashTable.c and frameWork/hash/hash.h: a table of ten buckets, each a chain of
-- entries. A bucket whose first key is NULL is an empty chain. A read through NULL, a write behind
-- an allocated block and an overflow of an int are `none`. A char has no sign on the target.
pub mod Find
pub mod Insert
pub mod Clear
mod Tests
use embedded_linux_iot_gatew.Prelude.{
  ℕ, zero, suc, ◌+◌, ◌*◌, ◌%◌, ◌^◌, Bool, true, false, ◌&&◌, Option, none, some, List, [], ◌∷◌,
  length, map, ltb, leb, ◌==◌, if◌then◌else◌, ◌>>=◌, Text, text_eq,
}

abbrev pub bucket_count : ℕ
bucket_count = 10

-- `struct Node`, with the size of the block that `value` points to.
pub record Entry : Type 0 where
  pub key : Text
  pub value : Text
  pub room : ℕ

abbrev pub Chain : Type 0
Chain = List Entry

abbrev pub Table : Type 0
Table = ℕ → Chain

abbrev pub init_hash_table : Table
init_hash_table _ = []

unfoldable pub hash_from : ℕ → Text → Option ℕ
hash_from h [] = some h
hash_from h (c ∷ cs) = elim (ltb (h * 33 + c) (2 ^ 31)) [
  | true ↦ hash_from (h * 33 + c) cs
  | false ↦ none
]

unfoldable pub hash : Text → Option ℕ
unfolding hash_from
hash key = hash_from 0 key >>= λ h. some (h % bucket_count)

-- strdup
abbrev pub new_entry : Text → Text → Entry
new_entry key value = record { key = key; value = value; room = length value + 1 }

-- The value of a key is replaced; sizeof(vlen1 + 1) is the size of an int.
unfoldable pub put_value : Entry → Text → Option Entry
put_value e value =
    let room = if ltb (length e.value) (length value) then 4 else e.room in
    if leb (length value + 1) room then some (record e { value = value; room = room }) else none

-- The loop over a chain; without memory for one more entry nothing is added.
unfoldable pub put_chain : (memory_ok : Bool) → Chain → Text → Text → Option Chain
unfolding text_eq put_value
put_chain memory_ok [] key value = some (if memory_ok then new_entry key value ∷ [] else [])
put_chain memory_ok (e ∷ es) key value =
    let rest = put_chain memory_ok es key value in
    if text_eq e.key key
    then (put_value e value >>= λ e'. some (e' ∷ es))
    else (rest >>= λ es'. some (e ∷ es'))

unfoldable pub set_bucket : Table → ℕ → Chain → Table
set_bucket t i c j = if j == i then c else t j

-- An empty bucket takes the entry itself, and else the chain is searched.
unfoldable pub put_bucket : (memory_ok : Bool) → Chain → Text → Text → Option Chain
unfolding put_chain
put_bucket memory_ok [] key value = some (new_entry key value ∷ [])
put_bucket memory_ok (e ∷ es) key value = put_chain memory_ok (e ∷ es) key value

-- The result is the table and the returned index; `none` in place of the index is -1.
unfoldable pub hash_insert_node :
    (memory_ok : Bool) → Table → Option Text → Option Text → Option (Table × Option ℕ)
unfolding hash put_bucket set_bucket
hash_insert_node memory_ok t none value = some (t, none)
hash_insert_node memory_ok t (some key) none = some (t, none)
hash_insert_node memory_ok t (some key) (some value) =
    hash key >>= λ i. put_bucket memory_ok (t i) key value >>= λ c. some (set_bucket t i c, some i)

-- The loop of `hashFind` and `hashCount`.
unfoldable pub find_chain : Chain → Text → Option Text
unfolding text_eq
find_chain [] key = none
find_chain (e ∷ es) key =
    let rest = find_chain es key in if text_eq key e.key then some e.value else rest

-- The first key of the bucket is read whatever it is.
unfoldable pub find_bucket : Chain → Text → Option (Option Text)
unfolding find_chain
find_bucket [] key = none
find_bucket (e ∷ es) key = some (find_chain (e ∷ es) key)

unfoldable pub hash_find : Table → Option Text → Option (Option Text)
unfolding hash find_bucket
hash_find t none = some none
hash_find t (some key) = hash key >>= λ i. find_bucket (t i) key

abbrev pub found : Option Text → ℕ
found none = 0
found (some _) = 1

-- The result `none` inside is -1.
unfoldable pub hash_count : Table → Option Text → Option (Option ℕ)
unfolding hash find_bucket
hash_count t none = some none
hash_count t (some key) = hash key >>= λ i. find_bucket (t i) key >>= λ r. some (some (found r))

-- memset over the key, twice, which leaves an empty text.
abbrev pub clear_key : Entry → Entry
clear_key e = record e { key = [] }

unfoldable pub clear_bucket : Chain → Option Chain
clear_bucket [] = none
clear_bucket (e ∷ es) = some (record e { key = []; value = [] } ∷ map clear_key es)

-- The loop from a bucket on, over so many.
unfoldable pub clear_from : ℕ → ℕ → Table → Option Table
unfolding clear_bucket set_bucket
clear_from i zero t = some t
clear_from i (suc n) t = clear_bucket (t i) >>= λ c. clear_from (i + 1) n (set_bucket t i c)

-- `hashClear`, which starts at bucket 1.
unfoldable pub hash_clear : Table → Option Table
unfolding clear_from
hash_clear t = clear_from 1 9 t
