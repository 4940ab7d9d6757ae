-- ===== src/LogMng/Journal.antt =====
-- What the log manager keeps, without its disk: a sequence of files of entries, oldest first. An
-- entry goes to the last file; when that is full or there is none, a new file is begun, and the
-- oldest file goes if there are twenty.
use embedded_linux_iot_gatew.Prelude.{
  text_eq_iff, text_eq_refl, text_eq, ◌≡◌, refl, ap₂, Bool, true, false, ◌||◌, Option, none, some,
  List, [], ◌∷◌, ◌++◌, map, arith, length, leb, if◌then◌else◌,
}
use embedded_linux_iot_gatew.LogMng.{FileName}

abbrev pub last {ℓ} : {A : Type ℓ} → List A → Option A
last [] = none
last (x ∷ []) = some x
last (x ∷ y ∷ xs) = last (y ∷ xs)

abbrev pub tail {ℓ} : {A : Type ℓ} → List A → List A
tail [] = []
tail (x ∷ xs) = xs

module _ {ℓ} {A : Type ℓ} where
  -- There is no file, or the last one holds ten entries.
  unfoldable pub is_full : List (List A) → Bool
  is_full [] = true
  is_full (f ∷ []) = leb 10 (length f)
  is_full (f ∷ g ∷ js) = is_full (g ∷ js)

  unfoldable pub add_last : A → List (List A) → List (List A)
  add_last x [] = []
  add_last x (f ∷ []) = (f ++ (x ∷ [])) ∷ []
  add_last x (f ∷ g ∷ js) = f ∷ add_last x (g ∷ js)

  unfoldable pub limit : List (List A) → List (List A)
  limit js = if leb 20 (length js) then tail js else js

  unfoldable pub append : A → List (List A) → List (List A)
  unfolding is_full add_last limit
  append x js = if is_full js then limit js ++ ((x ∷ []) ∷ []) else add_last x js

-- Names in a list.
abbrev pub has : FileName → List FileName → Bool
has n [] = false
has n (k ∷ ks) = text_eq n k || has n ks

abbrev pub Distinct : List FileName → Type 0
Distinct [] = Unit
Distinct (k ∷ ks) = (has k ks ≡ false) × Distinct ks

pub has-last : (n : FileName) (ks : List FileName) → last ks ≡ some n → has n ks ≡ true
has-last n [] l = cc
has-last n (k ∷ []) l = ground (arith, text_eq_refl n)
has-last n (k ∷ j ∷ ks) l = ground (arith, has-last n (j ∷ ks))

module _ {ℓ} {A : Type ℓ} (e e' : FileName → List A) (n : FileName)
    (same : (k : FileName) → text_eq n k ≡ false → e' k ≡ e k) where
  -- What stands under other names does not change.
  pub map-same : (ks : List FileName) → has n ks ≡ false → map e' ks ≡ map e ks
  map-same [] h = refl
  map-same (k ∷ ks) h = ground (arith, same k, map-same ks)

  -- The last file gains an entry.
  pub map-add_last :
      (x : A) (ks : List FileName)
      → last ks ≡ some n
      → Distinct ks
      → e' n ≡ e n ++ (x ∷ [])
      → map e' ks ≡ add_last x (map e ks)
  unfolding add_last
  map-add_last x [] l d gains = cc
  map-add_last x (k ∷ []) l d gains = cc
  map-add_last x (k ∷ j ∷ ks) l d gains =
      let other : text_eq n k ≡ false =
        ground (arith, has-last n (j ∷ ks) l, (text_eq_iff n k).0) in
      ap₂ ◌∷◌ (same k other) (map-add_last x (j ∷ ks) l d.1 gains)

pub is_full_lem {ℓ} :
    {A : Type ℓ} (e : FileName → List A) (n : FileName) (ks : List FileName)
    → last ks ≡ some n
    → is_full (map e ks) ≡ leb 10 (length (e n))
unfolding is_full
is_full_lem e n [] l = cc
is_full_lem e n (k ∷ []) l = ground arith
is_full_lem e n (k ∷ j ∷ ks) l = is_full_lem e n (j ∷ ks) l

pub last-append : (ks : List FileName) (n : FileName) → last (ks ++ (n ∷ [])) ≡ some n
last-append [] n = refl
last-append (k ∷ []) n = refl
last-append (k ∷ j ∷ ks) n = last-append (j ∷ ks) n

pub has-append :
    (m : FileName) (ks : List FileName) (n : FileName)
    → has m (ks ++ (n ∷ [])) ≡ (has m ks || text_eq m n)
has-append m [] n = ground arith
has-append m (k ∷ ks) n = ground (arith, has-append m ks n)

pub Distinct-append :
    (ks : List FileName) (n : FileName) → Distinct ks → has n ks ≡ false → Distinct (ks ++ (n ∷ []))
Distinct-append [] n d h = (refl, tt)
Distinct-append (k ∷ ks) n d h =
    let other : text_eq k n ≡ false = ground (arith, (text_eq_iff k n).0, (text_eq_iff n k).1) in
    (ground (arith, has-append k ks n), Distinct-append ks n d.1 (ground arith))
