-- ===== src/LogMng/Entries.antt =====
-- Reading a log file: the entries that its header counts, from behind the header on.
use embedded_linux_iot_gatew.Prelude.{
  ℕ, zero, suc, ◌+◌, ◌*◌, ◌%◌, ◌^◌, ◌≤◌, ◌<◌, ◌≡◌, refl, sym, ap, ap₂, ◌∙◌, Option, none, some,
  List, [], ◌∷◌, ◌++◌, arith, length,
}
use embedded_linux_iot_gatew.LogMng.{
  Layout, LogFile, LogHeadInfo, LogItem, LogWriteParam, write_head, write_item, next_head,
}

module _ (size : ℕ) where
  -- `n` places of entries, the first one at `off`.
  unfoldable pub slots : (ℕ → Option LogItem) → ℕ → ℕ → List (Option LogItem)
  slots at off zero = []
  slots at off (suc n) = at off ∷ slots at (off + size) n

  pub length-slots : (at : ℕ → Option LogItem) (off n : ℕ) → length (slots at off n) ≡ n
  unfolding slots
  length-slots at off zero = refl
  length-slots at off (suc n) = ap suc (length-slots at (off + size) n)

  pub slots-suc :
      (at : ℕ → Option LogItem) (off n : ℕ)
      → slots at off (suc n) ≡ slots at off n ++ (at (off + n * size) ∷ [])
  unfolding slots
  slots-suc at off zero = ap (λ o. at o ∷ []) (omega arith)
  slots-suc at off (suc n) =
      ap (λ t. at off ∷ t)
        (slots-suc at (off + size) n
          ∙ ap (λ o. slots at (off + size) n ++ (at o ∷ [])) (grind arith))

  pub slots-same :
      (at at' : ℕ → Option LogItem) (off n : ℕ)
      → ((o : ℕ) → off ≤ o → o + size ≤ off + n * size → at' o ≡ at o)
      → slots at' off n ≡ slots at off n
  unfolding slots
  slots-same at at' off zero same = refl
  slots-same at at' off (suc n) same =
      ap₂ ◌∷◌ (same off (omega arith) (grind arith))
        (slots-same at at' (off + size) n (λ o h k. same o (omega arith) (grind arith)))

module _ (lay : Layout) where
  open lay use {head_size, item_size}

  abbrev pub head_entries : LogFile → Option LogHeadInfo → List (Option LogItem)
  head_entries f none = []
  head_entries f (some h) = slots item_size f.item_at head_size h.log_item_num

  unfoldable pub entries : Option LogFile → List (Option LogItem)
  entries none = []
  entries (some f) = head_entries f f.head

  -- The header stands where the next entry goes.
  pub record InPlace (h : LogHeadInfo) : Type 0 where
    pub few : h.log_item_num ≤ 10
    pub place : h.file_write_seq ≡ head_size + h.log_item_num * item_size

  -- The file once an entry has been written behind the others, and the header.
  abbrev pub with_entry : LogFile → LogWriteParam → LogHeadInfo → LogItem → LogFile
  with_entry f p h item =
      write_head lay (write_item lay f h.file_write_seq (some item)) (some (next_head lay p h))

  pub entries-with_entry :
      (f : LogFile) (p : LogWriteParam) (h : LogHeadInfo) (item : LogItem)
      → f.head ≡ some h
      → InPlace h
      → h.log_item_num < 10
      → entries (some (with_entry f p h item)) ≡ entries (some f) ++ (some item ∷ [])
  unfolding entries write_head write_item
  entries-with_entry f p h item e i few =
      ap (slots item_size at' head_size) count
      ∙ slots-suc item_size at' head_size h.log_item_num
      ∙ ap₂ ◌++◌ (slots-same item_size f.item_at at' head_size h.log_item_num same)
          (ap (λ o. o ∷ []) here)
      ∙ ap (λ o. head_entries f o ++ (some item ∷ [])) (sym e)
    where
      at' : ℕ → Option LogItem
      at' = (with_entry f p h item).item_at

      count : (h.log_item_num + 1) % 2 ^ 8 ≡ suc h.log_item_num
      count = omega arith

      same :
          (o : ℕ)
          → head_size ≤ o
          → o + item_size ≤ head_size + h.log_item_num * item_size
          → at' o ≡ f.item_at o
      same o low high = ground (arith, i.place, lay.item_pos)

      here : at' (head_size + h.log_item_num * item_size) ≡ some item
      here = ground (arith, i.place)

  pub next_head-InPlace :
      (p : LogWriteParam) (h : LogHeadInfo)
      → InPlace h
      → h.log_item_num < 10
      → InPlace (next_head lay p h) × ((next_head lay p h).log_item_num ≡ h.log_item_num + 1)
  next_head-InPlace p h i few =
      let count : (h.log_item_num + 1) % 2 ^ 8 ≡ h.log_item_num + 1 = omega arith in
      let room : (h.log_item_num + 1) * item_size ≤ 10 * item_size = grind arith in
      (
        record { few = omega arith; place = rw count (omega (arith, lay.fits, i.place, room)) },
        count,
      )
