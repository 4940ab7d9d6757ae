-- ===== src/LogMng/Errors.antt =====
-- What a failing call leaves behind.
use embedded_linux_iot_gatew.Prelude.{
  text_eq_iff, text_eq, ℕ, ◌<◌, ◌≡◌, refl, sym, ap, fun_ext, ◌∙◌, inl, inr, false, Option, some,
  List, arith, map, Bool-cases, ◌==◌, ◌&&◌,
}
use embedded_linux_iot_gatew.LogMng.{
  FileName, Layout, LogFile, LogHeadInfo, LogItem, LogWriteParam, World, Answers, failure, Ret,
  put_item, put_head, needs_new_file, current_file, write_opened, write_log, make_item, write_item,
  change,
}
use embedded_linux_iot_gatew.LogMng.Journal.{last}
use embedded_linux_iot_gatew.LogMng.Entries.{entries, head_entries, InPlace, slots-same}
use embedded_linux_iot_gatew.LogMng.Write.{change_self, change_other}
use embedded_linux_iot_gatew.LogMng.Refine.{open_last}
use embedded_linux_iot_gatew.LogMng.Consistent.{journal, IsConsistent}

module _ (lay : Layout) where
  head-write_item :
      (f : LogFile) (h : LogHeadInfo) (x : Option LogItem)
      → InPlace lay h
      → (write_item lay f h.file_write_seq x).head ≡ f.head
  unfolding write_item
  head-write_item f h x i = ground (arith, i.place)

  -- Whatever stands in the next place is not an entry of the file.
  entries-write_item :
      (f : LogFile) (h : LogHeadInfo) (x : Option LogItem)
      → f.head ≡ some h
      → InPlace lay h
      → entries lay (some (write_item lay f h.file_write_seq x)) ≡ entries lay (some f)
  unfolding entries write_item
  entries-write_item f h x e i =
      ap (head_entries lay (write_item lay f h.file_write_seq x)) (head-write_item f h x i ∙ e)
      ∙ slots-same lay.item_size f.item_at _ lay.head_size h.log_item_num
          (λ o low high. ground (arith, i.place, lay.item_pos))
      ∙ ap (head_entries lay f) (sym e)

  -- The world with other bytes in the next place of the last file.
  module _ (w : World) (n : FileName) (x : Option LogItem) (c : IsConsistent lay w)
      (is_last : last w.mng.files ≡ some n) where
    abbrev torn : World
    torn = record w {
      disk = change w.disk n (λ f. write_item lay f w.mng.log_head.file_write_seq x);
    }

    torn-IsConsistent : IsConsistent lay torn
    torn-IsConsistent = record {
      listed = c.listed;
      current = λ k is_k.
          let cur = c.current n is_last in
          let same : k ≡ n = cc (is_k, is_last) in
          record {
            opened = ground (arith, cur.opened);
            file = write_item lay cur.file w.mng.log_head.file_write_seq x;
            on_disk = ap torn.disk same ∙ change_self w.disk n _ cur.file cur.on_disk;
            head_eq = head-write_item cur.file w.mng.log_head x cur.in_place ∙ cur.head_eq;
            in_place = cur.in_place;
          };
    }

    torn-journal : journal lay torn ≡ journal lay w
    torn-journal =
        ap (λ e. map e w.mng.files)
          (fun_ext λ k. elim (Bool-cases (text_eq n k)) [
            | inl hit ↦
                let cur = c.current n is_last in
                let same : n ≡ k = (text_eq_iff n k).0 hit in
                ap (λ m. entries lay (torn.disk m)) (sym same)
                ∙ ap (entries lay) (change_self w.disk n _ cur.file cur.on_disk)
                ∙ entries-write_item cur.file w.mng.log_head x cur.head_eq cur.in_place
                ∙ ap (entries lay) (sym cur.on_disk)
                ∙ ap (λ m. entries lay (w.disk m)) same
            | inr miss ↦ ap (entries lay) (change_other w.disk n _ k miss)
          ])

  -- The outcome that the theorem below speaks of.
  abbrev Unchanged : World → World × Ret → Type 0
  Unchanged w out =
      (w' : World) × (out ≡ (w', failure)) × IsConsistent lay w' × (journal lay w' ≡ journal lay w)

  put_item-Unchanged :
      (a : Answers) (p : LogWriteParam) (item : LogItem) (w : World) (n : FileName)
      → IsConsistent lay w
      → last w.mng.files ≡ some n
      → (a.seek_item_ok && a.item_ok && a.seek_head_ok) ≡ false
      → Unchanged w (put_item lay a p item (some n) w.mng.log_head w)
  unfolding put_item put_head
  put_item-Unchanged a p item w n c e fails = elim (Bool-cases a.seek_item_ok) [
    | inr no_seek ↦ rw no_seek (w, refl, c, refl)
    | inl seek ↦ elim (Bool-cases a.item_ok) [
      | inr no_item ↦
          rw (seek, no_item)
            (torn w n a.torn_item c e, refl, torn-IsConsistent w n _ c e, torn-journal w n _ c e)
      | inl item_ok ↦
          let no_seek : a.seek_head_ok ≡ false = ground arith in
          rw (seek, item_ok, no_seek)
            (torn w n (some item) c e, refl, torn-IsConsistent w n _ c e, torn-journal w n _ c e)
    ]
  ]

  -- As long as the last file has room, a call of `writeLog` in which the write of the entry fails, or
  -- one of the two `lseek`s, returns -1 and leaves the state consistent and the journal as it was.
  pub write_log-failure :
      (a : Answers) (p : LogWriteParam) (text : List ℕ) (len : ℕ) (w : World)
      → IsConsistent lay w
      → needs_new_file w.mng ≡ false
      → (a.seek_item_ok && a.item_ok && a.seek_head_ok) ≡ false
      → 0 < len
      → (w' : World) × (write_log lay a (some p) (some text) len w ≡ (w', failure))
        × IsConsistent lay w'
        × (journal lay w' ≡ journal lay w)
  unfolding write_log current_file write_opened
  write_log-failure a p text len w c room fails some_text =
      let test : (len == 0) ≡ false = ground arith in
      let (n, e, is_open, few) = open_last lay w c room in
      let (w', run, kept, eq) = put_item-Unchanged a p (make_item p text len) w n c e fails in
      (
        w',
        rw (test, room)
            (ap (λ o. put_item lay a p (make_item p text len) o w.mng.log_head w) is_open ∙ run),
        kept,
        eq,
      )
