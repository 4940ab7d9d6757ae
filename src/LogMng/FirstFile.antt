-- ===== src/LogMng/FirstFile.antt =====
-- The first log file, when the seek to the place of its first entry fails.
use embedded_linux_iot_gatew.Prelude.{
  ℕ, ◌^◌, ◌<◌, ◌≡◌, refl, ap, ap₂, ◌∙◌, true, false, Option, none, some, List, [], ◌∷◌, ◌++◌, arith,
  map, ◌==◌, leb,
}
use embedded_linux_iot_gatew.LogMng.{
  FileName, log_name, Layout, LogFile, LogHeadInfo, LogItem, LogWriteParam, LogMng, World, Answers,
  success, failure, first_head, put_item, rotate, close_file, zero_head, needs_new_file,
  current_file, write_opened, write_log, make_item, write_item, write_head, empty_file,
}
use embedded_linux_iot_gatew.LogMng.Entries.{entries, slots, with_entry}
use embedded_linux_iot_gatew.LogMng.Write.{AllOk, OpenOk, put_item-Put, new_file-Begun}
use embedded_linux_iot_gatew.LogMng.Consistent.{journal}

-- The state before the first entry ever.
pub record IsFresh (w : World) : Type 0 where
  pub no_files : w.mng.files ≡ []
  pub none_counted : w.mng.log_file_num ≡ 0
  pub zero : w.mng.log_head ≡ zero_head
  pub unused : w.disk (log_name w.mng.seq) ≡ none

rotate_few : (a : Answers) (w : World) → w.mng.log_file_num ≡ 0 → rotate a w ≡ w
unfolding rotate
rotate_few a w h = let few : leb 20 w.mng.log_file_num ≡ false = ground arith in rw few

needs-fresh : (m : LogMng) → m.log_file_num ≡ 0 → needs_new_file m ≡ true
unfolding needs_new_file
needs-fresh m h = ground arith

needs-zero : (m : LogMng) → m.log_file_num ≡ 1 → m.log_head ≡ zero_head → needs_new_file m ≡ false
unfolding needs_new_file
needs-zero m h z = ground (arith, ap (λ (x : LogHeadInfo). x.log_item_num) z)

module _ (lay : Layout) where
  put_item_no_seek :
      (a : Answers) (p : LogWriteParam) (item : LogItem) (o : Option FileName) (h : LogHeadInfo)
      (w : World)
      → a.seek_item_ok ≡ false
      → put_item lay a p item o h w ≡ (w, failure)
  unfolding put_item
  put_item_no_seek a p item none h w no_seek = refl
  put_item_no_seek a p item (some n) h w no_seek = rw no_seek

  -- An entry written over the header, and the header over the entry.
  overwritten :
      (p2 : LogWriteParam) (head : LogHeadInfo) (item : LogItem)
      → let f : LogFile = write_head lay empty_file (some head) in
        entries lay (some (with_entry lay f p2 zero_head item)) ≡ none ∷ []
  unfolding entries slots write_head write_item
  overwritten p2 head item = ap (λ o. o ∷ []) (ground (arith, lay.head_pos))

  -- The first log file, when its header has been written, but the seek to its first entry fails: the
  -- manager still holds a zeroed header. Any next call, though all its system calls succeed and it
  -- returns 0, writes its entry over the header at offset 0, and then the header over the entry: the
  -- file counts one entry, and no entry can be read.
  pub first_entry_lost :
      (a1 a2 : Answers) (p p2 : LogWriteParam) (text text2 : List ℕ) (len len2 : ℕ) (w : World)
      → IsFresh w
      → w.mng.seq < 2 ^ 31
      → OpenOk a1
      → a1.seek_item_ok ≡ false
      → AllOk a2
      → 0 < len
      → 0 < len2
      → (w1 : World) × (w2 : World) × (write_log lay a1 (some p) (some text) len w ≡ (w1, failure))
        × (write_log lay a2 (some p2) (some text2) len2 w1 ≡ (w2, success))
        × (journal lay w2 ≡ (none ∷ []) ∷ [])
  unfolding write_log current_file write_opened
  first_entry_lost a1 a2 p p2 text text2 len len2 w fresh small ok1 no_seek ok2 some_text
        some_more =
      let test : (len == 0) ≡ false = ground arith in
      let test2 : (len2 == 0) ≡ false = ground arith in
      let item : LogItem = make_item p2 text2 len2 in
      let n = log_name w.mng.seq in
      let (w1, begun, b) = new_file-Begun lay p a1 (close_file w) ok1 small in
      let zero : w1.mng.log_head ≡ zero_head = ap (λ m. m.log_head) b.mng_eq ∙ fresh.zero in
      let one : w1.mng.log_file_num ≡ 1 =
        ap (λ m. m.log_file_num) b.mng_eq ∙ omega (arith, fresh.none_counted) in
      let (w2, run, put) = put_item-Put lay a2 ok2 p2 item w1 n zero_head b.file b.on_disk in
      (
        w1,
        w2,
        rw
            (
              test,
              needs-fresh w.mng fresh.none_counted,
              rotate_few a1 (close_file w) fresh.none_counted,
              begun,
            )
            (put_item_no_seek a1 p (make_item p text len) w1.mng.fd (first_head lay p) w1 no_seek),
        rw (test2, needs-zero w1.mng one zero)
            (ap₂ (λ o h. put_item lay a2 p2 item o h w1) (ap (λ m. m.fd) b.mng_eq) zero ∙ run),
        ap (λ m. map (λ k. entries lay (w2.disk k)) m.files) put.mng_eq
            ∙ ap (λ m. map (λ k. entries lay (w2.disk k)) m.files) b.mng_eq
            ∙ ap (λ ks. map (λ k. entries lay (w2.disk k)) (ks ++ (n ∷ []))) fresh.no_files
            ∙ ap (λ o. entries lay o ∷ []) put.file
            ∙ ap (λ f. entries lay (some (with_entry lay f p2 zero_head item)) ∷ [])
                (b.file_eq fresh.unused)
            ∙ ap (λ js. js ∷ []) (overwritten p2 (first_head lay p) item),
      )
