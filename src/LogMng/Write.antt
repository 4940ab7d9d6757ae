-- ===== src/LogMng/Write.antt =====
-- The steps of `writeLog` where every call succeeds: the entry in an open file, and a new file.
use embedded_linux_iot_gatew.Prelude.{
  text_eq_refl, text_eq, ◌+◌, ◌%◌, ◌^◌, ◌<◌, ◌≡◌, refl, ap, ◌∙◌, true, false, none, some, [], ◌∷◌,
  ◌++◌, arith, inl, inr, Option-cases,
}
use embedded_linux_iot_gatew.LogMng.{
  FileName, log_name, Layout, LogFile, LogHeadInfo, LogItem, LogWriteParam, Disk, World, Answers,
  success, write_head, write_item, change, create, next_head, first_head, put_item, new_file,
  empty_file,
}
use embedded_linux_iot_gatew.LogMng.Name.Laws.{take-log_name}
use embedded_linux_iot_gatew.LogMng.Entries.{with_entry}

-- The calls that begin a new file succeed.
pub record OpenOk (a : Answers) : Type 0 where
  pub opened : a.open_ok ≡ true
  pub head : a.head_ok ≡ true
  pub node : a.node_ok ≡ true

-- Every call that `writeLog` relies on succeeds.
pub record AllOk (a : Answers) : Type 0 where
  pub opening : OpenOk a
  pub seek_item : a.seek_item_ok ≡ true
  pub item : a.item_ok ≡ true
  pub seek_head : a.seek_head_ok ≡ true
  pub updated : a.update_ok ≡ true

-- The disks differ at most at the name.
abbrev pub SameBut : FileName → Disk → Disk → Type 0
SameBut n d d' = (k : FileName) → text_eq n k ≡ false → d' k ≡ d k

module _ (d : Disk) (n : FileName) where
  pub change_self :
      (g : LogFile → LogFile) (f : LogFile) → d n ≡ some f → change d n g n ≡ some (g f)
  unfolding change
  change_self g f e = rw (e, change) (ground (arith, text_eq_refl n))

  pub change_other : (g : LogFile → LogFile) → SameBut n d (change d n g)
  unfolding change
  change_other g k h = elim (Option-cases (d n)) [
    | inl e ↦ rw (e, change)
    | inr (f, e) ↦ rw (e, change, h)
  ]

  pub create_self : (f : LogFile) × (create d n n ≡ some f) × (d n ≡ none → f ≡ empty_file)
  unfolding create
  create_self = elim (Option-cases (d n)) [
    | inl e ↦ (empty_file, rw (e, create) (rw (text_eq_refl n)), λ h. refl)
    | inr (f, e) ↦ (f, rw (e, create) e, λ h. cc)
  ]

  pub create_other : SameBut n d (create d n)
  unfolding create
  create_other k h = elim (Option-cases (d n)) [
    | inl e ↦ rw (e, create, h)
    | inr (f, e) ↦ rw (e, create)
  ]

module _ (lay : Layout) (a : Answers) (all : AllOk a) (p : LogWriteParam) (item : LogItem) where
  -- What `put_item` leaves behind.
  pub record Put (w : World) (n : FileName) (h : LogHeadInfo) (f : LogFile) (w' : World)
      : Type 0 where
    pub mng_eq : w'.mng ≡ record w.mng {
      log_head = next_head lay p h;
      log_item_num = (w.mng.log_item_num + 1) % 2 ^ 8;
    }
    pub file : w'.disk n ≡ some (with_entry lay f p h item)
    pub others : SameBut n w.disk w'.disk

  pub put_item-Put :
      (w : World) (n : FileName) (h : LogHeadInfo) (f : LogFile)
      → w.disk n ≡ some f
      → (w' : World) × (put_item lay a p item (some n) h w ≡ (w', success)) × Put w n h f w'
  unfolding put_item
  put_item-Put w n h f e =
      let d1 : Disk = change w.disk n (λ f. write_item lay f h.file_write_seq (some item)) in
      let d2 : Disk = change d1 n (λ f. write_head lay f (some (next_head lay p h))) in
      (
        record {
          mng = record w.mng {
            log_head = next_head lay p h;
            log_item_num = (w.mng.log_item_num + 1) % 2 ^ 8;
          };
          disk = d2;
        },
        rw (all.seek_item, all.item, all.seek_head, all.updated),
        record {
          mng_eq = refl;
          file = change_self d1 n _ _ (change_self w.disk n _ f e);
          others = λ k o. change_other d1 n _ k o ∙ change_other w.disk n _ k o;
        },
      )

module _ (lay : Layout) (p : LogWriteParam) where
  -- A world in which the next file has been begun: it is open, last in the list, and has a header.
  pub record Begun (w w' : World) : Type 0 where
    pub mng_eq : w'.mng ≡ record w.mng {
      fd = some (log_name w.mng.seq);
      log_file_num = w.mng.log_file_num + 1;
      seq = w.mng.seq + 1;
      log_item_num = 0;
      files = w.mng.files ++ (log_name w.mng.seq ∷ []);
    }
    pub file : LogFile
    pub on_disk : w'.disk (log_name w.mng.seq) ≡ some file
    pub head_eq : file.head ≡ some (first_head lay p)
    pub file_eq :
        w.disk (log_name w.mng.seq) ≡ none
        → file ≡ write_head lay empty_file (some (first_head lay p))
    pub others : SameBut (log_name w.mng.seq) w.disk w'.disk

  pub new_file-Begun :
      (a : Answers) (w : World)
      → OpenOk a
      → w.mng.seq < 2 ^ 31
      → (w' : World) × (new_file lay a p w ≡ (w', first_head lay p, success)) × Begun w w'
  unfolding new_file write_head
  new_file-Begun a w ok small =
      let n = log_name w.mng.seq in
      let d1 : Disk = create w.disk n in
      let (f, e, fresh) = create_self w.disk n in
      let head = first_head lay p in
      let d2 : Disk = change d1 n (λ f. write_head lay f (some head)) in
      (
        record {
          mng = record w.mng {
            fd = some n;
            log_file_num = w.mng.log_file_num + 1;
            seq = w.mng.seq + 1;
            log_item_num = 0;
            files = w.mng.files ++ (n ∷ []);
          };
          disk = d2;
        },
        rw (ok.opened, ok.head, ok.node, take-log_name w.mng.seq small),
        record {
          mng_eq = refl;
          file = write_head lay f (some head);
          on_disk = change_self d1 n _ f e;
          head_eq = refl;
          file_eq = λ h. ap (λ f. write_head lay f (some head)) (fresh h);
          others = λ k o. change_other d1 n _ k o ∙ create_other w.disk n k o;
        },
      )
