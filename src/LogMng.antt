-- ===== src/LogMng.antt =====
-- demo/logMng/LogMng.c and h/logMng/LogMng.h: the state of the log manager and `writeLog`, which
-- puts one entry into the current log file and rotates the files. The files are a disk that maps
-- names to what stands in each file; a descriptor is the name of the file that it leads to. What
-- the system calls and `malloc` answer is an argument.
pub mod Name
pub mod Journal
pub mod Write
pub mod Consistent
pub mod Refine
pub mod Errors
pub mod FirstFile
pub mod Task
pub mod Init
pub mod Entries
mod Tests
use embedded_linux_iot_gatew.Prelude.{
  text_eq, ℕ, ◌+◌, ◌-◌, ◌*◌, ◌%◌, ◌^◌, ◌<◌, Bool, true, false, ◌&&◌, ◌||◌, Option, none, some, List,
  [], ◌∷◌, ◌++◌, length, take, replicate, ltb, leb, ◌==◌, if◌then◌else◌,
}
unfoldable pub use Name.{FileName, log_name}

abbrev pub log_file_max_num : ℕ
log_file_max_num = 20

abbrev pub max_log_items_per_file : ℕ
max_log_items_per_file = 10

abbrev pub name_max_len : ℕ
name_max_len = 32

abbrev pub log_info_len : ℕ
log_info_len = 128 - 28

-- The compiler's sizes of LOG_HEAD_INFO and LOG_ITEM.
pub record Layout : Type 0 where
  pub head_size : ℕ
  pub item_size : ℕ
  pub item_pos : 0 < item_size
  pub head_pos : 0 < head_size
  pub fits : head_size + 10 * item_size < 2 ^ 32

pub record LogWriteParam : Type 0 where
  pub major : ℕ
  pub minor : ℕ
  pub time : ℕ

pub record LogItem : Type 0 where
  pub magic : ℕ
  pub major : ℕ
  pub minor : ℕ
  pub seq : ℕ
  pub time : ℕ
  pub info_len : ℕ
  pub info : List ℕ

-- The header of a log file, without its reserved bytes and the unused table `log_set`.
pub record LogHeadInfo : Type 0 where
  pub start_time : ℕ
  pub end_time : ℕ
  pub start_seq : ℕ
  pub end_seq : ℕ
  pub file_write_seq : ℕ
  pub file_read_seq : ℕ
  pub log_item_num : ℕ

abbrev pub zero_head : LogHeadInfo
zero_head = record {
  start_time = 0;
  end_time = 0;
  start_seq = 0;
  end_seq = 0;
  file_write_seq = 0;
  file_read_seq = 0;
  log_item_num = 0;
}

-- A file: its header, if the bytes at offset 0 are one, and the entry that starts at an offset, if
-- the bytes there are one.
pub record LogFile : Type 0 where
  pub head : Option LogHeadInfo
  pub item_at : ℕ → Option LogItem

abbrev pub Disk : Type 0
Disk = FileName → Option LogFile

abbrev pub empty_file : LogFile
empty_file = record { head = none; item_at = λ _. none }

unfoldable pub update : Disk → FileName → Option LogFile → Disk
update disk n f k = if text_eq n k then f else disk k

-- `LOG_MNG_T`: `files` is the list `logFileList`, `fd` is `logFilefd` (`none` for -1).
pub record LogMng : Type 0 where
  pub files : List FileName
  pub seq : ℕ
  pub fd : Option FileName
  pub log_item_num : ℕ
  pub log_head : LogHeadInfo
  pub log_file_num : ℕ

pub record World : Type 0 where
  pub mng : LogMng
  pub disk : Disk

-- What the calls of `writeLog` answer. After a write that fails, `torn_head` or `torn_item` is what
-- a reader finds in its place.
pub record Answers : Type 0 where
  pub unlink_ok : Bool
  pub open_ok : Bool
  pub head_ok : Bool
  pub node_ok : Bool
  pub seek_item_ok : Bool
  pub item_ok : Bool
  pub seek_head_ok : Bool
  pub update_ok : Bool
  pub torn_head : Option LogHeadInfo
  pub torn_item : Option LogItem

-- The return values 0 and -1.
pub data Ret : Type 0 where
  success failure : Ret

module _ (lay : Layout) where
  open lay use {head_size, item_size}

  -- A write at offset 0 destroys the entries that start inside the header.
  unfoldable pub write_head : LogFile → Option LogHeadInfo → LogFile
  write_head f h = record { head = h; item_at = λ o. if ltb o head_size then none else f.item_at o }

  -- A write at offset `off` destroys what it overlaps.
  unfoldable pub write_item : LogFile → ℕ → Option LogItem → LogFile
  write_item f off item = record {
    head = if ltb off head_size then none else f.head;
    item_at = λ o.
        if o == off
        then item
        else (if ltb o (off + item_size) && ltb off (o + item_size) then none else f.item_at o);
  }

-- The write goes to the file of the name; with no such file it does nothing.
unfoldable pub change : Disk → FileName → (LogFile → LogFile) → Disk
unfolding update
change disk n g = elim (disk n) [ none ↦ disk | some f ↦ update disk n (some (g f)) ]

-- Whether the first entry comes, or the current file is full.
unfoldable pub needs_new_file : LogMng → Bool
needs_new_file m = m.log_file_num == 0 || leb max_log_items_per_file m.log_head.log_item_num

abbrev pub close_file : World → World
close_file w = record w { mng = record w.mng { fd = none } }

-- The files are at their limit: the oldest one goes.
unfoldable pub drop_oldest : Answers → List FileName → World → World
unfolding update
drop_oldest a [] w = w
drop_oldest a (oldest ∷ rest) w = record {
  mng = record w.mng { files = rest; log_file_num = w.mng.log_file_num - 1 };
  disk = if a.unlink_ok then update w.disk oldest none else w.disk;
}

unfoldable pub rotate : Answers → World → World
unfolding drop_oldest
rotate a w = if leb log_file_max_num w.mng.log_file_num then drop_oldest a w.mng.files w else w

-- `open` with O_CREAT and without O_TRUNC.
unfoldable pub create : Disk → FileName → Disk
unfolding update
create disk n = elim (disk n) [ none ↦ update disk n (some empty_file) | some _ ↦ disk ]

-- How much of the text there is room for, with a zero byte behind it.
unfoldable pub copy_len : ℕ → ℕ
copy_len len = if ltb (log_info_len - 1) len then log_info_len - 1 else len

-- LOG_ITEM with the text cut to the room of `info`.
unfoldable pub make_item : LogWriteParam → List ℕ → ℕ → LogItem
make_item p text len = record {
  magic = 0;
  major = p.major;
  minor = p.minor;
  seq = 0;
  time = p.time;
  info_len = copy_len len;
  info = take (copy_len len) text ++ replicate (log_info_len - copy_len len) 0;
}

module _ (lay : Layout) where
  open lay use {head_size, item_size}

  -- The header of a new file.
  abbrev pub first_head : LogWriteParam → LogHeadInfo
  first_head p = record zero_head { start_time = p.time; file_write_seq = head_size }

  -- The file `logNNN` is opened, gets its header and its place in the list. The next number is a
  -- natural number; that after the largest `int` is left open by C.
  unfoldable pub new_file : Answers → LogWriteParam → World → World × LogHeadInfo × Ret
  unfolding create change write_head
  new_file a p w =
      let n = log_name w.mng.seq in
      let created = create w.disk n in
      if a.open_ok
      then (if a.head_ok
          then (
            record {
              mng = record w.mng {
                fd = some n;
                log_file_num = w.mng.log_file_num + 1;
                seq = w.mng.seq + 1;
                log_item_num = 0;
                files =
                    if a.node_ok
                    then w.mng.files ++ (take (name_max_len - 1) n ∷ [])
                    else w.mng.files;
              };
              disk = change created n (λ f. write_head lay f (some (first_head p)));
            },
            first_head p,
            success,
          )
          else (
            record {
              mng = record w.mng { fd = none };
              disk = change created n (λ f. write_head lay f a.torn_head);
            },
            first_head p,
            failure,
          ))
      else (close_file w, w.mng.log_head, failure)

  -- The file to write to, with its header: the current one, or a new one.
  unfoldable pub current_file : Answers → LogWriteParam → World → World × LogHeadInfo × Ret
  current_file a p w =
      if needs_new_file w.mng
      then new_file a p (rotate a (close_file w))
      else (w, w.mng.log_head, success)

  -- The header once one more entry is in the file; `logItemNum` is an unsigned char.
  abbrev pub next_head : LogWriteParam → LogHeadInfo → LogHeadInfo
  next_head p head = record head {
    end_time = p.time;
    log_item_num = (head.log_item_num + 1) % 2 ^ 8;
    file_write_seq = (head.file_write_seq + item_size) % 2 ^ 32;
  }

  -- The header is written back, and then copied to the manager.
  unfoldable pub put_head : Answers → FileName → LogHeadInfo → World → World × Ret
  unfolding change write_head
  put_head a n head w =
      if a.seek_head_ok
      then (if a.update_ok
          then (
            record {
              mng = record w.mng {
                log_head = head;
                log_item_num = (w.mng.log_item_num + 1) % 2 ^ 8;
              };
              disk = change w.disk n (λ f. write_head lay f (some head));
            },
            success,
          )
          else (record w { disk = change w.disk n (λ f. write_head lay f a.torn_head) }, failure))
      else (w, failure)

  -- `lseek` on the descriptor -1 fails.
  unfoldable pub put_item :
      Answers → LogWriteParam → LogItem → Option FileName → LogHeadInfo → World → World × Ret
  unfolding change write_item put_head
  put_item a p item none head w = (w, failure)
  put_item a p item (some n) head w =
      if a.seek_item_ok
      then (if a.item_ok
          then put_head a n (next_head p head) (record w {
            disk = change w.disk n (λ f. write_item lay f head.file_write_seq (some item));
          })
          else (
            record w {
              disk = change w.disk n (λ f. write_item lay f head.file_write_seq a.torn_item);
            },
            failure,
          ))
      else (w, failure)

  unfoldable pub write_opened :
      Answers → LogWriteParam → LogItem → World × LogHeadInfo × Ret → World × Ret
  write_opened a p item (w, head, success) = put_item a p item w.mng.fd head w
  write_opened a p item (w, head, failure) = (w, failure)

  -- `writeLog`; `none` is NULL, and a length that is not positive is 0.
  unfoldable pub write_log :
      Answers → Option LogWriteParam → Option (List ℕ) → ℕ → World → World × Ret
  unfolding current_file
  write_log a none text len w = (w, failure)
  write_log a (some p) none len w = (w, failure)
  write_log a (some p) (some text) len w =
      if len == 0
      then (w, failure)
      else write_opened a p (make_item p text len) (current_file a p w)
