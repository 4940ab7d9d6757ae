-- ===== src/LogMng/Init/Tests.antt =====
-- Start-ups of the log manager, and their theorems at an input.
use embedded_linux_iot_gatew.Prelude.{
  text_eq_iff, ◌≡◌, ◌<◌, ◌^◌, unsome, refl, sym, ap, ◌∙◌, true, false, none, some, List, [], ◌∷◌,
  arith, length,
}
use embedded_linux_iot_gatew.LogMng.{
  FileName, log_name, Layout, LogHeadInfo, LogMng, Disk, success, zero_head,
}
use embedded_linux_iot_gatew.LogMng.Journal.{has}
use embedded_linux_iot_gatew.LogMng.Consistent.{IsConsistent}
use embedded_linux_iot_gatew.LogMng.Init.{
  InitAnswers, init_log_mng, sort_names, name_le, is_log_file_name, scan_log, DirEntry,
}
use embedded_linux_iot_gatew.LogMng.Init.Parse.{scan_log-log_name}
use embedded_linux_iot_gatew.LogMng.Init.Scan.{log_files, CanScan}
use embedded_linux_iot_gatew.LogMng.Init.Restart.{CanStart, init_log_mng-IsConsistent}

abbrev layout : Layout
layout = record {
  head_size = 120;
  item_size = 120;
  item_pos = omega arith;
  head_pos = omega arith;
  fits = omega arith;
}

abbrev two_entries : LogHeadInfo
two_entries = record zero_head { log_item_num = 2; file_write_seq = 360 }

-- The directory: the file of number 7, and one that is no log file.
abbrev dir : List DirEntry
dir =
    record { name = log_name 7; regular = true; memory_ok = true }
    ∷ record { name = b'x' ∷ []; regular = true; memory_ok = true }
    ∷ []

abbrev start : InitAnswers
start = record {
  mutex_ok = true;
  msgget_ok = true;
  opendir_ok = true;
  missing = false;
  mkdir_ok = false;
  reopen_ok = false;
  dir = dir;
  nodes = 1;
  open_ok = true;
}

one_file : log_files dir ≡ log_name 7 ∷ []
unfolding log_files log_name is_log_file_name scan_log
one_file = refl

only : (n : FileName) → has n (log_files dir) ≡ true → n ≡ log_name 7
only n h = (text_eq_iff n (log_name 7)).0 (ground (arith, sym (ap (has n) one_file) ∙ h))

start-CanScan : CanScan start
unfolding log_name
start-CanScan = record {
  calls = refl;
  memory = (refl, (refl, tt));
  nodes = omega (arith, ap length one_file);
  short = λ n h.
      let whole : length (log_name 7) ≡ 6 = refl in omega (arith, ap length (only n h), whole);
}

abbrev full_disk : Disk
full_disk = λ _. some (record { head = some two_entries; item_at = λ _. none })

start-CanStart : CanStart layout start full_disk
start-CanStart = record {
  scan = start-CanScan;
  opened = refl;
  few = omega (arith, ap length one_file);
  distinct = rw one_file (refl, tt);
  below = λ n h s read.
      let seven = sym read ∙ ap scan_log (only n h) ∙ scan_log-log_name 7 (omega arith) in
      omega (arith, unsome (unsome seven));
  readable = λ n h. record {
    file = record { head = some two_entries; item_at = λ _. none };
    head = two_entries;
    on_disk = refl;
    head_eq = refl;
    in_place = record { few = omega arith; place = omega arith };
  };
}

init_log_mng-IsConsistent_example :
    (m : LogMng) × (init_log_mng start full_disk ≡ (m, success))
    × IsConsistent layout (record { mng = m; disk = full_disk })
    × (m.seq < 2 ^ 31)
    × (m.files ≡ sort_names (log_files dir))
    × ((n : FileName) → has n m.files ≡ has n (log_files dir))
init_log_mng-IsConsistent_example = init_log_mng-IsConsistent layout start full_disk start-CanStart

scan_log-log_name_example : scan_log (log_name 1234) ≡ some (some 1234)
scan_log-log_name_example = scan_log-log_name 1234 (omega arith)

-- From a thousand files on the order of the names is not that of the numbers.
order_of_names :
    (name_le (log_name 1000) (log_name 999) ≡ true) × (name_le (log_name 9) (log_name 10) ≡ true)
unfolding name_le log_name
order_of_names = (refl, refl)
