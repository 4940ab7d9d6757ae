-- ===== src/LogMng/Tests.antt =====
-- The log manager's theorems at an input.
use embedded_linux_iot_gatew.Prelude.{
  text_eq_iff, text_eq, ℕ, ◌+◌, ◌≤◌, ◌≡◌, refl, inr, Bool, true, false, none, some, List, [], ◌∷◌,
  ◌++◌, arith, ◌||◌,
}
use embedded_linux_iot_gatew.LogMng.{
  log_name, Layout, LogFile, LogHeadInfo, LogItem, LogWriteParam, World, Answers, success, failure,
  zero_head, needs_new_file, make_item, write_log,
}
use embedded_linux_iot_gatew.LogMng.Name.Laws.{log_name-injective}
use embedded_linux_iot_gatew.LogMng.Journal
use embedded_linux_iot_gatew.LogMng.Journal.{has, last}
use embedded_linux_iot_gatew.LogMng.Write.{AllOk, OpenOk}
use embedded_linux_iot_gatew.LogMng.Consistent.{journal, IsConsistent}
use embedded_linux_iot_gatew.LogMng.Refine.{write_log-append}
use embedded_linux_iot_gatew.LogMng.Errors.{write_log-failure}
use embedded_linux_iot_gatew.LogMng.FirstFile.{IsFresh, first_entry_lost}
use embedded_linux_iot_gatew.LogMng.Task.{post, take_message, run, Event}
use embedded_linux_iot_gatew.LogMng.Task.Delivery.{accepted, append_all, run_delivers}

-- The sizes of the 32-bit ARM build.
abbrev arm : Layout
arm = record {
  head_size = 120;
  item_size = 120;
  item_pos = omega arith;
  head_pos = omega arith;
  fits = omega arith;
}

abbrev param : LogWriteParam
param = record { major = 1; minor = 2; time = 1000 }

-- The answers of a run in which the seek to the entry may fail.
abbrev answers : Bool → Answers
answers seek = record {
  unlink_ok = true;
  open_ok = true;
  head_ok = true;
  node_ok = true;
  seek_item_ok = seek;
  item_ok = true;
  seek_head_ok = true;
  update_ok = true;
  torn_head = none;
  torn_item = none;
}

answers-OpenOk : (seek : Bool) → OpenOk (answers seek)
answers-OpenOk seek = record { opened = refl; head = refl; node = refl }

answers-AllOk : AllOk (answers true)
answers-AllOk = record {
  opening = answers-OpenOk true;
  seek_item = refl;
  item = refl;
  seek_head = refl;
  updated = refl;
}

-- No log file yet.
abbrev fresh : World
fresh = record {
  mng = record {
    files = [];
    seq = 0;
    fd = none;
    log_item_num = 0;
    log_head = zero_head;
    log_file_num = 0;
  };
  disk = λ _. none;
}

fresh-IsConsistent : IsConsistent arm fresh
fresh-IsConsistent = record {
  listed = record { counted = refl; bounded = omega arith; distinct = tt; fresh = λ k h. refl };
  current = λ n h. cc;
}

fresh-IsFresh : IsFresh fresh
fresh-IsFresh = record { no_files = refl; none_counted = refl; zero = refl; unused = refl }

-- One file with room for ten entries, open.
abbrev begun_head : LogHeadInfo
begun_head = record zero_head { start_time = 1000; file_write_seq = 120 }

abbrev begun_file : LogFile
begun_file = record { head = some begun_head; item_at = λ _. none }

abbrev begun : World
begun = record {
  mng = record {
    files = log_name 0 ∷ [];
    seq = 1;
    fd = some (log_name 0);
    log_item_num = 0;
    log_head = begun_head;
    log_file_num = 1;
  };
  disk = λ _. some begun_file;
}

later_names : (k : ℕ) → 1 ≤ k → (text_eq (log_name k) (log_name 0) || false) ≡ false
later_names k h = ground (arith, (text_eq_iff (log_name k) (log_name 0)).0, log_name-injective k 0)

begun-IsConsistent : IsConsistent arm begun
begun-IsConsistent = record {
  listed = record {
    counted = refl;
    bounded = omega arith;
    distinct = (refl, tt);
    fresh = later_names;
  };
  current = λ n h. record {
    opened = inr h;
    file = begun_file;
    on_disk = refl;
    head_eq = refl;
    in_place = record { few = omega arith; place = omega arith };
  };
}

write_log-append_example :
    (w' : World) × (write_log arm (answers true) (some param) (some (72 ∷ 105 ∷ [])) 2 begun
      ≡ (w', success))
    × IsConsistent arm w'
    × (w'.mng.seq ≤ 1 + 1)
    × (journal arm w'
        ≡ Journal.append (some (make_item param (72 ∷ 105 ∷ []) 2)) (journal arm begun))
write_log-append_example =
    write_log-append arm (answers true) param (72 ∷ 105 ∷ []) 2 begun answers-AllOk
      begun-IsConsistent (omega arith) (omega arith)

write_log-failure_example :
    (w' : World) × (write_log arm (answers false) (some param) (some (72 ∷ 105 ∷ [])) 2 begun
      ≡ (w', failure))
    × IsConsistent arm w'
    × (journal arm w' ≡ journal arm begun)
unfolding needs_new_file
write_log-failure_example =
    write_log-failure arm (answers false) param (72 ∷ 105 ∷ []) 2 begun begun-IsConsistent refl refl
      (omega arith)

first_entry_lost_example :
    (w1 : World) × (w2 : World) × (write_log arm
        (answers false)
        (some param)
        (some (72 ∷ []))
        1
        fresh
      ≡ (w1, failure))
    × (write_log arm (answers true) (some param) (some (73 ∷ 74 ∷ [])) 2 w1 ≡ (w2, success))
    × (journal arm w2 ≡ (none ∷ []) ∷ [])
first_entry_lost_example =
    first_entry_lost arm (answers false) (answers true) param param (72 ∷ []) (73 ∷ 74 ∷ []) 1 2
      fresh fresh-IsFresh (omega arith) (answers-OpenOk false) refl answers-AllOk (omega arith)
      (omega arith)

-- Two threads post, and the consumer takes the first entry between the two.
abbrev events : List Event
events =
    post true true param (72 ∷ []) 1
    ∷ take_message (answers true)
    ∷ post true true param (73 ∷ 74 ∷ []) 2
    ∷ []

run_delivers_example :
    let (queue, w') = run arm events [] fresh in
    (done : List LogItem) × (done ++ queue ≡ accepted events)
    × IsConsistent arm w'
    × (journal arm w' ≡ append_all done (journal arm fresh))
run_delivers_example =
    run_delivers arm events fresh fresh-IsConsistent
      (omega arith, (answers-AllOk, (omega arith, tt))) (omega arith)
