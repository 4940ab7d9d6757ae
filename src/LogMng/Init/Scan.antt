-- ===== src/LogMng/Init/Scan.antt =====
-- The loops of `initLogMng`: what is collected from the directory and put into the list.
use embedded_linux_iot_gatew.Prelude.{
  text_eq_refl, ℕ, zero, suc, ◌+◌, ◌≤◌, ◌≡◌, refl, sym, ap, ap₂, ◌∙◌, true, ◌&&◌, Option, none,
  some, List, [], ◌∷◌, ◌++◌, arith, length, take, if◌then◌else◌, inl, inr, Bool-cases, take_of_ge,
  append-nil, append_assoc,
}
use embedded_linux_iot_gatew.LogMng.{FileName, Disk, LogMng, success}
use embedded_linux_iot_gatew.LogMng.Journal.{has}
use embedded_linux_iot_gatew.LogMng.Init.{
  scan_log, sort_names, build, max_of, next_seq, DirEntry, collect, is_log_file_name, InitAnswers,
  init_log_mng, number, read_last, start_mng, dir_opened,
}
use embedded_linux_iot_gatew.LogMng.Init.Names.{has-sort_names, length-sort_names, max_from}

-- No name is longer than a node of the list holds.
abbrev pub AllShort : List FileName → Type 0
AllShort ns = (n : FileName) → has n ns ≡ true → length n ≤ 31

pub build_lem :
    (nodes : ℕ) (ns : List FileName) (m : LogMng) (max_seq : Option ℕ)
    → length ns ≤ nodes
    → AllShort ns
    → build nodes ns m max_seq ≡ (
      record m { files = m.files ++ ns; log_file_num = m.log_file_num + length ns },
      max_from max_seq ns,
      success,
    )
unfolding build max_from
build_lem nodes [] m max_seq enough short =
    ap₂ (λ fs c. (record m { files = fs; log_file_num = c }, max_seq, success))
      (sym (append-nil m.files)) (omega arith)
build_lem zero (n ∷ ns) m max_seq enough short = absurd (omega arith)
build_lem (suc nodes) (n ∷ ns) m max_seq enough short =
    let next = max_of max_seq (scan_log n) in
    let whole : take 31 n ≡ n = take_of_ge 31 n (short n (ground (arith, text_eq_refl n))) in
    ap
      (λ k.
        build nodes ns (record m { files = m.files ++ (k ∷ []); log_file_num = m.log_file_num + 1 })
          next)
      whole
    ∙ build_lem nodes ns
        (record m { files = m.files ++ (n ∷ []); log_file_num = m.log_file_num + 1 }) next
        (omega arith) (λ k h. short k (ground arith))
    ∙ ap₂ (λ fs c. (record m { files = fs; log_file_num = c }, max_from next ns, success))
        (append_assoc m.files (n ∷ []) ns) (omega arith)

-- The regular files of the directory that are named like log files.
unfoldable pub log_files : List DirEntry → List FileName
log_files [] = []
log_files (e ∷ es) =
    if is_log_file_name e.name && e.regular then e.name ∷ log_files es else log_files es

abbrev pub AllMemory : List DirEntry → Type 0
AllMemory [] = Unit
AllMemory (e ∷ es) = (e.memory_ok ≡ true) × AllMemory es

pub collect_lem : (es : List DirEntry) → AllMemory es → collect es ≡ some (log_files es)
unfolding collect log_files
collect_lem [] all = refl
collect_lem (e ∷ es) all =
    rw (collect_lem es all.1, all.0)
      (elim (Bool-cases (is_log_file_name e.name && e.regular)) [
        | inl yes' ↦ rw yes'
        | inr no' ↦ rw no'
      ])

-- The calls before the scan succeed, there is memory for every name, and every name fits a node.
pub record CanScan (a : InitAnswers) : Type 0 where
  pub calls : (a.mutex_ok && a.msgget_ok && dir_opened a) ≡ true
  pub memory : AllMemory a.dir
  pub nodes : length (log_files a.dir) ≤ a.nodes
  pub short : AllShort (log_files a.dir)

-- The manager with the files of the directory.
abbrev pub started : InitAnswers → LogMng
started a =
    let ns = sort_names (log_files a.dir) in
    record start_mng { files = ns; log_file_num = 0 + length ns; seq = next_seq (max_from none ns) }

pub scanned :
    (a : InitAnswers) (disk : Disk) → CanScan a → init_log_mng a disk ≡ read_last a disk (started a)
unfolding init_log_mng number
scanned a disk can =
    let ns = log_files a.dir in
    rw
      (
        can.calls,
        collect_lem a.dir can.memory,
        build_lem a.nodes (sort_names ns) start_mng none
            (omega (arith, length-sort_names ns, can.nodes))
            (λ n l. can.short n (sym (has-sort_names n ns) ∙ l)),
      )
      refl
