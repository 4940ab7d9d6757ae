-- ===== src/LogMng/Init/Restart.antt =====
-- The state of the manager after `initLogMng` (demo/logMng/LogMng.c).
use embedded_linux_iot_gatew.Prelude.{
  ◌≤◌, ◌<◌, ◌^◌, ◌≡◌, refl, sym, ap, ◌∙◌, true, Option, none, some, arith, length, inl, inr,
  Bool-cases, Option-cases,
}
use embedded_linux_iot_gatew.LogMng.{
  FileName, log_name, Disk, Layout, LogFile, LogHeadInfo, LogMng, success,
}
use embedded_linux_iot_gatew.LogMng.Journal.{has, Distinct, last, has-last}
use embedded_linux_iot_gatew.LogMng.Entries.{InPlace}
use embedded_linux_iot_gatew.LogMng.Consistent.{IsConsistent, Current}
use embedded_linux_iot_gatew.LogMng.Init.{sort_names, InitAnswers, init_log_mng, read_last}
use embedded_linux_iot_gatew.LogMng.Init.Names.{
  has-sort_names, Distinct-sort_names, length-sort_names, max_from-lt, AllBelow, max_from-small,
}
use embedded_linux_iot_gatew.LogMng.Init.Scan.{log_files, CanScan, started, scanned}

module _ (lay : Layout) where
  -- The file has a header, which counts its entries.
  pub record Readable (disk : Disk) (n : FileName) : Type 0 where
    pub file : LogFile
    pub head : LogHeadInfo
    pub on_disk : disk n ≡ some file
    pub head_eq : file.head ≡ some head
    pub in_place : InPlace lay head

  -- The system calls succeed, and the directory holds at most twenty log files with short names,
  -- numbers that have a next one, and readable headers.
  pub record CanStart (a : InitAnswers) (disk : Disk) : Type 0 where
    pub scan : CanScan a
    pub opened : a.open_ok ≡ true
    pub few : length (log_files a.dir) ≤ 20
    pub distinct : Distinct (log_files a.dir)
    pub below : AllBelow (log_files a.dir)
    pub readable : (n : FileName) → has n (log_files a.dir) ≡ true → Readable disk n

  read_last_lem :
      (a : InitAnswers) (disk : Disk) (m : LogMng)
      → a.open_ok ≡ true
      → ((n : FileName) → has n m.files ≡ true → Readable disk n)
      → (o : Option FileName) × (h : LogHeadInfo) × (read_last a disk m
          ≡ (record m { fd = o; log_head = h }, success))
        × ((n : FileName)
            → last m.files ≡ some n
            → Current lay (record m { fd = o; log_head = h }) disk n)
  unfolding read_last
  read_last_lem a disk m ok readable = elim (Option-cases (last m.files)) [
    | inl e ↦ (m.fd, m.log_head, rw (e, read_last) refl, λ n l. cc)
    | inr (n, e) ↦
        let r = readable n (has-last n m.files e) in
        (
          some n,
          r.head,
          rw (e, ok, read_last) (rw (r.on_disk, r.head_eq)),
          λ k l.
              let same : k ≡ n = cc (l, e) in
              record {
                opened = inr (ap some (sym same));
                file = r.file;
                on_disk = ap disk same ∙ r.on_disk;
                head_eq = r.head_eq;
                in_place = r.in_place;
              },
        )
  ]

  -- From a directory with at most twenty log files, whose names differ and fit the list's nodes,
  -- whose numbers, as `sscanf` reads them, are below 2 ^ 31 - 1, and whose headers count their
  -- entries, with system calls and allocations that succeed, `initLogMng` succeeds. Its list holds
  -- just these files, and the state is consistent with the disk: no number from the next one on,
  -- which is an `int`, names a listed file, and the last file is open with its header in memory.
  pub init_log_mng-IsConsistent :
      (a : InitAnswers) (disk : Disk)
      → CanStart a disk
      → (m : LogMng) × (init_log_mng a disk ≡ (m, success))
        × IsConsistent lay (record { mng = m; disk = disk })
        × (m.seq < 2 ^ 31)
        × (m.files ≡ sort_names (log_files a.dir))
        × ((n : FileName) → has n m.files ≡ has n (log_files a.dir))
  init_log_mng-IsConsistent a disk can =
      let ns = sort_names (log_files a.dir) in
      let same_names = λ (n : FileName). has-sort_names n (log_files a.dir) in
      let count = length-sort_names (log_files a.dir) in
      let below : AllBelow ns = λ n l. can.below n (sym (same_names n) ∙ l) in
      let next_int = max_from-small none ns (omega arith) below in
      let (o, h, run, current) =
        read_last_lem a disk (started a) can.opened
          (λ n l. can.readable n (sym (same_names n) ∙ l)) in
      (
        record (started a) { fd = o; log_head = h },
        scanned a disk can.scan ∙ run,
        record {
          listed = record {
            counted = omega arith;
            bounded = omega (arith, count, can.few);
            distinct = Distinct-sort_names (log_files a.dir) can.distinct;
            fresh = λ k le. elim (Bool-cases (has (log_name k) ns)) [
              | inl used ↦ absurd (omega (arith, le, max_from-lt none ns k below used))
              | inr unused ↦ unused
            ];
          };
          current = current;
        },
        omega (arith, next_int),
        refl,
        same_names,
      )
