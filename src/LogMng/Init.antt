-- ===== src/LogMng/Init.antt =====
-- `initLogMng`: the log files of the directory become the manager's list, the next number follows
-- the largest one, and the header of the last file is read back. What the calls answer, and what
-- the directory holds, are arguments.
pub mod Parse
pub mod Names
pub mod Scan
pub mod Restart
mod Tests
use embedded_linux_iot_gatew.Prelude.{
  ℕ, zero, suc, ◌+◌, ◌-◌, ◌*◌, ◌<◌, Bool, true, false, ◌&&◌, ◌||◌, not, Option, none, some, List,
  [], ◌∷◌, ◌++◌, take, ltb, leb, ◌==◌, if◌then◌else◌, ◌>>=◌,
}
use embedded_linux_iot_gatew.LogMng.{
  FileName, LogHeadInfo, LogFile, Disk, LogMng, Ret, success, failure, zero_head, name_max_len,
}
use embedded_linux_iot_gatew.LogMng.Journal.{last}

abbrev pub is_digit : ℕ → Bool
is_digit c = leb b'0' c && leb c b'9'

-- isspace
abbrev pub is_space : ℕ → Bool
is_space c = c == 32 || leb 9 c && leb c 13

pub digits_value : ℕ → List ℕ → ℕ
digits_value acc [] = acc
digits_value acc (c ∷ cs) = elim (is_digit c) [
  | true ↦ digits_value (acc * 10 + (c - b'0')) cs
  | false ↦ acc
]

abbrev pub int_max : ℕ
int_max = 2147483647

-- A number that is no `int`, for which C leaves `%d` open, is read as the largest one, as by `strtol`
-- where a `long` has 32 bits.
abbrev pub to_int : ℕ → ℕ
to_int n = if leb n int_max then n else int_max

pub scan_digits : List ℕ → Option ℕ
unfolding digits_value
scan_digits [] = none
scan_digits (c ∷ cs) = if is_digit c then some (to_int (digits_value 0 (c ∷ cs))) else none

-- A negative number never is the largest; it is read as `none` inside `some`.
pub scan_signed : List ℕ → Option (Option ℕ)
unfolding scan_digits
scan_signed [] = none
scan_signed (c ∷ cs) =
    if c == b'-'
    then (scan_digits cs >>= λ n. some (if n == 0 then some 0 else none))
    else (if c == b'+'
        then (scan_digits cs >>= λ n. some (some n))
        else (scan_digits (c ∷ cs) >>= λ n. some (some n)))

pub skip_spaces : List ℕ → List ℕ
skip_spaces [] = []
skip_spaces (c ∷ cs) = elim (is_space c) [ true ↦ skip_spaces cs | false ↦ c ∷ cs ]

-- sscanf(name, "log%d"); `%u` accepts the same texts.
pub scan_log : FileName → Option (Option ℕ)
unfolding skip_spaces scan_signed
scan_log [] = none
scan_log (_ ∷ []) = none
scan_log (_ ∷ _ ∷ []) = none
scan_log (l ∷ o ∷ g ∷ cs) =
    if l == b'l' && o == b'o' && g == b'g' then scan_signed (skip_spaces cs) else none

pub is_log_file_name : FileName → Bool
unfolding scan_log
is_log_file_name n = elim (scan_log n) [ none ↦ false | some _ ↦ true ]

-- strcmp(a, b) <= 0
unfoldable pub name_le : FileName → FileName → Bool
name_le [] t = true
name_le (a ∷ s) [] = false
name_le (a ∷ s) (b ∷ t) = ltb a b || a == b && name_le s t

pub insert_name : FileName → List FileName → List FileName
insert_name n [] = n ∷ []
insert_name n (k ∷ ks) = if name_le n k then n ∷ k ∷ ks else k ∷ insert_name n ks

-- `qsort` by `compareFileName`, for which any sort may stand.
pub sort_names : List FileName → List FileName
unfolding insert_name
sort_names [] = []
sort_names (n ∷ ns) = insert_name n (sort_names ns)

-- An entry of the directory: whether `stat` calls it a regular file, and whether there is memory
-- for its name.
pub record DirEntry : Type 0 where
  pub name : FileName
  pub regular : Bool
  pub memory_ok : Bool

-- The loop over `readdir`; `none` is the way to `cleanup`.
pub collect : List DirEntry → Option (List FileName)
unfolding is_log_file_name
collect [] = some []
collect (e ∷ es) =
    let rest = collect es in
    if is_log_file_name e.name && e.regular
    then (if e.memory_ok then (rest >>= λ ns. some (e.name ∷ ns)) else none)
    else rest

-- `max_seq`, with `none` for -1.
abbrev pub max_of : Option ℕ → Option (Option ℕ) → Option ℕ
max_of m (some (some s)) = elim m [ none ↦ some s | some k ↦ if ltb k s then some s else some k ]
max_of m _ = m

-- The loop that builds the list, with the nodes for which there is memory.
pub build : (nodes : ℕ) → List FileName → LogMng → Option ℕ → LogMng × Option ℕ × Ret
unfolding scan_log
build nodes [] m max_seq = (m, max_seq, success)
build zero (n ∷ ns) m max_seq = (m, max_seq, failure)
build (suc nodes) (n ∷ ns) m max_seq =
    build nodes ns
      (record m {
        files = m.files ++ (take (name_max_len - 1) n ∷ []);
        log_file_num = m.log_file_num + 1;
      })
      (max_of max_seq (scan_log n))

pub record InitAnswers : Type 0 where
  pub mutex_ok : Bool
  pub msgget_ok : Bool
  pub opendir_ok : Bool
  pub missing : Bool
  pub mkdir_ok : Bool
  pub reopen_ok : Bool
  pub dir : List DirEntry
  pub nodes : ℕ
  pub open_ok : Bool

-- The directory is open, made first if it was missing.
abbrev pub dir_opened : InitAnswers → Bool
dir_opened a = a.opendir_ok || a.missing && a.mkdir_ok && a.reopen_ok

abbrev pub start_mng : LogMng
start_mng = record {
  files = [];
  seq = 0;
  fd = none;
  log_item_num = 0;
  log_head = zero_head;
  log_file_num = 0;
}

-- The header of the last file; a file that is too short for one is closed again.
pub read_last : InitAnswers → Disk → LogMng → LogMng × Ret
read_last a disk m = elim (last m.files) [
  | none ↦ (m, success)
  | some n ↦
      if a.open_ok
      then (elim (disk n >>= λ f. f.head) [
        | none ↦ (m, failure)
        | some h ↦ (record m { fd = some n; log_head = h }, success)
      ])
      else (m, failure)
]

-- max_seq + 1; behind the largest `int` it overflows, which C leaves open.
abbrev pub next_seq : Option ℕ → ℕ
next_seq none = 0
next_seq (some s) = s + 1

pub number : InitAnswers → Disk → LogMng × Option ℕ × Ret → LogMng × Ret
unfolding read_last
number a disk (m, max_seq, failure) = (m, failure)
number a disk (m, max_seq, success) = read_last a disk (record m { seq = next_seq max_seq })

pub init_log_mng : InitAnswers → Disk → LogMng × Ret
unfolding collect sort_names build number
init_log_mng a disk =
    if a.mutex_ok && a.msgget_ok && dir_opened a
    then (elim (collect a.dir) [
      | none ↦ (start_mng, failure)
      | some ns ↦ number a disk (build a.nodes (sort_names ns) start_mng none)
    ])
    else (start_mng, failure)
