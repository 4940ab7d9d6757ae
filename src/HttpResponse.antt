-- ===== src/HttpResponse.antt =====
-- webServer/code/http/httpresponse.cpp: the status line and the headers of an answer, and the file
-- that goes with it. The file system is an argument: what `stat` says of a name, whether `open`
-- succeeds, and what `mmap` shows of the file, where `none` is its failure. A failing assertion and a
-- read through the pointer that a failing `mmap` returns are `none`. What is logged is left out.
mod Texts
pub mod Serve
mod Tests
use embedded_linux_iot_gatew.Prelude.{
  ℕ, ◌+◌, Bool, true, false, ◌||◌, not, Option, none, some, List, [], ◌∷◌, ◌++◌, length, take, ◌==◌,
  if◌then◌else◌, ◌>>=◌, Text, text_eq,
}
use mathlib.Core.List.{reverse}
use embedded_linux_iot_gatew.LogMng.Name.{digits}
use embedded_linux_iot_gatew.UserStore.{is_empty}
unfoldable pub use Texts.*

-- What the program reads of `struct stat`.
pub record Stat : Type 0 where
  pub is_dir : Bool
  pub others_read : Bool
  pub size : ℕ

pub record Disk : Type 0 where
  pub stat : Text → Option Stat
  pub opens : Text → Bool
  pub mapped : Text → Option Text

-- `HttpResponse`; the code -1 is `none`, and the file that is mapped is its bytes.
pub record Response : Type 0 where
  pub code : Option ℕ
  pub keep_alive : Bool
  pub path : Text
  pub src_dir : Text
  pub file : Option Text
  pub file_stat : Stat

abbrev pub no_stat : Stat
no_stat = record { is_dir = false; others_read = false; size = 0 }

-- `Init`
abbrev pub init : (src_dir path : Text) → (keep_alive : Bool) → (code : Option ℕ) → Option Response
init src_dir path keep_alive code =
    if is_empty src_dir
    then none
    else some (record {
      code = code;
      keep_alive = keep_alive;
      path = path;
      src_dir = src_dir;
      file = none;
      file_stat = no_stat;
    })

-- `stat` leaves the structure alone when it fails.
abbrev pub fill : Option Stat → Stat → Stat
fill none old = old
fill (some new) old = new

-- The code that `MakeResponse` chooses.
unfoldable pub choose_code : Option Stat → Option ℕ → Option ℕ
choose_code none code = some 404
choose_code (some s) code =
    if s.is_dir
    then some 404
    else (if not s.others_read then some 403 else elim code [ none ↦ some 200 | some c ↦ some c ])

-- `CODE_PATH`
unfoldable pub code_path : Option ℕ → Option Text
code_path none = none
code_path (some c) =
    if c == 400
    then some page_400
    else (if c == 403 then some page_403 else (if c == 404 then some page_404 else none))

-- `CODE_STATUS`
unfoldable pub code_status : Option ℕ → Option Text
code_status none = none
code_status (some c) =
    if c == 200
    then some ok_status
    else (if c == 400
        then some bad_request
        else (if c == 403 then some forbidden else (if c == 404 then some not_found else none)))

unfoldable pub go_to : Disk → Response → Option Text → Response
go_to disk r none = r
go_to disk r (some path) = record r {
  path = path;
  file_stat = fill (disk.stat (r.src_dir ++ path)) r.file_stat;
}

-- `ErrorHtml_`
unfoldable pub error_html : Disk → Response → Response
error_html disk r = go_to disk r (code_path r.code)

-- The code that the state line shows, and its name.
unfoldable pub state_code : Option ℕ → Option Text → Option ℕ
state_code code none = some 400
state_code code (some status) = code

abbrev pub status_or_bad : Option Text → Text
status_or_bad none = bad_request
status_or_bad (some status) = status

-- `to_string` of a number.
unfoldable pub to_string : ℕ → Text
to_string n = reverse (digits (n + 1) n)

-- `to_string` of the code.
unfoldable pub code_text : Option ℕ → Text
code_text none = b'-' ∷ b'1' ∷ []
code_text (some c) = to_string c

-- What `AddStateLine_` appends, when it has set the code.
unfoldable pub state_line : Option ℕ → Text
state_line code =
    http_version ++ (code_text code ++ (32 ∷ (status_or_bad (code_status code) ++ line_end)))

-- The part from the last dot on.
unfoldable pub last_suffix : Text → Option Text
last_suffix [] = none
last_suffix (c ∷ text) = elim (last_suffix text) [
  | some s ↦ some s
  | none ↦ if c == 46 then some (c ∷ text) else none
]

unfoldable pub find_type : Text → List (Text × Text) → Text
find_type suffix [] = text_plain
find_type suffix ((s, type) ∷ more) = if text_eq s suffix then type else find_type suffix more

abbrev pub type_of : Option Text → Text
type_of none = text_plain
type_of (some suffix) = find_type suffix suffix_type

-- `GetFileType_`
unfoldable pub get_file_type : Text → Text
get_file_type path = type_of (last_suffix path)

-- What `AddHeader_` appends.
unfoldable pub header_text : Response → Text
header_text r =
    connection_head
    ++ ((if r.keep_alive then keep_alive_head else close_head)
        ++ (type_head ++ (get_file_type r.path ++ line_end)))

-- The page that `ErrorContent` makes, with the message "File NotFound!".
unfoldable pub error_page : Option ℕ → Text
error_page code =
    error_open
    ++ (code_text code
        ++ (error_colon ++ (status_or_bad (code_status code) ++ (error_message ++ error_close))))

abbrev pub length_line : ℕ → Text
length_line n = length_head ++ (to_string n ++ (line_end ++ line_end))

-- What `ErrorContent` appends.
unfoldable pub error_content : Option ℕ → Text
error_content code = length_line (length (error_page code)) ++ error_page code

-- *mmRet == -1, of the first `int` in the file.
abbrev pub is_minus_one : Text → Bool
is_minus_one content = text_eq (take 4 content) (255 ∷ 255 ∷ 255 ∷ 255 ∷ [])

unfoldable pub map_file : Response → Option Text → Option (Response × Text)
map_file r none = none
map_file r (some content) =
    if is_minus_one content
    then some (r, error_content r.code)
    else some (record r { file = some content }, length_line r.file_stat.size)

-- `AddContent_`
unfoldable pub add_content : Disk → Response → Option (Response × Text)
add_content disk r =
    if disk.opens (r.src_dir ++ r.path)
    then map_file r (disk.mapped (r.src_dir ++ r.path))
    else some (r, error_content r.code)

-- `AddStateLine_`, `AddHeader_` and `AddContent_`, and what they append.
unfoldable pub add_all : Disk → Response → Option (Response × Text)
add_all disk r =
    let s = record r { code = state_code r.code (code_status r.code) } in
    add_content disk s >>= λ (done, text). some (done, state_line s.code ++ (header_text s ++ text))

-- `MakeResponse`, with what it appends to the buffer.
unfoldable pub make_response : Disk → Response → Option (Response × Text)
make_response disk r =
    let found = disk.stat (r.src_dir ++ r.path) in
    add_all disk (
      error_html disk
        (record r { file_stat = fill found r.file_stat; code = choose_code found r.code }))
