-- ===== src/HttpResponse/Serve.antt =====
-- webServer/code/http/httpresponse.cpp: which file an answer carries, and its head.
use embedded_linux_iot_gatew.Prelude.{
  ℕ, true, false, Option, some, ◌≡◌, refl, ◌∙◌, ap, ap₂, ◌++◌, ◌>>=◌, Text,
}
use embedded_linux_iot_gatew.HttpResponse.{
  Disk, Stat, Response, fill, choose_code, code_path, code_status, go_to, error_html, state_code,
  state_line, is_minus_one, header_text, length_line, map_file, add_content, add_all, make_response,
  page_404,
}

-- What an answer is that has the file mapped.
abbrev pub with_file : Response → Text → Response × Text
with_file r content = (
  record r { file = some content },
  state_line r.code ++ (header_text r ++ length_line r.file_stat.size),
)

pub map_file-content :
    (r : Response)
    → {content : Text} → {found : Option Text} → found ≡ some content
    → is_minus_one content ≡ false
    → map_file r found ≡ some (record r { file = some content }, length_line r.file_stat.size)
unfolding map_file
map_file-content r {content} mapped whole = rw (mapped, whole) refl

pub add_content-file :
    (disk : Disk)
    → (r : Response) → {content : Text} → disk.opens (r.src_dir ++ r.path) ≡ true
    → disk.mapped (r.src_dir ++ r.path) ≡ some content
    → is_minus_one content ≡ false
    → add_content disk r ≡ some (record r { file = some content }, length_line r.file_stat.size)
unfolding add_content
add_content-file disk r opened mapped whole = rw opened (map_file-content r mapped whole)

pub add_all-file :
    (disk : Disk)
    → (r : Response) → {status content : Text} → code_status r.code ≡ some status
    → disk.opens (r.src_dir ++ r.path) ≡ true
    → disk.mapped (r.src_dir ++ r.path) ≡ some content
    → is_minus_one content ≡ false
    → add_all disk r ≡ some (with_file r content)
unfolding add_all state_code
add_all-file disk r {status} {content} known opened mapped whole = rw known (
    ap
      (λ (o : Option (Response × Text)).
        o >>= λ (done, text). some (done, state_line r.code ++ (header_text r ++ text)))
      (add_content-file disk r opened mapped whole))

error_html-fine : (disk : Disk) (r : Response) → r.code ≡ some 200 → error_html disk r ≡ r
unfolding error_html go_to code_path
error_html-fine disk r fine = ap (λ (c : Option ℕ). go_to disk r (code_path c)) fine

choose_code-fine :
    (s : Stat)
    → (code : Option ℕ) → code ≡ some 200
    → s.is_dir ≡ false
    → s.others_read ≡ true
    → choose_code (some s) code ≡ code
unfolding choose_code
choose_code-fine s code fine a_file readable = rw (fine, a_file, readable) refl

-- A request whose name under the source directory is a file that others may read, with the code 200,
-- is answered with 200 OK, a length that is the file's size, and the file that stands under that
-- name, when the file is opened and mapped and does not begin with four bytes 255.
pub make_response-file :
    (disk : Disk)
    → (r : Response) → (s : Stat) → (content : Text) → r.code ≡ some 200
    → disk.stat (r.src_dir ++ r.path) ≡ some s
    → s.is_dir ≡ false
    → s.others_read ≡ true
    → disk.opens (r.src_dir ++ r.path) ≡ true
    → disk.mapped (r.src_dir ++ r.path) ≡ some content
    → is_minus_one content ≡ false
    → make_response disk r ≡ some (with_file (record r { file_stat = s }) content)
unfolding make_response code_status
make_response-file disk r s content fine found a_file readable opened mapped whole =
    let q : Response = record r { file_stat = s } in
    let all : add_all disk q ≡ some (with_file q content) =
      add_all-file disk q (ap code_status fine) opened mapped whole in
    let kept : choose_code (disk.stat (r.src_dir ++ r.path)) r.code ≡ r.code =
      ap (λ (o : Option Stat). choose_code o r.code) found
      ∙ choose_code-fine s r.code fine a_file readable in
    ap₂
      (λ (o : Option Stat) (c : Option ℕ).
        add_all disk (error_html disk (record r { file_stat = fill o r.file_stat; code = c })))
      found kept
    ∙ ap (add_all disk) (error_html-fine disk q fine)
    ∙ all

-- A request whose name under the source directory is missing or a directory is answered with 404 Not
-- Found and the file 404.html of the source directory, whatever code it came with, when that page is
-- there, is opened and mapped and does not begin with four bytes 255.
pub make_response-missing :
    (disk : Disk)
    → (r : Response) → (s : Stat) → (content : Text)
    → choose_code (disk.stat (r.src_dir ++ r.path)) r.code ≡ some 404
    → disk.stat (r.src_dir ++ page_404) ≡ some s
    → disk.opens (r.src_dir ++ page_404) ≡ true
    → disk.mapped (r.src_dir ++ page_404) ≡ some content
    → is_minus_one content ≡ false
    → make_response disk r
      ≡ some (with_file (record r { code = some 404; path = page_404; file_stat = s }) content)
unfolding make_response error_html go_to code_path code_status
make_response-missing disk r s content missing found opened mapped whole =
    let q : Response = record r { code = some 404; path = page_404; file_stat = s } in
    let all : add_all disk q ≡ some (with_file q content) =
      add_all-file disk q refl opened mapped whole in
    rw (missing, found) all
