-- ===== src/HttpResponse/Tests.antt =====
-- The type of a page, and an answer for which there is no page.
use embedded_linux_iot_gatew.Prelude.{◌≡◌, refl, false, Option, none, some, [], ◌∷◌, Text, text_eq}
use embedded_linux_iot_gatew.LogMng.Name.{digits}
use embedded_linux_iot_gatew.HttpResponse.{
  Disk, Response, no_stat, choose_code, error_html, go_to, code_path, add_all, state_code,
  code_status, state_line, code_text, to_string, header_text, get_file_type, last_suffix, find_type,
  add_content, error_content, error_page, make_response,
}

style :
    get_file_type (b'/' ∷ b'a' ∷ b'.' ∷ b'b' ∷ b'.' ∷ b'c' ∷ b's' ∷ b's' ∷ [])
    ≡ b't' ∷ b'e' ∷ b'x' ∷ b't' ∷ b'/' ∷ b'c' ∷ b's' ∷ b's' ∷ 32 ∷ []
unfolding get_file_type last_suffix find_type text_eq
style = refl

abbrev empty_disk : Disk
empty_disk = record { stat = λ name. none; opens = λ name. false; mapped = λ name. none }

abbrev asked : Response
asked = record {
  code = some 200;
  keep_alive = false;
  path = [];
  src_dir = [];
  file = none;
  file_stat = no_stat;
}

abbrev appended : Option (Response × Text) → Text
appended none = []
appended (some (r, text)) = text

no_page :
    appended (make_response empty_disk asked)
    ≡ b'H' ∷ b'T' ∷ b'T' ∷ b'P' ∷ b'/' ∷ b'1' ∷ b'.' ∷ b'1' ∷ 32 ∷ b'4' ∷ b'0' ∷ b'4' ∷ 32 ∷ b'N'
      ∷ b'o' ∷ b't' ∷ 32 ∷ b'F' ∷ b'o' ∷ b'u' ∷ b'n' ∷ b'd' ∷ 13 ∷ 10 ∷ b'C' ∷ b'o' ∷ b'n' ∷ b'n'
      ∷ b'e' ∷ b'c' ∷ b't' ∷ b'i' ∷ b'o' ∷ b'n' ∷ b':' ∷ 32 ∷ b'c' ∷ b'l' ∷ b'o' ∷ b's' ∷ b'e' ∷ 13
      ∷ 10 ∷ b'C' ∷ b'o' ∷ b'n' ∷ b't' ∷ b'e' ∷ b'n' ∷ b't' ∷ b'-' ∷ b't' ∷ b'y' ∷ b'p' ∷ b'e'
      ∷ b':' ∷ 32 ∷ b't' ∷ b'e' ∷ b'x' ∷ b't' ∷ b'/' ∷ b'h' ∷ b't' ∷ b'm' ∷ b'l' ∷ 13 ∷ 10 ∷ b'C'
      ∷ b'o' ∷ b'n' ∷ b't' ∷ b'e' ∷ b'n' ∷ b't' ∷ b'-' ∷ b'l' ∷ b'e' ∷ b'n' ∷ b'g' ∷ b't' ∷ b'h'
      ∷ b':' ∷ 32 ∷ b'1' ∷ b'2' ∷ b'6' ∷ 13 ∷ 10 ∷ 13 ∷ 10 ∷ b'<' ∷ b'h' ∷ b't' ∷ b'm' ∷ b'l' ∷ b'>'
      ∷ b'<' ∷ b't' ∷ b'i' ∷ b't' ∷ b'l' ∷ b'e' ∷ b'>' ∷ b'E' ∷ b'r' ∷ b'r' ∷ b'o' ∷ b'r' ∷ b'<'
      ∷ b'/' ∷ b't' ∷ b'i' ∷ b't' ∷ b'l' ∷ b'e' ∷ b'>' ∷ b'<' ∷ b'b' ∷ b'o' ∷ b'd' ∷ b'y' ∷ 32
      ∷ b'b' ∷ b'g' ∷ b'c' ∷ b'o' ∷ b'l' ∷ b'o' ∷ b'r' ∷ b'=' ∷ 34 ∷ b'f' ∷ b'f' ∷ b'f' ∷ b'f'
      ∷ b'f' ∷ b'f' ∷ 34 ∷ b'>' ∷ b'4' ∷ b'0' ∷ b'4' ∷ 32 ∷ b':' ∷ 32 ∷ b'N' ∷ b'o' ∷ b't' ∷ 32
      ∷ b'F' ∷ b'o' ∷ b'u' ∷ b'n' ∷ b'd' ∷ 10 ∷ b'<' ∷ b'p' ∷ b'>' ∷ b'F' ∷ b'i' ∷ b'l' ∷ b'e' ∷ 32
      ∷ b'N' ∷ b'o' ∷ b't' ∷ b'F' ∷ b'o' ∷ b'u' ∷ b'n' ∷ b'd' ∷ b'!' ∷ b'<' ∷ b'/' ∷ b'p' ∷ b'>'
      ∷ b'<' ∷ b'h' ∷ b'r' ∷ b'>' ∷ b'<' ∷ b'e' ∷ b'm' ∷ b'>' ∷ b'T' ∷ b'i' ∷ b'n' ∷ b'y' ∷ b'W'
      ∷ b'e' ∷ b'b' ∷ b'S' ∷ b'e' ∷ b'r' ∷ b'v' ∷ b'e' ∷ b'r' ∷ b'<' ∷ b'/' ∷ b'e' ∷ b'm' ∷ b'>'
      ∷ b'<' ∷ b'/' ∷ b'b' ∷ b'o' ∷ b'd' ∷ b'y' ∷ b'>' ∷ b'<' ∷ b'/' ∷ b'h' ∷ b't' ∷ b'm' ∷ b'l'
      ∷ b'>' ∷ []
unfolding make_response choose_code error_html go_to code_path add_all state_code code_status
    state_line code_text to_string digits header_text get_file_type last_suffix find_type text_eq
    add_content error_content error_page
no_page = refl
