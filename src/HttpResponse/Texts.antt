-- ===== src/HttpResponse/Texts.antt =====
-- The fixed texts of webServer/code/http/httpresponse.cpp.
use embedded_linux_iot_gatew.Prelude.{List, [], ◌∷◌, Text}

abbrev pub line_end : Text
line_end = 13 ∷ 10 ∷ []

abbrev pub ok_status : Text
ok_status = b'O' ∷ b'K' ∷ []

abbrev pub bad_request : Text
bad_request = b'B' ∷ b'a' ∷ b'd' ∷ 32 ∷ b'R' ∷ b'e' ∷ b'q' ∷ b'u' ∷ b'e' ∷ b's' ∷ b't' ∷ []

abbrev pub forbidden : Text
forbidden = b'F' ∷ b'o' ∷ b'r' ∷ b'b' ∷ b'i' ∷ b'd' ∷ b'd' ∷ b'e' ∷ b'n' ∷ []

abbrev pub not_found : Text
not_found = b'N' ∷ b'o' ∷ b't' ∷ 32 ∷ b'F' ∷ b'o' ∷ b'u' ∷ b'n' ∷ b'd' ∷ []

abbrev pub page_400 : Text
page_400 = b'/' ∷ b'4' ∷ b'0' ∷ b'0' ∷ b'.' ∷ b'h' ∷ b't' ∷ b'm' ∷ b'l' ∷ []

abbrev pub page_403 : Text
page_403 = b'/' ∷ b'4' ∷ b'0' ∷ b'3' ∷ b'.' ∷ b'h' ∷ b't' ∷ b'm' ∷ b'l' ∷ []

abbrev pub page_404 : Text
page_404 = b'/' ∷ b'4' ∷ b'0' ∷ b'4' ∷ b'.' ∷ b'h' ∷ b't' ∷ b'm' ∷ b'l' ∷ []

abbrev pub text_plain : Text
text_plain = b't' ∷ b'e' ∷ b'x' ∷ b't' ∷ b'/' ∷ b'p' ∷ b'l' ∷ b'a' ∷ b'i' ∷ b'n' ∷ []

abbrev pub http_version : Text
http_version = b'H' ∷ b'T' ∷ b'T' ∷ b'P' ∷ b'/' ∷ b'1' ∷ b'.' ∷ b'1' ∷ 32 ∷ []

abbrev pub connection_head : Text
connection_head =
    b'C' ∷ b'o' ∷ b'n' ∷ b'n' ∷ b'e' ∷ b'c' ∷ b't' ∷ b'i' ∷ b'o' ∷ b'n' ∷ b':' ∷ 32 ∷ []

abbrev pub keep_alive_head : Text
keep_alive_head =
    b'k' ∷ b'e' ∷ b'e' ∷ b'p' ∷ b'-' ∷ b'a' ∷ b'l' ∷ b'i' ∷ b'v' ∷ b'e' ∷ 13 ∷ 10 ∷ b'k' ∷ b'e'
    ∷ b'e' ∷ b'p' ∷ b'-' ∷ b'a' ∷ b'l' ∷ b'i' ∷ b'v' ∷ b'e' ∷ b':' ∷ 32 ∷ b'm' ∷ b'a' ∷ b'x' ∷ b'='
    ∷ b'6' ∷ b',' ∷ 32 ∷ b't' ∷ b'i' ∷ b'm' ∷ b'e' ∷ b'o' ∷ b'u' ∷ b't' ∷ b'=' ∷ b'1' ∷ b'2' ∷ b'0'
    ∷ 13 ∷ 10 ∷ []

abbrev pub close_head : Text
close_head = b'c' ∷ b'l' ∷ b'o' ∷ b's' ∷ b'e' ∷ 13 ∷ 10 ∷ []

abbrev pub type_head : Text
type_head =
    b'C' ∷ b'o' ∷ b'n' ∷ b't' ∷ b'e' ∷ b'n' ∷ b't' ∷ b'-' ∷ b't' ∷ b'y' ∷ b'p' ∷ b'e' ∷ b':' ∷ 32
    ∷ []

abbrev pub length_head : Text
length_head =
    b'C' ∷ b'o' ∷ b'n' ∷ b't' ∷ b'e' ∷ b'n' ∷ b't' ∷ b'-' ∷ b'l' ∷ b'e' ∷ b'n' ∷ b'g' ∷ b't' ∷ b'h'
    ∷ b':' ∷ 32 ∷ []

abbrev pub error_open : Text
error_open =
    b'<' ∷ b'h' ∷ b't' ∷ b'm' ∷ b'l' ∷ b'>' ∷ b'<' ∷ b't' ∷ b'i' ∷ b't' ∷ b'l' ∷ b'e' ∷ b'>' ∷ b'E'
    ∷ b'r' ∷ b'r' ∷ b'o' ∷ b'r' ∷ b'<' ∷ b'/' ∷ b't' ∷ b'i' ∷ b't' ∷ b'l' ∷ b'e' ∷ b'>' ∷ b'<'
    ∷ b'b' ∷ b'o' ∷ b'd' ∷ b'y' ∷ 32 ∷ b'b' ∷ b'g' ∷ b'c' ∷ b'o' ∷ b'l' ∷ b'o' ∷ b'r' ∷ b'=' ∷ b'"'
    ∷ b'f' ∷ b'f' ∷ b'f' ∷ b'f' ∷ b'f' ∷ b'f' ∷ b'"' ∷ b'>' ∷ []

abbrev pub error_colon : Text
error_colon = 32 ∷ b':' ∷ 32 ∷ []

abbrev pub error_message : Text
error_message =
    10 ∷ b'<' ∷ b'p' ∷ b'>' ∷ b'F' ∷ b'i' ∷ b'l' ∷ b'e' ∷ 32 ∷ b'N' ∷ b'o' ∷ b't' ∷ b'F' ∷ b'o'
    ∷ b'u' ∷ b'n' ∷ b'd' ∷ b'!' ∷ b'<' ∷ b'/' ∷ b'p' ∷ b'>' ∷ []

abbrev pub error_close : Text
error_close =
    b'<' ∷ b'h' ∷ b'r' ∷ b'>' ∷ b'<' ∷ b'e' ∷ b'm' ∷ b'>' ∷ b'T' ∷ b'i' ∷ b'n' ∷ b'y' ∷ b'W' ∷ b'e'
    ∷ b'b' ∷ b'S' ∷ b'e' ∷ b'r' ∷ b'v' ∷ b'e' ∷ b'r' ∷ b'<' ∷ b'/' ∷ b'e' ∷ b'm' ∷ b'>' ∷ b'<'
    ∷ b'/' ∷ b'b' ∷ b'o' ∷ b'd' ∷ b'y' ∷ b'>' ∷ b'<' ∷ b'/' ∷ b'h' ∷ b't' ∷ b'm' ∷ b'l' ∷ b'>' ∷ []

-- `SUFFIX_TYPE`
abbrev pub suffix_type : List (Text × Text)
suffix_type =
    (
      b'.' ∷ b'h' ∷ b't' ∷ b'm' ∷ b'l' ∷ [],
      b't' ∷ b'e' ∷ b'x' ∷ b't' ∷ b'/' ∷ b'h' ∷ b't' ∷ b'm' ∷ b'l' ∷ [],
    )
    ∷ (b'.' ∷ b'x' ∷ b'm' ∷ b'l' ∷ [], b't' ∷ b'e' ∷ b'x' ∷ b't' ∷ b'/' ∷ b'x' ∷ b'm' ∷ b'l' ∷ [])
    ∷ (
      b'.' ∷ b'x' ∷ b'h' ∷ b't' ∷ b'm' ∷ b'l' ∷ [],
      b'a' ∷ b'p' ∷ b'p' ∷ b'l' ∷ b'i' ∷ b'c' ∷ b'a' ∷ b't' ∷ b'i' ∷ b'o' ∷ b'n' ∷ b'/' ∷ b'x'
          ∷ b'h' ∷ b't' ∷ b'm' ∷ b'l' ∷ b'+' ∷ b'x' ∷ b'm' ∷ b'l' ∷ [],
    )
    ∷ (
      b'.' ∷ b't' ∷ b'x' ∷ b't' ∷ [],
      b't' ∷ b'e' ∷ b'x' ∷ b't' ∷ b'/' ∷ b'p' ∷ b'l' ∷ b'a' ∷ b'i' ∷ b'n' ∷ [],
    )
    ∷ (
      b'.' ∷ b'r' ∷ b't' ∷ b'f' ∷ [],
      b'a' ∷ b'p' ∷ b'p' ∷ b'l' ∷ b'i' ∷ b'c' ∷ b'a' ∷ b't' ∷ b'i' ∷ b'o' ∷ b'n' ∷ b'/' ∷ b'r'
          ∷ b't' ∷ b'f' ∷ [],
    )
    ∷ (
      b'.' ∷ b'p' ∷ b'd' ∷ b'f' ∷ [],
      b'a' ∷ b'p' ∷ b'p' ∷ b'l' ∷ b'i' ∷ b'c' ∷ b'a' ∷ b't' ∷ b'i' ∷ b'o' ∷ b'n' ∷ b'/' ∷ b'p'
          ∷ b'd' ∷ b'f' ∷ [],
    )
    ∷ (
      b'.' ∷ b'w' ∷ b'o' ∷ b'r' ∷ b'd' ∷ [],
      b'a' ∷ b'p' ∷ b'p' ∷ b'l' ∷ b'i' ∷ b'c' ∷ b'a' ∷ b't' ∷ b'i' ∷ b'o' ∷ b'n' ∷ b'/' ∷ b'n'
          ∷ b's' ∷ b'w' ∷ b'o' ∷ b'r' ∷ b'd' ∷ [],
    )
    ∷ (
      b'.' ∷ b'p' ∷ b'n' ∷ b'g' ∷ [],
      b'i' ∷ b'm' ∷ b'a' ∷ b'g' ∷ b'e' ∷ b'/' ∷ b'p' ∷ b'n' ∷ b'g' ∷ [],
    )
    ∷ (
      b'.' ∷ b'g' ∷ b'i' ∷ b'f' ∷ [],
      b'i' ∷ b'm' ∷ b'a' ∷ b'g' ∷ b'e' ∷ b'/' ∷ b'g' ∷ b'i' ∷ b'f' ∷ [],
    )
    ∷ (
      b'.' ∷ b'j' ∷ b'p' ∷ b'g' ∷ [],
      b'i' ∷ b'm' ∷ b'a' ∷ b'g' ∷ b'e' ∷ b'/' ∷ b'j' ∷ b'p' ∷ b'e' ∷ b'g' ∷ [],
    )
    ∷ (
      b'.' ∷ b'j' ∷ b'p' ∷ b'e' ∷ b'g' ∷ [],
      b'i' ∷ b'm' ∷ b'a' ∷ b'g' ∷ b'e' ∷ b'/' ∷ b'j' ∷ b'p' ∷ b'e' ∷ b'g' ∷ [],
    )
    ∷ (
      b'.' ∷ b'a' ∷ b'u' ∷ [],
      b'a' ∷ b'u' ∷ b'd' ∷ b'i' ∷ b'o' ∷ b'/' ∷ b'b' ∷ b'a' ∷ b's' ∷ b'i' ∷ b'c' ∷ [],
    )
    ∷ (
      b'.' ∷ b'm' ∷ b'p' ∷ b'e' ∷ b'g' ∷ [],
      b'v' ∷ b'i' ∷ b'd' ∷ b'e' ∷ b'o' ∷ b'/' ∷ b'm' ∷ b'p' ∷ b'e' ∷ b'g' ∷ [],
    )
    ∷ (
      b'.' ∷ b'm' ∷ b'p' ∷ b'g' ∷ [],
      b'v' ∷ b'i' ∷ b'd' ∷ b'e' ∷ b'o' ∷ b'/' ∷ b'm' ∷ b'p' ∷ b'e' ∷ b'g' ∷ [],
    )
    ∷ (
      b'.' ∷ b'a' ∷ b'v' ∷ b'i' ∷ [],
      b'v' ∷ b'i' ∷ b'd' ∷ b'e' ∷ b'o' ∷ b'/' ∷ b'x' ∷ b'-' ∷ b'm' ∷ b's' ∷ b'v' ∷ b'i' ∷ b'd'
          ∷ b'e' ∷ b'o' ∷ [],
    )
    ∷ (
      b'.' ∷ b'g' ∷ b'z' ∷ [],
      b'a' ∷ b'p' ∷ b'p' ∷ b'l' ∷ b'i' ∷ b'c' ∷ b'a' ∷ b't' ∷ b'i' ∷ b'o' ∷ b'n' ∷ b'/' ∷ b'x'
          ∷ b'-' ∷ b'g' ∷ b'z' ∷ b'i' ∷ b'p' ∷ [],
    )
    ∷ (
      b'.' ∷ b't' ∷ b'a' ∷ b'r' ∷ [],
      b'a' ∷ b'p' ∷ b'p' ∷ b'l' ∷ b'i' ∷ b'c' ∷ b'a' ∷ b't' ∷ b'i' ∷ b'o' ∷ b'n' ∷ b'/' ∷ b'x'
          ∷ b'-' ∷ b't' ∷ b'a' ∷ b'r' ∷ [],
    )
    ∷ (
      b'.' ∷ b'c' ∷ b's' ∷ b's' ∷ [],
      b't' ∷ b'e' ∷ b'x' ∷ b't' ∷ b'/' ∷ b'c' ∷ b's' ∷ b's' ∷ 32 ∷ [],
    )
    ∷ (
      b'.' ∷ b'j' ∷ b's' ∷ [],
      b't' ∷ b'e' ∷ b'x' ∷ b't' ∷ b'/' ∷ b'j' ∷ b'a' ∷ b'v' ∷ b'a' ∷ b's' ∷ b'c' ∷ b'r' ∷ b'i'
          ∷ b'p' ∷ b't' ∷ 32 ∷ [],
    )
    ∷ []
