-- ===== src/HttpRequest.antt =====
-- webServer/code/http/httprequest.cpp: the parser of requests, from the readable bytes of a buffer. A
-- map is a function, a string the list of its bytes, and a char has no sign; no string has a zero
-- byte. What is logged is left out. The accounts of UserStore are passed along.
pub mod Form
pub mod Post
pub mod Print
pub mod RequestLine
pub mod RoundTrip
pub mod Turns
mod Tests
use embedded_linux_iot_gatew.Prelude.{
  ℕ, zero, suc, ◌+◌, ◌-◌, ◌*◌, ◌/◌, ◌%◌, Bool, true, false, ◌&&◌, ◌||◌, Option, none, some, List,
  [], ◌∷◌, ◌++◌, length, ltb, leb, ◌==◌, if◌then◌else◌, ◌>>=◌, Text, text_eq,
}
use embedded_linux_iot_gatew.UserStore.{Users, is_empty, assign, verify}
use embedded_linux_iot_gatew.UserStore.Words.{is_space, skip_space}
unfoldable pub use Form.*

abbrev pub connection : Text
connection = b'C' ∷ b'o' ∷ b'n' ∷ b'n' ∷ b'e' ∷ b'c' ∷ b't' ∷ b'i' ∷ b'o' ∷ b'n' ∷ []

abbrev pub keep_alive : Text
keep_alive = b'k' ∷ b'e' ∷ b'e' ∷ b'p' ∷ b'-' ∷ b'a' ∷ b'l' ∷ b'i' ∷ b'v' ∷ b'e' ∷ []

abbrev pub version_1_1 : Text
version_1_1 = b'1' ∷ b'.' ∷ b'1' ∷ []

abbrev pub post_method : Text
post_method = b'P' ∷ b'O' ∷ b'S' ∷ b'T' ∷ []

abbrev pub content_type : Text
content_type =
    b'C' ∷ b'o' ∷ b'n' ∷ b't' ∷ b'e' ∷ b'n' ∷ b't' ∷ b'-' ∷ b'T' ∷ b'y' ∷ b'p' ∷ b'e' ∷ []

abbrev pub urlencoded : Text
urlencoded =
    b'a' ∷ b'p' ∷ b'p' ∷ b'l' ∷ b'i' ∷ b'c' ∷ b'a' ∷ b't' ∷ b'i' ∷ b'o' ∷ b'n' ∷ b'/' ∷ b'x' ∷ b'-'
    ∷ b'w' ∷ b'w' ∷ b'w' ∷ b'-' ∷ b'f' ∷ b'o' ∷ b'r' ∷ b'm' ∷ b'-' ∷ b'u' ∷ b'r' ∷ b'l' ∷ b'e'
    ∷ b'n' ∷ b'c' ∷ b'o' ∷ b'd' ∷ b'e' ∷ b'd' ∷ []

abbrev pub username : Text
username = b'u' ∷ b's' ∷ b'e' ∷ b'r' ∷ b'n' ∷ b'a' ∷ b'm' ∷ b'e' ∷ []

abbrev pub password : Text
password = b'p' ∷ b'a' ∷ b's' ∷ b's' ∷ b'w' ∷ b'o' ∷ b'r' ∷ b'd' ∷ []

abbrev pub html : Text
html = b'.' ∷ b'h' ∷ b't' ∷ b'm' ∷ b'l' ∷ []

abbrev pub index_html : Text
index_html = b'/' ∷ b'i' ∷ b'n' ∷ b'd' ∷ b'e' ∷ b'x' ∷ b'.' ∷ b'h' ∷ b't' ∷ b'm' ∷ b'l' ∷ []

abbrev pub welcome_html : Text
welcome_html =
    b'/' ∷ b'w' ∷ b'e' ∷ b'l' ∷ b'c' ∷ b'o' ∷ b'm' ∷ b'e' ∷ b'.' ∷ b'h' ∷ b't' ∷ b'm' ∷ b'l' ∷ []

abbrev pub error_html : Text
error_html = b'/' ∷ b'e' ∷ b'r' ∷ b'r' ∷ b'o' ∷ b'r' ∷ b'.' ∷ b'h' ∷ b't' ∷ b'm' ∷ b'l' ∷ []

abbrev pub register_html : Text
register_html =
    b'/' ∷ b'r' ∷ b'e' ∷ b'g' ∷ b'i' ∷ b's' ∷ b't' ∷ b'e' ∷ b'r' ∷ b'.' ∷ b'h' ∷ b't' ∷ b'm' ∷ b'l'
    ∷ []

abbrev pub login_html : Text
login_html = b'/' ∷ b'l' ∷ b'o' ∷ b'g' ∷ b'i' ∷ b'n' ∷ b'.' ∷ b'h' ∷ b't' ∷ b'm' ∷ b'l' ∷ []

abbrev pub http_slash : Text
http_slash = b'H' ∷ b'T' ∷ b'T' ∷ b'P' ∷ b'/' ∷ []

-- `DEFAULT_HTML`
abbrev pub default_html : List Text
default_html =
    (b'/' ∷ b'i' ∷ b'n' ∷ b'd' ∷ b'e' ∷ b'x' ∷ [])
    ∷ (b'/' ∷ b'r' ∷ b'e' ∷ b'g' ∷ b'i' ∷ b's' ∷ b't' ∷ b'e' ∷ b'r' ∷ [])
    ∷ (b'/' ∷ b'l' ∷ b'o' ∷ b'g' ∷ b'i' ∷ b'n' ∷ [])
    ∷ (b'/' ∷ b'w' ∷ b'e' ∷ b'l' ∷ b'c' ∷ b'o' ∷ b'm' ∷ b'e' ∷ [])
    ∷ (b'/' ∷ b'v' ∷ b'i' ∷ b'd' ∷ b'e' ∷ b'o' ∷ [])
    ∷ (b'/' ∷ b'p' ∷ b'i' ∷ b'c' ∷ b't' ∷ b'u' ∷ b'r' ∷ b'e' ∷ [])
    ∷ []

pub data State : Type 0 where
  request_line headers body finish : State

-- `HttpRequest`
pub record Request : Type 0 where
  pub state : State
  pub method : Text
  pub path : Text
  pub version : Text
  pub content : Text
  pub header : Fields
  pub post : Fields

-- `Init`
abbrev pub init : Request
init = record {
  state = request_line;
  method = [];
  path = [];
  version = [];
  content = [];
  header = λ k. none;
  post = λ k. none;
}

abbrev pub equals : Option Text → Text → Bool
equals none t = false
equals (some s) t = text_eq s t

-- `IsKeepAlive`
unfoldable pub is_keep_alive : Request → Bool
is_keep_alive r = equals (r.header connection) keep_alive && text_eq r.version version_1_1

abbrev pub has_text : Text → List Text → Bool
has_text t [] = false
has_text t (u ∷ us) = text_eq u t || has_text t us

-- `ParsePath_`
unfoldable pub parse_path : Request → Request
parse_path r =
    if text_eq r.path (b'/' ∷ [])
    then record r { path = index_html }
    else (if has_text r.path default_html then record r { path = r.path ++ html } else r)

-- %ns of `sscanf`: the word, which has at most `n` chars, and the rest.
unfoldable pub take_word : ℕ → Text → Text × Text
take_word zero text = ([], text)
take_word (suc n) [] = ([], [])
take_word (suc n) (c ∷ text) =
    let (word, rest) = take_word n text in if is_space c then ([], c ∷ text) else (c ∷ word, rest)

unfoldable pub scan_word : ℕ → Text → Option (Text × Text)
scan_word n text =
    let (word, rest) = take_word n (skip_space text) in
    if is_empty word then none else some (word, rest)

-- Chars that stand for themselves in the format of `sscanf`.
unfoldable pub scan_chars : (chars : Text) → Text → Option Text
scan_chars [] text = some text
scan_chars (c ∷ chars) [] = none
scan_chars (c ∷ chars) (d ∷ text) =
    let rest = scan_chars chars text in if c == d then rest else none

-- sscanf(line, "%15s %511s HTTP/%15s", ...), where it reads all three. `c_str` would end
-- the line at a zero byte, which no text here has.
unfoldable pub scan_request_line : Text → Option (Text × Text × Text)
scan_request_line line = scan_word 15 line >>= λ (m, rest). scan_word 511 rest >>= λ (p, rest1).
    scan_chars http_slash (skip_space rest1) >>= λ rest2.
    scan_word 15 rest2 >>= λ (v, rest3). some (m, p, v)

-- `ParseRequestLine_`; `none` is the result false, which changes nothing.
unfoldable pub parse_request_line : Request → Text → Option Request
parse_request_line r line = scan_request_line line >>= λ (m, p, v).
    some (record r { method = m; path = p; version = v; state = headers })

-- The text before the first colon, and behind it.
unfoldable pub split_colon : Text → Option (Text × Text)
split_colon [] = none
split_colon (c ∷ line) =
    let rest = split_colon line in
    if c == 58 then some ([], line) else (rest >>= λ (key, value). some (c ∷ key, value))

unfoldable pub skip_blanks : Text → Text
skip_blanks [] = []
skip_blanks (c ∷ text) = let rest = skip_blanks text in if c == 32 then rest else c ∷ text

unfoldable pub add_header : Request → Option (Text × Text) → Request
add_header r none = record r { state = body }
add_header r (some (key, value)) = record r { header = assign r.header key (skip_blanks value) }

-- `ParseHeader_`
unfoldable pub parse_header : Request → Text → Request
parse_header r line = add_header r (split_colon line)

-- post_[key], which is empty when the key is missing.
abbrev pub or_empty : Option Text → Text
or_empty none = []
or_empty (some t) = t

-- `UserVerify`
unfoldable pub user_verify : Users → (name pwd : Text) → (is_login : Bool) → Bool × Users
user_verify users name pwd is_login =
    if is_empty name || is_empty pwd then (false, users) else verify users name pwd is_login

abbrev pub answer : Request → Bool × Users → Request × Users
answer r (verified, users) =
    (record r { path = elim verified [ true ↦ welcome_html | false ↦ error_html ] }, users)

-- Reading m[key] adds an empty string where the key is missing.
abbrev pub touch : Fields → Text → Fields
touch m key = assign m key (or_empty (m key))

-- The part of `ParsePost_` behind the decoding.
unfoldable pub serve_form : Request → Users → Request × Users
serve_form r users =
    if text_eq r.path register_html || text_eq r.path login_html
    then answer (record r { post = touch (touch r.post username) password })
        (user_verify users (or_empty (r.post username)) (or_empty (r.post password))
          (text_eq r.path login_html))
    else (r, users)

unfoldable pub parse_typed : Request → Users → Request × Users
parse_typed r users =
    if equals (r.header content_type) urlencoded
    then serve_form (record r { post = parse_from_urlencoded r.content r.post }) users
    else (r, users)

-- `ParsePost_`
unfoldable pub parse_post : Request → Users → Request × Users
parse_post r users =
    if text_eq r.method post_method
    then parse_typed (record r { header = touch r.header content_type }) users
    else (r, users)

-- `ParseBody_`
unfoldable pub parse_body : Request → Text → Users → Request × Users
parse_body r line users =
    let (r1, users1) = parse_post (record r { content = line }) users in
    (record r1 { state = finish }, users1)

-- The text before the first "\r\n", and behind it.
unfoldable pub split_line : Text → Option (Text × Text)
split_line [] = none
split_line (c ∷ []) = none
split_line (c ∷ d ∷ text) =
    let rest = split_line (d ∷ text) in
    if c == 13 && d == 10 then some ([], text) else (rest >>= λ (line, more). some (c ∷ line, more))

-- A turn of the loop of `parse` with a line, of a buffer of `len` bytes; `none` is the result false.
unfoldable pub parse_line : (len : ℕ) → Request → Users → Text → State → Option (Request × Users)
parse_line len r users line request_line =
    parse_request_line r line >>= λ r1. some (parse_path r1, users)
parse_line len r users line headers =
    let r1 = parse_header r line in
    some (if leb len 2 then record r1 { state = finish } else r1, users)
parse_line len r users line body = some (parse_body r line users)
parse_line len r users line finish = some (r, users)

abbrev pub is_finished : State → Bool
is_finished finish = true
is_finished s = false

-- The loop of `parse`. The fuel bounds its turns, each of which takes two bytes or is the last.
unfoldable pub parse_lines : (fuel : ℕ) → Text → Request → Users → Option (Request × Users)
parse_lines zero text r users = some (r, users)
parse_lines (suc fuel) text r users =
    if is_empty text || is_finished r.state then some (r, users) else elim (split_line text) [
      | none ↦ parse_line (length text) r users text r.state
      | some (line, more) ↦ parse_line (length text) r users line r.state >>= λ (r1, users1).
          parse_lines fuel more r1 users1
    ]

-- `parse`; `none` is the result false.
unfoldable pub parse : Text → Request → Users → Option (Request × Users)
parse text r users = if is_empty text then none else parse_lines (length text) text r users

-- `GetPost`
abbrev pub get_post : Request → Text → Text
get_post r key = or_empty (r.post key)
