-- ===== src/HttpRequest/Tests.antt =====
-- A login that is posted.
use embedded_linux_iot_gatew.Prelude.{
  ◌≡◌, refl, true, List, arith, Option, none, some, [], ◌∷◌, ◌++◌, if◌then◌else◌, Text, text_eq,
}
use embedded_linux_iot_gatew.UserStore.{Users, assign, verify, log_in}
use embedded_linux_iot_gatew.UserStore.Words.{skip_space}
use embedded_linux_iot_gatew.HttpRequest.{
  connection, keep_alive, Request, body, finish, init, post_method, content_type, urlencoded,
  login_html, welcome_html, parse_body, parse, parse_lines, parse_line, split_line,
  parse_request_line, scan_request_line, scan_word, take_word, scan_chars, parse_path, parse_header,
  add_header, split_colon, skip_blanks, parse_post, parse_typed, serve_form, user_verify,
  parse_from_urlencoded, decode, decode_turn, decode_char, add_char, decode_last,
}
use embedded_linux_iot_gatew.HttpRequest.Print.{print}
use embedded_linux_iot_gatew.HttpRequest.RoundTrip.{read_back, parse-print}
use embedded_linux_iot_gatew.HttpRequest.Post.{form, outcome, parse_body-verify}

-- "ab" has the password "x".
abbrev ab : Text
ab = b'a' ∷ b'b' ∷ []

abbrev ab_users : Users
ab_users n = if text_eq n ab then some (b'x' ∷ []) else none

abbrev login_request : Request
login_request = record init {
  state = body;
  method = post_method;
  path = login_html;
  header = λ k. some urlencoded;
}

parse_body-verify_example :
    ((parse_body login_request (form ab (b'x' ∷ [])) ab_users).0.state ≡ finish)
    × ((parse_body login_request (form ab (b'x' ∷ [])) ab_users).0.path
        ≡ outcome (verify ab_users ab (b'x' ∷ []) true).0)
    × ((parse_body login_request (form ab (b'x' ∷ [])) ab_users).1
        ≡ (verify ab_users ab (b'x' ∷ []) true).1)
parse_body-verify_example =
    parse_body-verify login_request ab_users ab (b'x' ∷ []) true refl refl refl refl
      (refl, (refl, tt)) (refl, tt)

abbrev line_end : Text
line_end = 13 ∷ 10 ∷ []

abbrev post_login : Text
post_login =
    b'P' ∷ b'O' ∷ b'S' ∷ b'T' ∷ 32 ∷ b'/' ∷ b'l' ∷ b'o' ∷ b'g' ∷ b'i' ∷ b'n' ∷ 32 ∷ b'H' ∷ b'T'
    ∷ b'T' ∷ b'P' ∷ b'/' ∷ b'1' ∷ b'.' ∷ b'1' ∷ []

abbrev typed_line : Text
typed_line = content_type ++ (58 ∷ 32 ∷ urlencoded)

abbrev request_text : Text
request_text =
    post_login ++ (line_end ++ (typed_line ++ (line_end ++ (line_end ++ form ab (b'x' ∷ [])))))

abbrev path_of : Option (Request × Users) → Text
path_of none = []
path_of (some (r, users)) = r.path

welcome : path_of (parse request_text init ab_users) ≡ welcome_html
unfolding parse parse_lines parse_line split_line parse_request_line scan_request_line scan_word
    take_word scan_chars parse_path parse_header add_header split_colon skip_blanks parse_body
    parse_post parse_typed serve_form user_verify verify log_in parse_from_urlencoded decode
    decode_turn decode_char add_char decode_last assign text_eq skip_space
welcome = refl

abbrev get : Text
get = b'G' ∷ b'E' ∷ b'T' ∷ []

abbrev one_one : Text
one_one = b'1' ∷ b'.' ∷ b'1' ∷ []

abbrev keep : List (Text × Text)
keep = (connection, keep_alive) ∷ []

parse-print_example :
    parse (print get (b'/' ∷ []) one_one keep) init ab_users
    ≡ some (read_back get (b'/' ∷ []) one_one keep, ab_users)
parse-print_example =
    parse-print get (b'/' ∷ []) one_one keep ab_users
      (refl, (refl, (refl, (refl, tt))), omega arith) (refl, (refl, tt), omega arith)
      (refl, (refl, (refl, (refl, tt))), omega arith)
      (
        (refl, (refl, (refl, (refl, (refl, (refl, (refl, (refl, (refl, (refl, tt)))))))))),
        (refl, (refl, (refl, (refl, (refl, (refl, (refl, (refl, (refl, (refl, tt)))))))))),
        (refl, (refl, (refl, (refl, (refl, (refl, (refl, (refl, (refl, (refl, tt)))))))))),
        refl,
        tt,
      )
