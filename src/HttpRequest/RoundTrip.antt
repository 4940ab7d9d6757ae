-- ===== src/HttpRequest/RoundTrip.antt =====
-- `parse` of webServer/code/http/httprequest.cpp on requests as a client prints them.
use embedded_linux_iot_gatew.Prelude.{
  ℕ, zero, suc, ◌≡◌, refl, ap, sym, ◌+◌, ◌∙◌, ◌<◌, ◌||◌, false, none, some, List, [], ◌∷◌, ◌++◌,
  length, arith, Text, leb, length-append,
}
use embedded_linux_iot_gatew.UserStore.{Users, is_empty, assign}
use embedded_linux_iot_gatew.HttpRequest.{
  Request, init, headers, finish, is_finished, split_colon, add_header, parse_header, split_line,
  parse_request_line, parse_line, parse_lines, parse,
}
use embedded_linux_iot_gatew.HttpRequest.Turns.{parse_lines-enough}
use embedded_linux_iot_gatew.HttpRequest.RequestLine.{
  Without, IsWord, first_line, scan_request_line-print,
}
use embedded_linux_iot_gatew.HttpRequest.Print.{
  line_end, print_header, print_headers, print, AreHeaders, add_fields, split_line-print,
  parse_header-print, is_empty-append, print_header-free, page_path, parse_path-page_path,
  first_line-Without, is_colon, starts_blank,
}

parse_lines-turn :
    (fuel : ℕ) (text line more : Text) (r r1 : Request) (users users1 : Users)
    → (is_empty text || is_finished r.state) ≡ false
    → split_line text ≡ some (line, more)
    → parse_line (length text) r users line r.state ≡ some (r1, users1)
    → parse_lines (suc fuel) text r users ≡ parse_lines fuel more r1 users1
unfolding parse_lines
parse_lines-turn fuel text line more r r1 users users1 goes_on split parsed =
    rw (goes_on, split, parsed) refl

parse_lines-nil :
    (fuel : ℕ) (r : Request) (users : Users) → parse_lines fuel [] r users ≡ some (r, users)
unfolding parse_lines
parse_lines-nil zero r users = refl
parse_lines-nil (suc fuel) r users = refl

-- A line of headers that is not the last.
parse_line-header :
    (len : ℕ) (r : Request) (users : Users) (key value : Text)
    → 2 < len
    → Without is_colon key
    → starts_blank value ≡ false
    → parse_line len r users (print_header (key, value)) headers
      ≡ some (record r { header = assign r.header key value }, users)
unfolding parse_line
parse_line-header len r users key value long free first =
    let more : leb len 2 ≡ false = ground arith in
    rw (parse_header-print r key value free first, more) refl

-- The empty line with which the buffer ends.
parse_line-end :
    (r : Request) (users : Users)
    → parse_line 2 r users [] headers ≡ some (record r { state = finish }, users)
unfolding parse_line parse_header add_header split_colon
parse_line-end r users = refl

parse_lines-headers :
    (hs : List (Text × Text)) (extra : ℕ) (r : Request) (users : Users)
    → AreHeaders hs
    → parse_lines (length hs + suc extra) (print_headers hs) (record r { state = headers }) users
      ≡ some (record r { state = finish; header = add_fields r.header hs }, users)
parse_lines-headers [] extra r users fine =
    let e : 0 + suc extra ≡ suc extra = omega arith in
    ap (λ n. parse_lines n line_end (record r { state = headers }) users) e
    ∙ parse_lines-turn extra line_end [] [] (record r { state = headers })
        (record r { state = finish }) users users refl (split_line-print [] [] tt)
        (parse_line-end (record r { state = headers }) users)
    ∙ parse_lines-nil extra (record r { state = finish }) users
parse_lines-headers ((key, value) ∷ hs) extra r users
      (colons, returns, value_returns, first, fine) =
    let line : Text = print_header (key, value) in
    let text : Text = line ++ (13 ∷ 10 ∷ print_headers hs) in
    let here : Request = record r { state = headers } in
    let next : Request = record r { state = headers; header = assign r.header key value } in
    let e : suc (length hs) + suc extra ≡ suc (length hs + suc extra) = omega arith in
    let long : 2 < length text = omega (
      arith,
      length-append line (13 ∷ 10 ∷ print_headers hs),
      length-append key (58 ∷ 32 ∷ value),
    ) in
    ap (λ n. parse_lines n text here users) e
    ∙ parse_lines-turn (length hs + suc extra) text line (print_headers hs) here next users users
        (rw (is_empty-append line 13 (10 ∷ print_headers hs)) refl)
        (split_line-print line (print_headers hs)
          (print_header-free key value returns value_returns))
        (parse_line-header (length text) here users key value long colons first)
    ∙ parse_lines-headers hs extra (record r { header = assign r.header key value }) users fine

-- What a request without a body is read as.
abbrev pub read_back : (method path version : Text) → List (Text × Text) → Request
read_back m p v hs = record init {
  state = finish;
  method = m;
  path = page_path p;
  version = v;
  header = add_fields (λ k. none) hs;
}

parse_line-first :
    (len : ℕ) (m p v : Text) (users : Users)
    → IsWord 15 m
    → IsWord 511 p
    → IsWord 15 v
    → parse_line len init users (first_line m p v) init.state
      ≡ some (record init { state = headers; method = m; path = page_path p; version = v }, users)
unfolding parse_line parse_request_line
parse_line-first len m p v users method path version =
    rw (scan_request_line-print m p v method path version) (
      ap (λ r. some (r, users))
        (parse_path-page_path (record init { state = headers; method = m; path = p; version = v })))

-- A request without a body that a client prints is read back by `parse`, with the path of the page
-- and every header, and the accounts are as they were: for a method and a version of at most 15
-- chars and a path of at most 511, which are not empty and hold no space, and headers whose names
-- hold no colon, whose values do not begin with a blank, and that hold no carriage return.
pub parse-print :
    (m p v : Text)
    → (hs : List (Text × Text)) → (users : Users) → IsWord 15 m
    → IsWord 511 p
    → IsWord 15 v
    → AreHeaders hs
    → parse (print m p v hs) init users ≡ some (read_back m p v hs, users)
unfolding parse
parse-print m p v hs users method path version fine =
    let line : Text = first_line m p v in
    let text : Text = print m p v hs in
    let next : Request = record init {
      state = headers;
      method = m;
      path = page_path p;
      version = v;
    } in
    let turns : ℕ = length hs + suc (length text) in
    rw (is_empty-append line 13 (10 ∷ print_headers hs)) (
      sym (parse_lines-enough (suc turns) text init users (omega arith))
      ∙ parse_lines-turn turns text line (print_headers hs) init next users users
          (rw (is_empty-append line 13 (10 ∷ print_headers hs)) refl)
          (split_line-print line (print_headers hs)
            (first_line-Without m p v method.1 path.1 version.1))
          (parse_line-first (length text) m p v users method path version)
      ∙ parse_lines-headers hs (length text) next users fine)
