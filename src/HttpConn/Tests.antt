-- ===== src/HttpConn/Tests.antt =====
-- A page that is asked for and sent, and a request that is not one.
use embedded_linux_iot_gatew.Prelude.{
  suc, ◌≡◌, refl, Bool, true, false, Option, none, some, List, [], ◌∷◌, ◌++◌, length, if◌then◌else◌,
  Text, text_eq, arith, min, unsome,
}
use embedded_linux_iot_gatew.UserStore.{Users}
use embedded_linux_iot_gatew.LogMng.Name.{digits}
use embedded_linux_iot_gatew.UserStore.{assign}
use embedded_linux_iot_gatew.UserStore.Words.{skip_space}
use embedded_linux_iot_gatew.HttpRequest.{
  is_keep_alive, parse, parse_lines, parse_line, split_line, parse_request_line, scan_request_line,
  scan_word, take_word, scan_chars, parse_path, parse_header, add_header, split_colon, skip_blanks,
}
use embedded_linux_iot_gatew.HttpRequest
use embedded_linux_iot_gatew.HttpRequest.Print.{print, page_path}
use embedded_linux_iot_gatew.HttpRequest.RoundTrip.{read_back}
use embedded_linux_iot_gatew.HttpResponse.{
  Disk, Stat, no_stat, not_found, ok_status, page_404, make_response, choose_code, error_html,
  go_to, code_path, add_all, state_code, code_status, state_line, code_text, to_string, header_text,
  get_file_type, last_suffix, find_type, add_content, map_file,
}
use embedded_linux_iot_gatew.HttpConn.{
  Conn, Socket, Written, bytes_left, offer, write, process, respond, set_iov, rest_lines,
  write_from, advance, retrieve, has_much,
}
use embedded_linux_iot_gatew.HttpConn.Write.{IsHonest, IsEnd, write-IsEnd}
use embedded_linux_iot_gatew.HttpConn.Answer.{two_hundred, four_zero_four, page_head, Offers}
use embedded_linux_iot_gatew.HttpConn.Serve.{process-print, process-refused}

abbrev root : Text
root = b'/' ∷ b'w' ∷ []

abbrev hi : Text
hi = b'h' ∷ b'i' ∷ []

abbrev a_file : Stat
a_file = record { is_dir = false; others_read = true; size = 2 }

abbrev a_dir : Stat
a_dir = record { is_dir = true; others_read = true; size = 2 }

-- Every name but the source directory is a page.
abbrev disk : Disk
disk = record {
  stat = λ name. some (if text_eq name root then a_dir else a_file);
  opens = λ name. true;
  mapped = λ name. some hi;
}

-- Takes at most 20 bytes at a time.
abbrev slow : Socket
slow = record { writev = λ turn text. some (min 20 (length text)); errno = λ turn. 11 }

slow-IsHonest : IsHonest slow
slow-IsHonest turn text k took = omega (arith, unsome took)

abbrev no_users : Users
no_users name = none

abbrev get : Text
get = b'G' ∷ b'E' ∷ b'T' ∷ []

abbrev one_one : Text
one_one = b'1' ∷ b'.' ∷ b'1' ∷ []

abbrev host : List (Text × Text)
host = (b'H' ∷ b'o' ∷ b's' ∷ b't' ∷ [], b'a' ∷ []) ∷ []

abbrev conn : Text → Conn
conn text = record {
  fd = some 5;
  is_close = false;
  iov_cnt = 0;
  iov0 = [];
  iov1 = [];
  read_buff = text;
  write_buff = [];
  request = HttpRequest.init;
  response = record {
    code = none;
    keep_alive = false;
    path = [];
    src_dir = [];
    file = none;
    file_stat = no_stat;
  };
}

abbrev asked : Text
asked = print get (b'/' ∷ []) one_one host

process-print_example :
    (d : Conn) × (process disk root no_users (conn asked) ≡ some (true, d, no_users))
    × ((w : Written) × (write (suc (bytes_left d)) slow true d ≡ some w)
        × (w.sent ++ offer w.conn
            ≡ page_head
                (two_hundred ++ ok_status)
                (is_keep_alive (read_back get (b'/' ∷ []) one_one host))
                (page_path (b'/' ∷ []))
                2
              ++ hi))
unfolding text_eq
process-print_example =
    process-print disk root no_users (conn asked) get (b'/' ∷ []) one_one host a_file hi slow true
      refl refl refl (refl, (refl, (refl, (refl, tt))), omega arith) (refl, (refl, tt), omega arith)
      (refl, (refl, (refl, (refl, tt))), omega arith)
      ((refl, (refl, (refl, (refl, tt)))), (refl, (refl, (refl, (refl, tt)))), (refl, tt), refl, tt)
      (record { found = refl; opened = refl; mapped = refl; whole = refl; full = omega arith }) refl
      refl slow-IsHonest

abbrev nonsense : Text
nonsense = b'x' ∷ 13 ∷ 10 ∷ []

process-refused_example :
    (d : Conn) × (process disk root no_users (conn nonsense) ≡ some (true, d, no_users))
    × Offers (page_head (four_zero_four ++ not_found) false page_404 2 ++ hi) d
unfolding text_eq parse parse_lines parse_line split_line parse_request_line scan_request_line
    scan_word take_word skip_space
process-refused_example =
    process-refused disk root no_users (conn nonsense) a_dir a_file hi refl refl refl refl refl refl
      (record { found = refl; opened = refl; mapped = refl; whole = refl; full = omega arith })

-- Two parts that are sent.
abbrev sending : Conn
sending = record (conn []) { iov_cnt = 2; iov0 = hi; iov1 = root; write_buff = hi }

write-IsEnd_example :
    (w : Written) × (write 5 slow false sending ≡ some w) × IsEnd slow false [] sending w
write-IsEnd_example = write-IsEnd 5 slow slow-IsHonest false sending refl (omega arith)

abbrev answer_text : Text
answer_text =
    b'H' ∷ b'T' ∷ b'T' ∷ b'P' ∷ b'/' ∷ b'1' ∷ b'.' ∷ b'1' ∷ 32 ∷ b'2' ∷ b'0' ∷ b'0' ∷ 32 ∷ b'O'
    ∷ b'K' ∷ 13 ∷ 10 ∷ b'C' ∷ b'o' ∷ b'n' ∷ b'n' ∷ b'e' ∷ b'c' ∷ b't' ∷ b'i' ∷ b'o' ∷ b'n' ∷ b':'
    ∷ 32 ∷ b'c' ∷ b'l' ∷ b'o' ∷ b's' ∷ b'e' ∷ 13 ∷ 10 ∷ b'C' ∷ b'o' ∷ b'n' ∷ b't' ∷ b'e' ∷ b'n'
    ∷ b't' ∷ b'-' ∷ b't' ∷ b'y' ∷ b'p' ∷ b'e' ∷ b':' ∷ 32 ∷ b't' ∷ b'e' ∷ b'x' ∷ b't' ∷ b'/' ∷ b'h'
    ∷ b't' ∷ b'm' ∷ b'l' ∷ 13 ∷ 10 ∷ b'C' ∷ b'o' ∷ b'n' ∷ b't' ∷ b'e' ∷ b'n' ∷ b't' ∷ b'-' ∷ b'l'
    ∷ b'e' ∷ b'n' ∷ b'g' ∷ b't' ∷ b'h' ∷ b':' ∷ 32 ∷ b'2' ∷ 13 ∷ 10 ∷ 13 ∷ 10 ∷ b'h' ∷ b'i' ∷ []

abbrev offered : Option (Bool × Conn × Users) → Text
offered none = []
offered (some (done, c, users)) = offer c

abbrev sent_of : Option Written → Text
sent_of none = []
sent_of (some w) = w.sent

get_root : offered (process disk root no_users (conn asked)) ≡ answer_text
unfolding process respond set_iov offer text_eq parse parse_lines parse_line split_line
    parse_request_line scan_request_line scan_word take_word skip_space scan_chars parse_path
    parse_header add_header split_colon skip_blanks assign rest_lines is_keep_alive make_response
    choose_code error_html go_to code_path add_all state_code code_status state_line code_text
    to_string digits header_text get_file_type last_suffix find_type add_content map_file
get_root = refl

two_parts : sent_of (write 5 slow true sending) ≡ hi ++ root
unfolding write write_from offer advance retrieve has_much
two_parts = refl
