-- ===== src/HttpConn.antt =====
-- webServer/code/http/httpconn.cpp: a connection, which reads requests and writes answers. A buffer
-- (webServer/code/buffer/buffer.cpp) is its readable bytes. Of the two parts that `writev` sends,
-- `iov0` and `iov1` are the bytes that are left. What a socket gives and takes, the file system and
-- the accounts are arguments. A failing assertion is `none`. What is logged, with the peer's
-- address, is left out.
pub mod Advance
pub mod Write
pub mod Answer
pub mod Open
pub mod Serve
mod Tests
use embedded_linux_iot_gatew.Prelude.{
  ℕ, zero, suc, ◌+◌, ◌-◌, ◌%◌, Bool, true, false, ◌&&◌, ◌||◌, not, Option, none, some, List, [],
  ◌∷◌, ◌++◌, length, take, drop, ltb, leb, ◌==◌, if◌then◌else◌, ◌>>=◌, Text,
}
use embedded_linux_iot_gatew.UserStore.{Users, is_empty}
use embedded_linux_iot_gatew.HttpRequest.{
  Request, is_finished, is_keep_alive, split_line, parse_line, parse,
}
use embedded_linux_iot_gatew.HttpResponse.{Disk, Response, no_stat, make_response}
use embedded_linux_iot_gatew.HttpRequest
use embedded_linux_iot_gatew.HttpResponse

-- `HttpConn`; the descriptor -1 is `none`.
pub record Conn : Type 0 where
  pub fd : Option ℕ
  pub is_close : Bool
  pub iov_cnt : ℕ
  pub iov0 : Text
  pub iov1 : Text
  pub read_buff : Text
  pub write_buff : Text
  pub request : Request
  pub response : Response

-- How many bytes of an offer `writev` takes at each turn, where `none` is -1, and `errno` behind it.
pub record Socket : Type 0 where
  pub writev : (turn : ℕ) → Text → Option ℕ
  pub errno : (turn : ℕ) → ℕ

-- The constructor, which leaves the parts to be sent as the memory `raw` has them.
abbrev pub new_conn : (raw : Conn) → Conn
new_conn raw = record raw {
  fd = none;
  is_close = true;
  read_buff = [];
  write_buff = [];
  request = HttpRequest.init;
  response = record {
    code = none;
    keep_alive = false;
    path = [];
    src_dir = [];
    file = none;
    file_stat = no_stat;
  };
}

-- `init`, which counts the connection; `none` is its failing assertion.
unfoldable pub init : (fd : ℕ) → Conn → (user_count : ℕ) → Option (Conn × ℕ)
init fd c user_count =
    if fd == 0
    then none
    else some (
      record c { fd = some fd; read_buff = []; write_buff = []; is_close = false },
      user_count + 1,
    )

abbrev pub unmap_file : Response → Response
unmap_file r = record r { file = none }

-- `Close` behind its test of isClose_.
abbrev pub count_off : Conn → (user_count : ℕ) → Conn × ℕ
count_off c user_count = (record c { is_close = true }, user_count - 1)

-- `Close`, which closes the descriptor when the result says so.
unfoldable pub close : Conn → (user_count : ℕ) → Conn × ℕ × Bool
close c user_count =
    let d = record c { response = unmap_file c.response } in
    if d.is_close
    then (d, user_count, false)
    else (let (e, count) = count_off d user_count in (e, count, true))

-- `read`, with what `ReadFd` puts into the buffer at each turn, until the peer has closed or
-- there is an error.
unfoldable pub read : (is_et : Bool) → List Text → (closed : Bool) → Conn → Option ℕ × Conn
read is_et [] closed c = (if closed then some 0 else none, c)
read is_et (t ∷ ts) closed c =
    let d = record c { read_buff = c.read_buff ++ t } in
    let rest = read is_et ts closed d in
    if is_empty t then (some 0, c) else (if is_et then rest else (some (length t), d))

-- `Retrieve` of a buffer; `none` is its failing assertion.
unfoldable pub retrieve : ℕ → Text → Option Text
retrieve n buff = if leb n (length buff) then some (drop n buff) else none

abbrev pub bytes_left : Conn → ℕ
bytes_left c = length c.iov0 + length c.iov1

-- `ToWriteBytes`, as the bits of its `int`.
unfoldable pub to_write_bytes : Conn → ℕ
to_write_bytes c = bytes_left c % 4294967296

-- ToWriteBytes() > 10240
unfoldable pub has_much : Conn → Bool
has_much c = ltb 10240 (to_write_bytes c) && ltb (to_write_bytes c) 2147483648

-- What `writev` is offered.
unfoldable pub offer : Conn → Text
offer c = c.iov0 ++ (if c.iov_cnt == 2 then c.iov1 else [])

-- What the loop of `write` does with the bytes that have been sent.
unfoldable pub advance : ℕ → Conn → Option Conn
advance len c =
    if ltb (length c.iov0) len
    then some (record c {
      iov1 = drop (len - length c.iov0) c.iov1;
      iov0 = [];
      write_buff = if is_empty c.iov0 then c.write_buff else [];
    })
    else (retrieve len c.write_buff >>= λ buff.
        some (record c { iov0 = drop len c.iov0; write_buff = buff }))

-- The end of `write`: the bytes that it has sent, its result, `none` for -1, and what `saveErrno`
-- has got.
pub record Written : Type 0 where
  pub conn : Conn
  pub sent : Text
  pub len : Option ℕ
  pub save_errno : Option ℕ

-- `write`, from a turn on, with the bytes that have been sent. The fuel bounds its turns.
unfoldable pub write_from :
    (fuel : ℕ) → Socket → (is_et : Bool) → (turn : ℕ) → (sent : Text) → Conn → Option Written
write_from zero socket is_et turn sent c = none
write_from (suc fuel) socket is_et turn sent c = elim (socket.writev turn (offer c)) [
  | none ↦
      some (record { conn = c; sent = sent; len = none; save_errno = some (socket.errno turn) })
  | some zero ↦
      some (record { conn = c; sent = sent; len = some 0; save_errno = some (socket.errno turn) })
  | some (suc k) ↦
      if bytes_left c == 0
      then some (record { conn = c; sent = sent; len = some (suc k); save_errno = none })
      else (advance (suc k) c >>= λ d.
          if is_et || has_much d
          then write_from fuel socket is_et (suc turn) (sent ++ take (suc k) (offer c)) d
          else some (record {
            conn = d;
            sent = sent ++ take (suc k) (offer c);
            len = some (suc k);
            save_errno = none;
          }))
]

unfoldable pub write : (fuel : ℕ) → Socket → (is_et : Bool) → Conn → Option Written
write fuel socket is_et c = write_from fuel socket is_et 0 [] c

-- What the loop of `parse` leaves in the buffer.
unfoldable pub rest_lines : (fuel : ℕ) → Text → Request → Users → Text
rest_lines zero text r users = text
rest_lines (suc fuel) text r users =
    if is_empty text || is_finished r.state then text else elim (split_line text) [
      | none ↦ text
      | some (line, more) ↦ elim (parse_line (length text) r users line r.state) [
        | none ↦ text
        | some (r1, users1) ↦ rest_lines fuel more r1 users1
      ]
    ]

abbrev pub set_file : Conn → Option Text → Conn
set_file c none = c
set_file c (some content) = record c { iov1 = content; iov_cnt = 2 }

-- The parts that are to be sent, when the answer has been made.
unfoldable pub set_iov : Conn → Response → Text → Conn
set_iov c r text =
    let buff = c.write_buff ++ text in
    let d = record c { write_buff = buff; iov0 = buff; iov_cnt = 1; response = r } in
    if ltb 0 r.file_stat.size then set_file d r.file else d

abbrev pub set_answer : Users → Conn → Response × Text → Option (Conn × Users)
set_answer users c (r, text) = some (set_iov c r text, users)

-- The answer to a request that has been parsed, or to one that has not.
unfoldable pub respond :
    Disk → (src_dir : Text) → Users → Conn → Option (Request × Users) → Option (Conn × Users)
respond disk src_dir users c none =
    HttpResponse.init src_dir HttpRequest.init.path false (some 400) >>= λ q.
    make_response disk q >>= set_answer users c
respond disk src_dir users c (some (request, users1)) =
    HttpResponse.init src_dir request.path (is_keep_alive request) (some 200) >>= λ q.
    make_response disk q >>= set_answer users1 (record c { request = request })

-- `process`; the Boolean is its result.
unfoldable pub process : Disk → (src_dir : Text) → Users → Conn → Option (Bool × Conn × Users)
process disk src_dir users c =
    let d = record c { request = HttpRequest.init } in
    if is_empty c.read_buff
    then some (false, d, users)
    else (respond disk src_dir users
          (record d {
            read_buff = rest_lines (length c.read_buff) c.read_buff HttpRequest.init users;
          })
          (parse c.read_buff HttpRequest.init users)
        >>= λ (e, users1). some (true, e, users1))
