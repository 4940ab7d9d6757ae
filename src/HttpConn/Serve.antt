-- ===== src/HttpConn/Serve.antt =====
-- Requests and their answers, from the bytes that are read to those that are sent
-- (webServer/code/http/httpconn.cpp, httprequest.cpp and httpresponse.cpp).
use embedded_linux_iot_gatew.Prelude.{
  suc, ◌<◌, ◌≡◌, refl, ap, ◌∙◌, subst, Bool, true, false, Option, none, some, List, [], ◌∷◌, ◌++◌,
  length, ◌>>=◌, Text, arith, append-nil,
}
use embedded_linux_iot_gatew.UserStore.{Users, is_empty}
use embedded_linux_iot_gatew.HttpRequest.{Request, is_keep_alive, parse}
use embedded_linux_iot_gatew.HttpRequest.RequestLine.{IsWord, first_line}
use embedded_linux_iot_gatew.HttpRequest.Print.{
  AreHeaders, print, print_headers, page_path, is_empty-append,
}
use embedded_linux_iot_gatew.HttpRequest.RoundTrip.{read_back, parse-print}
use embedded_linux_iot_gatew.HttpResponse.{
  Disk, Stat, Response, no_stat, is_minus_one, choose_code, make_response, ok_status, page_404,
  not_found,
}
use embedded_linux_iot_gatew.HttpResponse.Serve.{
  with_file, make_response-file, make_response-missing,
}
use embedded_linux_iot_gatew.HttpConn.{
  Conn, Socket, Written, bytes_left, offer, write, rest_lines, set_iov, respond, process,
}
use embedded_linux_iot_gatew.HttpConn.Write.{IsHonest, write-IsEnd}
use embedded_linux_iot_gatew.HttpRequest
use embedded_linux_iot_gatew.HttpConn.Answer.{
  two_hundred, four_zero_four, page_head, Offers, set_iov-Offers, page_head-ok, page_head-missing,
}

-- A file system that has a page under the name.
pub record Serves (disk : Disk) (name : Text) (s : Stat) (content : Text) : Type 0 where
  pub found : disk.stat name ≡ some s
  pub opened : disk.opens name ≡ true
  pub mapped : disk.mapped name ≡ some content
  pub whole : is_minus_one content ≡ false
  pub full : 0 < s.size

-- A request that has been parsed, for a page that others may read.
respond-Offers :
    (disk : Disk) (src_dir : Text) (users users1 : Users) (c : Conn) (request : Request) (s : Stat)
    (content : Text)
    → is_empty src_dir ≡ false
    → c.write_buff ≡ []
    → Serves disk (src_dir ++ request.path) s content
    → s.is_dir ≡ false
    → s.others_read ≡ true
    → (d : Conn) × (respond disk src_dir users c (some (request, users1)) ≡ some (d, users1))
      × Offers
          (page_head (two_hundred ++ ok_status) (is_keep_alive request) request.path s.size
            ++ content)
          d
unfolding respond
respond-Offers disk src_dir users users1 c request s content dir empty page a_file readable =
    let q : Response = record {
      code = some 200;
      keep_alive = is_keep_alive request;
      path = request.path;
      src_dir = src_dir;
      file = none;
      file_stat = no_stat;
    } in
    let answer : Response = record q { file_stat = s } in
    let made =
      make_response-file disk q s content refl page.found a_file readable page.opened page.mapped
        page.whole in
    let text : Text = (with_file answer content).1 in
    let r : Response = (with_file answer content).0 in
    let e : Conn = record c { request = request } in
    (
      set_iov e r text,
      rw dir (
          ap (λ (o : Option (Response × Text)). o >>= λ (r, text). some (set_iov e r text, users1))
            made),
      subst (λ t. Offers (t ++ content) (set_iov e r text)) (page_head-ok answer content refl)
          (set_iov-Offers e r text content empty refl page.full),
    )

-- An answer 404 with the page 404.html, to a name that is missing or a directory.
missing-Offers :
    (disk : Disk) (src_dir : Text) (c : Conn) (q : Response) (s : Stat) (content : Text)
    → q.src_dir ≡ src_dir
    → c.write_buff ≡ []
    → choose_code (disk.stat (q.src_dir ++ q.path)) q.code ≡ some 404
    → Serves disk (q.src_dir ++ page_404) s content
    → (r : Response) × (text : Text) × (make_response disk q ≡ some (r, text))
      × Offers
          (page_head (four_zero_four ++ not_found) q.keep_alive page_404 s.size ++ content)
          (set_iov c r text)
missing-Offers disk src_dir c q s content same empty missing page =
    let answer : Response = record q { code = some 404; path = page_404; file_stat = s } in
    let (r, text) = with_file answer content in
    (
      r,
      text,
      make_response-missing disk q s content missing page.found page.opened page.mapped page.whole,
      subst (λ t. Offers (t ++ content) (set_iov c r text)) (page_head-missing answer content refl)
          (set_iov-Offers c r text content empty refl page.full),
    )

process-some :
    (disk : Disk) (src_dir : Text) (users users1 : Users) (c d : Conn)
    (parsed : Option (Request × Users))
    → is_empty c.read_buff ≡ false
    → parse c.read_buff HttpRequest.init users ≡ parsed
    → respond disk src_dir users
        (record c {
          request = HttpRequest.init;
          read_buff = rest_lines (length c.read_buff) c.read_buff HttpRequest.init users;
        })
        parsed
      ≡ some (d, users1)
    → process disk src_dir users c ≡ some (true, d, users1)
unfolding process
process-some disk src_dir users users1 c d parsed full read made = rw (full, read, made) refl

-- A request that a client prints, read into a connection with nothing left to be sent, is answered
-- with the page of its path: `process` succeeds, `write` then ends, given a turn more than there are
-- bytes, and the bytes that it has sent and those that it still offers are in order the head 200 OK,
-- with the keep-alive of the request, the type and the size of the page, and the page. This is so
-- for a request as `parse` reads it back, a source directory that has a name, and a page of it that
-- is a file, not empty, that others may read, can be opened and mapped and does not begin with four
-- bytes 255, on a socket that takes no more than it is offered.
pub process-print :
    (disk : Disk)
    → (src_dir : Text) → (users : Users) → (c : Conn) → (m p v : Text) → (hs : List (Text × Text))
    → (s : Stat) → (content : Text) → (socket : Socket) → (is_et : Bool) → is_empty src_dir ≡ false
    → c.read_buff ≡ print m p v hs
    → c.write_buff ≡ []
    → IsWord 15 m
    → IsWord 511 p
    → IsWord 15 v
    → AreHeaders hs
    → Serves disk (src_dir ++ page_path p) s content
    → s.is_dir ≡ false
    → s.others_read ≡ true
    → IsHonest socket
    → (d : Conn) × (process disk src_dir users c ≡ some (true, d, users))
      × ((w : Written) × (write (suc (bytes_left d)) socket is_et d ≡ some w)
          × (w.sent ++ offer w.conn
              ≡ page_head
                  (two_hundred ++ ok_status)
                  (is_keep_alive (read_back m p v hs))
                  (page_path p)
                  s.size
                ++ content))
process-print disk src_dir users c m p v hs s content socket is_et dir read empty method path
      version fine page a_file readable honest =
    let full : is_empty c.read_buff ≡ false =
      ap is_empty read ∙ is_empty-append (first_line m p v) 13 (10 ∷ print_headers hs) in
    let parsed =
      ap (λ t. parse t HttpRequest.init users) read
      ∙ parse-print m p v hs users method path version fine in
    let e : Conn = record c {
      request = HttpRequest.init;
      read_buff = rest_lines (length c.read_buff) c.read_buff HttpRequest.init users;
    } in
    let (d, made, offers) =
      respond-Offers disk src_dir users users e (read_back m p v hs) s content dir empty page a_file
        readable in
    let (w, done, end) =
      write-IsEnd (suc (bytes_left d)) socket honest is_et d offers.tied (omega arith) in
    (
      d,
      process-some disk src_dir users users c d (some (read_back m p v hs, users)) full parsed made,
      (w, done, end.in_order ∙ offers.whole),
    )

-- Bytes that `parse` refuses are answered with 404 Not Found and not with 400 Bad Request, when the
-- source directory is a directory, since the path is then empty: `process` succeeds, and what is
-- offered to the socket is the head of 404.html, with the connection to be closed, and that page,
-- when it is there, not empty, can be opened and mapped and does not begin with four bytes 255, for
-- a connection with nothing left to be sent.
pub process-refused :
    (disk : Disk)
    → (src_dir : Text) → (users : Users) → (c : Conn) → (dir_stat s : Stat) → (content : Text)
    → is_empty src_dir ≡ false
    → is_empty c.read_buff ≡ false
    → parse c.read_buff HttpRequest.init users ≡ none
    → c.write_buff ≡ []
    → disk.stat src_dir ≡ some dir_stat
    → dir_stat.is_dir ≡ true
    → Serves disk (src_dir ++ page_404) s content
    → (d : Conn) × (process disk src_dir users c ≡ some (true, d, users))
      × Offers (page_head (four_zero_four ++ not_found) false page_404 s.size ++ content) d
unfolding respond choose_code
process-refused disk src_dir users c dir_stat s content dir full refused empty found a_dir page =
    let e : Conn = record c {
      request = HttpRequest.init;
      read_buff = rest_lines (length c.read_buff) c.read_buff HttpRequest.init users;
    } in
    let q : Response = record {
      code = some 400;
      keep_alive = false;
      path = [];
      src_dir = src_dir;
      file = none;
      file_stat = no_stat;
    } in
    let named : disk.stat (src_dir ++ []) ≡ some dir_stat =
      ap disk.stat (append-nil src_dir) ∙ found in
    let missing : choose_code (disk.stat (src_dir ++ [])) (some 400) ≡ some 404 =
      rw (named, a_dir) refl in
    let (r, text, made, offers) =
      missing-Offers disk src_dir e q s content refl empty missing page in
    let answered : respond disk src_dir users e none ≡ some (set_iov e r text, users) = rw dir (
      ap (λ (o : Option (Response × Text)). o >>= λ (r, text). some (set_iov e r text, users))
        made) in
    (
      set_iov e r text,
      process-some disk src_dir users users c (set_iov e r text) none full refused answered,
      offers,
    )
