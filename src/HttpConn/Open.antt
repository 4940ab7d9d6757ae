-- ===== src/HttpConn/Open.antt =====
-- What leaves a connection open, or closed, as it is (webServer/code/http/httpconn.cpp).
use embedded_linux_iot_gatew.Prelude.{
  ℕ, zero, suc, ◌≡◌, refl, ap, ◌∙◌, sym, Bool, true, false, ◌||◌, inl, inr, Option, none, some,
  unsome, bind-some, List, [], ◌∷◌, ◌++◌, length, take, drop, ltb, ◌==◌, if◌then◌else◌, ◌>>=◌, Text,
  Bool-cases, Option-cases,
}
use embedded_linux_iot_gatew.UserStore.{Users, is_empty}
use embedded_linux_iot_gatew.HttpRequest.{Request, parse, is_keep_alive}
use embedded_linux_iot_gatew.HttpResponse.{Disk, Response, make_response}
use embedded_linux_iot_gatew.HttpRequest
use embedded_linux_iot_gatew.HttpResponse
use embedded_linux_iot_gatew.HttpConn.{
  Conn, Socket, Written, set_answer, set_file, set_iov, rest_lines, respond, process, read,
  retrieve, bytes_left, has_much, offer, advance, write_from, write,
}

pub read-is_close :
    (is_et : Bool) (given : List Text) (closed : Bool) (c : Conn)
    → (read is_et given closed c).1.is_close ≡ c.is_close
unfolding read
read-is_close is_et [] closed c = refl
read-is_close true (t ∷ ts) closed c = elim (Bool-cases (is_empty t)) [
  | inl empty ↦ rw empty refl
  | inr full ↦ rw full (read-is_close true ts closed (record c { read_buff = c.read_buff ++ t }))
]
read-is_close false (t ∷ ts) closed c = elim (Bool-cases (is_empty t)) [
  | inl empty ↦ rw empty refl
  | inr full ↦ rw full refl
]

set_file-is_close : (c : Conn) (o : Option Text) → (set_file c o).is_close ≡ c.is_close
set_file-is_close c none = refl
set_file-is_close c (some content) = refl

set_iov-is_close :
    (c : Conn) (r : Response) (text : Text) → (set_iov c r text).is_close ≡ c.is_close
unfolding set_iov
set_iov-is_close c r text = elim (Bool-cases (ltb 0 r.file_stat.size)) [
  | inl full ↦ rw full (set_file-is_close _ r.file)
  | inr empty ↦ rw empty refl
]

answered-is_close :
    (disk : Disk) (q : Option Response) (users : Users) (c : Conn) {d : Conn} {users1 : Users}
    → (q >>= λ r. make_response disk r >>= set_answer users c) ≡ some (d, users1)
    → d.is_close ≡ c.is_close
answered-is_close disk none users c e = cc
answered-is_close disk (some r) users c e =
    let ((r1, text), made, e1) = bind-some (make_response disk r) (set_answer users c) e in
    sym (ap (λ (p : Conn × Users). p.0.is_close) (unsome e1)) ∙ set_iov-is_close c r1 text

respond-is_close :
    (disk : Disk) (src_dir : Text) (users : Users) (c : Conn) (parsed : Option (Request × Users))
    {d : Conn} {users1 : Users}
    → respond disk src_dir users c parsed ≡ some (d, users1)
    → d.is_close ≡ c.is_close
unfolding respond
respond-is_close disk src_dir users c none e =
    answered-is_close disk (HttpResponse.init src_dir [] false (some 400)) users c e
respond-is_close disk src_dir users c (some (request, users2)) e =
    answered-is_close disk
      (HttpResponse.init src_dir request.path (is_keep_alive request) (some 200)) users2
      (record c { request = request }) e

pub process-is_close :
    (disk : Disk) (src_dir : Text) (users : Users) (c : Conn) {done : Bool} {d : Conn}
    {users1 : Users}
    → process disk src_dir users c ≡ some (done, d, users1)
    → d.is_close ≡ c.is_close
unfolding process
process-is_close disk src_dir users c e = elim (Bool-cases (is_empty c.read_buff)) [
  | inl empty ↦ sym (ap (λ (p : Bool × Conn × Users). p.1.is_close) (unsome (rw empty at e)))
  | inr full ↦
      let parsed = parse c.read_buff HttpRequest.init users in
      let d0 : Conn = record c {
        request = HttpRequest.init;
        read_buff = rest_lines (length c.read_buff) c.read_buff HttpRequest.init users;
      } in
      let ((d1, users2), answered, e1) =
        bind-some (respond disk src_dir users d0 parsed) (λ (d1, users2). some (true, d1, users2))
          (rw full at e) in
      sym (ap (λ (p : Bool × Conn × Users). p.1.is_close) (unsome e1))
      ∙ respond-is_close disk src_dir users d0 parsed answered
]

advance-is_close : (k : ℕ) (c : Conn) {d : Conn} → advance k c ≡ some d → d.is_close ≡ c.is_close
unfolding advance
advance-is_close k c e = elim (Bool-cases (ltb (length c.iov0) k)) [
  | inl past ↦ sym (ap (λ (p : Conn). p.is_close) (unsome (rw past at e)))
  | inr first ↦
      let (buff, retrieved, e1) =
        bind-some (retrieve k c.write_buff)
          (λ buff. some (record c { iov0 = drop k c.iov0; write_buff = buff })) (rw first at e) in
      sym (ap (λ (p : Conn). p.is_close) (unsome e1))
]

write_from-is_close :
    (fuel : ℕ) (socket : Socket) (is_et : Bool) (turn : ℕ) (sent : Text) (c : Conn) {w : Written}
    → write_from fuel socket is_et turn sent c ≡ some w
    → w.conn.is_close ≡ c.is_close
unfolding write_from
write_from-is_close zero socket is_et turn sent c e = cc
write_from-is_close (suc fuel) socket is_et turn sent c e =
    elim (Option-cases (socket.writev turn (offer c))) [
      | inl failed ↦
          sym (ap (λ (p : Written). p.conn.is_close) (unsome (rw (failed, write_from) at e)))
      | inr (zero, took) ↦
          sym (ap (λ (p : Written). p.conn.is_close) (unsome (rw (took, write_from) at e)))
      | inr (suc k, took) ↦ elim (Bool-cases (bytes_left c == 0)) [
        | inl done ↦
            sym (ap (λ (p : Written). p.conn.is_close) (unsome (rw (took, done, write_from) at e)))
        | inr more ↦
            let now : Text = sent ++ take (suc k) (offer c) in
            let (d, moved, e1) =
              bind-some (advance (suc k) c)
                (λ d.
                  if is_et || has_much d
                  then write_from fuel socket is_et (suc turn) now d
                  else some
                      (record { conn = d; sent = now; len = some (suc k); save_errno = none }))
                (rw (took, more, write_from) at e) in
            elim (Bool-cases (is_et || has_much d)) [
              | inl goes_on ↦
                  write_from-is_close fuel socket is_et (suc turn) now d (rw goes_on at e1)
                  ∙ advance-is_close (suc k) c moved
              | inr stops ↦
                  sym (ap (λ (p : Written). p.conn.is_close) (unsome (rw stops at e1)))
                  ∙ advance-is_close (suc k) c moved
            ]
      ]
    ]

pub write-is_close :
    (fuel : ℕ) (socket : Socket) (is_et : Bool) (c : Conn) {w : Written}
    → write fuel socket is_et c ≡ some w
    → w.conn.is_close ≡ c.is_close
unfolding write
write-is_close fuel socket is_et c e = write_from-is_close fuel socket is_et 0 [] c e
