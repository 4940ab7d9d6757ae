-- ===== src/WebServer/Counts.antt =====
-- The number of open connections under the parts of the handlers
-- (webServer/code/server/webserver.cpp).
use embedded_linux_iot_gatew.Prelude.{
  ℕ, suc, ◌+◌, ◌≤◌, ◌<◌, ◌≡◌, refl, ap, subst, Bool, true, false, inl, inr, Option, none, some,
  unsome, bind-some, no_result, List, [], ◌∷◌, leb, ◌==◌, Text, arith, Bool-cases, Option-cases,
}
use embedded_linux_iot_gatew.HttpResponse.{Disk}
use embedded_linux_iot_gatew.HttpConn.{
  to_write_bytes, Conn, unmap_file, Socket, Written, close, read, write, bytes_left, process,
  new_conn,
}
use embedded_linux_iot_gatew.HttpConn
use embedded_linux_iot_gatew.WebServer.Parts.{
  close_begins, close_ends, read_part, write_part, and_twice,
}
use embedded_linux_iot_gatew.HttpConn.Open.{read-is_close, process-is_close, write-is_close}
use embedded_linux_iot_gatew.WebServer.{
  Server, max_fd, find_user, put_user, or_new, set_user, add_client, accept_turn, on_process,
}

abbrev pub weight : (is_close : Bool) → ℕ
weight true = 0
weight false = 1

abbrev pub opened : Conn → ℕ
opened c = weight c.is_close

abbrev pub opened_in : Option Conn → ℕ
opened_in none = 0
opened_in (some c) = opened c

abbrev pub count_open : List (ℕ × Conn) → ℕ
count_open [] = 0
count_open ((fd, c) ∷ users) = opened c + count_open users

-- The number that the server keeps is that of the open connections less a number, and no larger than
-- the server's limit.
pub record IsCounted (twice : ℕ) (s : Server) : Type 0 where
  pub counted : s.user_count + twice ≡ count_open s.users
  pub bounded : s.user_count ≤ max_fd

count_open-put_user :
    (fd : ℕ) (d : Conn) (users : List (ℕ × Conn))
    → count_open (put_user fd d users) + opened_in (find_user fd users)
      ≡ count_open users + opened d
unfolding put_user find_user
count_open-put_user fd d [] = omega arith
count_open-put_user fd d ((k, c) ∷ users) = elim (Bool-cases (fd == k)) [
  | inl same ↦ rw same (omega arith)
  | inr other ↦ rw other (omega (arith, count_open-put_user fd d users))
]

count_open-find_user :
    (fd : ℕ) (users : List (ℕ × Conn)) → opened_in (find_user fd users) ≤ count_open users
unfolding find_user
count_open-find_user fd [] = omega arith
count_open-find_user fd ((k, c) ∷ users) = elim (Bool-cases (fd == k)) [
  | inl same ↦ rw same (omega arith)
  | inr other ↦ rw other (omega (arith, count_open-find_user fd users))
]

set_user-IsCounted :
    {twice : ℕ} (s : Server) (fd : ℕ) (c d : Conn)
    → IsCounted twice s
    → find_user fd s.users ≡ some c
    → d.is_close ≡ c.is_close
    → IsCounted twice (set_user fd d s)
set_user-IsCounted s fd c d sure found same = record {
  counted =
      omega
        (arith, sure.counted, count_open-put_user fd d s.users, ap opened_in found, ap weight same);
  bounded = sure.bounded;
}

pub close_begins-IsCounted :
    (fd : ℕ) {twice : ℕ} (s : Server) {t : Server} {is_close : Bool}
    → IsCounted twice s
    → close_begins fd s ≡ some (is_close, t)
    → IsCounted twice t
unfolding close_begins
close_begins-IsCounted fd s sure e = elim (Option-cases (find_user fd s.users)) [
  | inl unknown ↦ no_result (rw unknown at e)
  | inr (c, found) ↦
      let kept =
        set_user-IsCounted s fd c (record c { response = unmap_file c.response }) sure found refl in
      subst (IsCounted _) (ap (λ (p : Bool × Server). p.1) (unsome (rw found at e)))
        (record { counted = kept.counted; bounded = kept.bounded })
]

pub close_ends-IsCounted :
    (fd : ℕ) {twice : ℕ} (s : Server) {t : Server} {is_close : Bool}
    → IsCounted twice s
    → 0 < s.user_count
    → close_ends fd s ≡ some (is_close, t)
    → IsCounted (and_twice is_close twice) t
unfolding close_ends
close_ends-IsCounted fd {twice} s sure some_left e = elim (Option-cases (find_user fd s.users)) [
  | inl unknown ↦ no_result (rw unknown at e)
  | inr (c, found) ↦
      let d : Conn = record c { is_close = true } in
      let put = count_open-put_user fd d s.users in
      let known : opened_in (find_user fd s.users) ≡ opened c = ap opened_in found in
      let same = unsome (rw found at e) in
      let result = λ (p : Bool × Server). IsCounted (and_twice p.0 twice) p.1 in
      subst result same (elim (Bool-cases c.is_close) [
        | inl shut ↦ rw shut (record {
          counted = omega (arith, sure.counted, put, known, ap weight shut, some_left);
          bounded = omega (arith, sure.bounded);
        })
        | inr running ↦ rw running (record {
          counted = omega (arith, sure.counted, put, known, ap weight running, some_left);
          bounded = omega (arith, sure.bounded);
        })
      ])
]

pub add_client-IsCounted :
    (raw : Conn) (fd : ℕ) {twice : ℕ} (s : Server) {t : Server}
    → IsCounted twice s
    → opened_in (find_user fd s.users) ≡ 0
    → s.user_count < max_fd
    → add_client raw fd s ≡ some t
    → IsCounted twice t
unfolding add_client HttpConn.init
add_client-IsCounted raw fd s sure shut room e = elim (Bool-cases (fd == 0)) [
  | inl bad ↦ no_result (rw bad at e)
  | inr good ↦
      let c : Conn = record (or_new raw (find_user fd s.users)) {
        fd = some fd;
        read_buff = [];
        write_buff = [];
        is_close = false;
      } in
      subst (IsCounted _) (unsome (rw good at e)) (record {
        counted = omega (arith, sure.counted, count_open-put_user fd c s.users, shut);
        bounded = omega arith;
      })
]

pub accept_turn-IsCounted :
    (raw : Conn) (fd : ℕ) {twice : ℕ} (s : Server) {t : Server} {more : Bool}
    → IsCounted twice s
    → opened_in (find_user fd s.users) ≡ 0
    → accept_turn raw fd s ≡ some (t, more)
    → IsCounted twice t
unfolding accept_turn
accept_turn-IsCounted raw fd s sure shut e = elim (Bool-cases (leb max_fd s.user_count)) [
  | inl full ↦
      subst (IsCounted _) (ap (λ (p : Server × Bool). p.0) (unsome (rw full at e)))
        (record { counted = sure.counted; bounded = sure.bounded })
  | inr room ↦
      let less : s.user_count < max_fd = ground arith in
      let (t1, added, e1) =
        bind-some (add_client raw fd s) (λ t. some (t, t.listen_et)) (rw room at e) in
      subst (IsCounted _) (ap (λ (p : Server × Bool). p.0) (unsome e1))
        (add_client-IsCounted raw fd s sure shut less added)
]

pub on_process-IsCounted :
    (disk : Disk) (fd : ℕ) {twice : ℕ} (s : Server) {t : Server}
    → IsCounted twice s
    → on_process disk fd s ≡ some t
    → IsCounted twice t
unfolding on_process
on_process-IsCounted disk fd s sure e = elim (Option-cases (find_user fd s.users)) [
  | inl unknown ↦ no_result (rw unknown at e)
  | inr (c, found) ↦ elim (Option-cases (process disk s.src_dir s.accounts c)) [
    | inl crash ↦ no_result (rw (found, crash) at e)
    | inr ((done, d, accounts), made) ↦
        let kept =
          set_user-IsCounted s fd c d sure found
            (process-is_close disk s.src_dir s.accounts c made) in
        subst (IsCounted _) (unsome (rw (found, made) at e))
          (record { counted = kept.counted; bounded = kept.bounded })
  ]
]

pub read_part-IsCounted :
    (fd : ℕ) (given : List Text) (closed : Bool) {twice : ℕ} (s : Server) {t : Server}
    → IsCounted twice s
    → read_part fd given closed s ≡ some t
    → IsCounted twice t
unfolding read_part
read_part-IsCounted fd given closed s sure e = elim (Option-cases (find_user fd s.users)) [
  | inl unknown ↦ no_result (rw unknown at e)
  | inr (c, found) ↦ subst (IsCounted _) (unsome (rw found at e)) (
      set_user-IsCounted s fd c (read s.is_et given closed c).1 sure found
        (read-is_close s.is_et given closed c))
]

pub write_part-IsCounted :
    (socket : Socket) (fd : ℕ) {twice : ℕ} (s : Server) {t : Server}
    → IsCounted twice s
    → write_part socket fd s ≡ some t
    → IsCounted twice t
unfolding write_part
write_part-IsCounted socket fd s sure e = elim (Option-cases (find_user fd s.users)) [
  | inl unknown ↦ no_result (rw unknown at e)
  | inr (c, found) ↦
      let (w, written, e1) =
        bind-some (write (suc (bytes_left c)) socket s.is_et c) (λ w. some (set_user fd w.conn s))
          (rw found at e) in
      subst (IsCounted _) (unsome e1) (
        set_user-IsCounted s fd c w.conn sure found
          (write-is_close (suc (bytes_left c)) socket s.is_et c written))
]
