-- ===== src/WebServer/Outcomes.antt =====
-- What `OnWrite_` makes of a connection (webServer/code/server/webserver.cpp).
use embedded_linux_iot_gatew.Prelude.{
  ℕ, zero, suc, ◌+◌, ◌≤◌, ◌<◌, ◌≡◌, refl, ap, ◌∙◌, sym, true, false, ◌||◌, ◌⊎◌, inl, inr, Option,
  none, some, [], ◌∷◌, ◌++◌, length, length-append, length-drop, take, drop, ltb, ◌==◌, ==_iff,
  if◌then◌else◌, Text, arith, Bool-cases, append-nil,
}
use embedded_linux_iot_gatew.HttpRequest.{is_keep_alive}
use embedded_linux_iot_gatew.HttpResponse.{Disk}
use embedded_linux_iot_gatew.HttpConn.{
  Conn, Socket, Written, write, write_from, advance, offer, bytes_left, to_write_bytes, has_much,
}
use embedded_linux_iot_gatew.HttpConn.Advance.{
  IsTied, advance-Sends, length-offer, nonzero, nil_of_zero,
}
use embedded_linux_iot_gatew.HttpConn.Write.{IsHonest, write-IsEnd}
use embedded_linux_iot_gatew.WebServer.{
  Server, eagain, mod_fd, for_write, find_user, set_user, call, close_conn, on_process, must_wait,
  after_write, on_write,
}

to_write_bytes-small : (c : Conn) → bytes_left c < 4294967296 → to_write_bytes c ≡ bytes_left c
unfolding to_write_bytes
to_write_bytes-small c small = omega arith

has_much_few : (c : Conn) → bytes_left c ≤ 10240 → has_much c ≡ false
unfolding has_much
has_much_few c few =
    let same = to_write_bytes-small c (omega arith) in
    let le : ltb 10240 (to_write_bytes c) ≡ false = ground arith in rw le refl

positive : (n : ℕ) → (n == 0) ≡ false → 0 < n
positive zero h = cc
positive (suc n) h = omega arith

on_write-after :
    (disk : Disk) (socket : Socket) (fd : ℕ) (s : Server) (c : Conn) (w : Written)
    → find_user fd s.users ≡ some c
    → write (suc (bytes_left c)) socket s.is_et c ≡ some w
    → on_write disk socket fd s ≡ after_write disk fd w (set_user fd w.conn s)
unfolding on_write
on_write-after disk socket fd s c w found done = rw (found, done) refl

-- `writev` takes something of an offer that is not empty, or fails with EAGAIN.
pub record IsPatient (socket : Socket) : Type 0 where
  pub takes : (turn : ℕ) (text : Text) → socket.writev turn text ≡ some 0 → text ≡ []
  pub again : (turn : ℕ) → socket.errno turn ≡ eagain

-- What `OnWrite_` does when everything has been sent, and what it does when it has not.
abbrev pub goes_on : Disk → ℕ → Written → Server → Option Server
goes_on disk fd w s = if is_keep_alive w.conn.request then on_process disk fd s else close_conn fd s

abbrev pub waits : ℕ → Server → Option Server
waits fd s = some (call (mod_fd fd for_write ∷ []) s)

after_write-all :
    (disk : Disk) (fd : ℕ) (w : Written) (s : Server)
    → (to_write_bytes w.conn == 0) ≡ true
    → after_write disk fd w s ≡ goes_on disk fd w s
unfolding after_write
after_write-all disk fd w s all = rw all refl

after_write-waits :
    (disk : Disk) (fd : ℕ) (w : Written) (s : Server) (e : ℕ)
    → (to_write_bytes w.conn == 0) ≡ false
    → w.len ≡ none
    → w.save_errno ≡ some e
    → e ≡ eagain
    → after_write disk fd w s ≡ waits fd s
unfolding after_write must_wait
after_write-waits disk fd w s e more failed saved again =
    let must : must_wait w.len w.save_errno ≡ true =
      ap (λ l. must_wait l w.save_errno) failed
      ∙ ap (must_wait none) saved
      ∙ (==_iff e eagain).1 again in
    rw (more, must) refl

-- A write of an edge-triggered connection, both parts of which are offered, to a socket that takes
-- no more than it is offered and fails with EAGAIN only: `write` ends, and the bytes that it says it
-- has sent and those that it still offers are in order what was offered. Either all of it has been
-- sent, and the connection goes on to the next request or is closed, as its request asks, or some
-- of it is left and the poller is asked for the next chance to write. Less than 2 ^ 32 bytes are
-- left, and the buffer holds what is left of the first part.
pub on_write_edge :
    (disk : Disk)
    → (socket : Socket) → (fd : ℕ) → (s : Server) → (c : Conn) → s.is_et ≡ true
    → find_user fd s.users ≡ some c
    → IsTied c
    → length (offer c) ≡ bytes_left c
    → bytes_left c < 4294967296
    → IsHonest socket
    → IsPatient socket
    → (w : Written) × (write (suc (bytes_left c)) socket s.is_et c ≡ some w)
      × (w.sent ++ offer w.conn ≡ offer c)
      × (((w.sent ≡ offer c)
            × (on_write disk socket fd s ≡ goes_on disk fd w (set_user fd w.conn s)))
          ⊎ ((0 < bytes_left w.conn)
              × (on_write disk socket fd s ≡ waits fd (set_user fd w.conn s))))
on_write_edge disk socket fd s c et found tied whole small honest patient =
    let (w, done, end) =
      write-IsEnd (suc (bytes_left c)) socket honest s.is_et c tied (omega arith) in
    let after = on_write-after disk socket fd s c w found done in
    let t : Server = set_user fd w.conn s in
    let offered : length (offer w.conn) ≡ bytes_left w.conn =
      omega
        (arith, whole, end.all_left, ap length end.in_order, length-append w.sent (offer w.conn)) in
    let same = to_write_bytes-small w.conn (omega (arith, end.all_left)) in
    (
      w,
      done,
      end.in_order,
      elim (Bool-cases (to_write_bytes w.conn == 0)) [
        | inl all ↦
            let z : to_write_bytes w.conn ≡ 0 = (==_iff (to_write_bytes w.conn) 0).0 all in
            let nothing : offer w.conn ≡ [] =
              nil_of_zero (offer w.conn) (omega (arith, offered, same, z)) in
            inl (
              sym (append-nil w.sent) ∙ ap (λ x. w.sent ++ x) (sym nothing) ∙ end.in_order,
              after ∙ after_write-all disk fd w t all,
            )
        | inr more ↦
            let some_left : 0 < bytes_left w.conn =
              positive (bytes_left w.conn) (ap (λ n. n == 0) (sym same) ∙ more) in
            elim end.stopped [
              | inl (turn, answer, saved, inl failed) ↦ inr (
                some_left,
                after
                    ∙ after_write-waits disk fd w t (socket.errno turn) more failed saved
                        (patient.again turn),
              )
              | inl (turn, answer, saved, inr nothing) ↦
                  let empty = patient.takes turn (offer w.conn) (answer ∙ nothing) in
                  absurd (omega (arith, offered, some_left, ap length empty))
              | inr few ↦
                  let refuted : (true || has_much w.conn) ≡ false =
                    ap (λ b. b || has_much w.conn) (sym et) ∙ few in
                  cc
            ]
      ],
    )

after_write-closes :
    (disk : Disk) (fd : ℕ) (w : Written) (s : Server) (k : ℕ)
    → (to_write_bytes w.conn == 0) ≡ false
    → w.len ≡ some k
    → after_write disk fd w s ≡ close_conn fd s
unfolding after_write must_wait
after_write-closes disk fd w s k more sent =
    let closes : must_wait w.len w.save_errno ≡ false = ap (λ l. must_wait l w.save_errno) sent in
    rw (more, closes) refl

-- The turn with which `write` stops on a level-triggered connection.
write-stops :
    (fuel : ℕ) (socket : Socket) (c d : Conn) (k : ℕ)
    → socket.writev 0 (offer c) ≡ some (suc k)
    → (bytes_left c == 0) ≡ false
    → advance (suc k) c ≡ some d
    → has_much d ≡ false
    → write (suc fuel) socket false c
      ≡ some (record {
        conn = d;
        sent = take (suc k) (offer c);
        len = some (suc k);
        save_errno = none;
      })
unfolding write write_from
write-stops fuel socket c d k took more moved few = rw (took, more, moved, few, write_from) refl

-- A level-triggered connection is closed with bytes that have not been sent: when the first
-- `writev` takes some, but not all of what it is offered, and at most 10240 bytes are left behind
-- it, `write` stops, and `OnWrite_` closes the connection, while what is left of the offer is not
-- empty. The buffer holds what is left of the first part.
pub on_write_cut :
    (disk : Disk)
    → (socket : Socket) → (fd : ℕ) → (s : Server) → (c : Conn) → (k : ℕ) → s.is_et ≡ false
    → find_user fd s.users ≡ some c
    → IsTied c
    → socket.writev 0 (offer c) ≡ some (suc k)
    → suc k < length (offer c)
    → bytes_left c ≤ suc k + 10240
    → (d : Conn) × (offer d ≡ drop (suc k) (offer c))
      × (0 < length (offer d))
      × (on_write disk socket fd s ≡ close_conn fd (set_user fd d s))
on_write_cut disk socket fd s c k lt found tied took short few =
    let (d, moved, sends) = advance-Sends (suc k) c tied (omega arith) in
    let bound = length-offer c in
    let more = nonzero (bytes_left c) (omega arith) in
    let little : bytes_left d ≤ 10240 = omega (arith, sends.fewer) in
    let same = to_write_bytes-small d (omega arith) in
    let unsent : (to_write_bytes d == 0) ≡ false =
      nonzero (to_write_bytes d) (omega (arith, sends.fewer, same)) in
    let w : Written = record {
      conn = d;
      sent = take (suc k) (offer c);
      len = some (suc k);
      save_errno = none;
    } in
    let done : write (suc (bytes_left c)) socket s.is_et c ≡ some w =
      ap (λ b. write (suc (bytes_left c)) socket b c) lt
      ∙ write-stops (bytes_left c) socket c d k took more moved (has_much_few d little) in
    (
      d,
      sends.rest,
      omega (arith, ap length sends.rest, length-drop (suc k) (offer c)),
      on_write-after disk socket fd s c w found done
          ∙ after_write-closes disk fd w (set_user fd d s) (suc k) unsent refl,
    )
