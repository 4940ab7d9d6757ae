-- ===== src/WebServer/Parts.antt =====
-- The handlers of the server, cut where another thread can come between
-- (webServer/code/server/webserver.cpp): `Close` is not under a lock, so another `Close` of the
-- connection can run between its test of isClose_ and the rest of it.
use embedded_linux_iot_gatew.Prelude.{
  ℕ, suc, ◌≡◌, refl, ap, Bool, Bool-cases, Option-cases, inl, inr, true, false, Option, some,
  no_result, List, [], ◌∷◌, append_assoc, ◌==◌, arith, if◌then◌else◌, ◌>>=◌, Text,
}
use embedded_linux_iot_gatew.HttpConn.{
  Conn, Socket, close, unmap_file, count_off, read, write, bytes_left,
}
use embedded_linux_iot_gatew.WebServer.{
  Server, for_write, mod_fd, del_fd, close_fd, find_user, put_user, set_user, call, close_conn,
}

-- The server, the descriptors of the connections whose `Close` has found them open and is not over,
-- and how often the rest of a `Close` has found its connection closed by another one.
pub record Racing : Type 0 where
  pub server : Server
  pub ending : List ℕ
  pub twice : ℕ

-- `CloseConn_`, up to the test.
unfoldable pub close_begins : ℕ → Server → Option (Bool × Server)
close_begins fd s = find_user fd s.users >>= λ c. some (
  c.is_close,
  call (del_fd fd ∷ []) (set_user fd (record c { response = unmap_file c.response }) s),
)

-- `Close` behind its test, and whether the connection was closed by then.
unfoldable pub close_ends : ℕ → Server → Option (Bool × Server)
close_ends fd s = find_user fd s.users >>= λ c.
    let (d, count) = count_off c s.user_count in
    some (c.is_close, call (close_fd fd ∷ []) (record (set_user fd d s) { user_count = count }))

-- `OnRead_`, up to the test of the result of `read`.
unfoldable pub read_part : ℕ → List Text → (closed : Bool) → Server → Option Server
read_part fd given closed s =
    find_user fd s.users >>= λ c. some (set_user fd (read s.is_et given closed c).1 s)

-- `OnWrite_`, up to the tests behind `write`.
unfoldable pub write_part : Socket → ℕ → Server → Option Server
write_part socket fd s = find_user fd s.users >>= λ c.
    write (suc (bytes_left c)) socket s.is_et c >>= λ w. some (set_user fd w.conn s)

-- Its wait for another chance to write.
abbrev pub wait_part : ℕ → Server → Server
wait_part fd s = call (mod_fd fd for_write ∷ []) s

abbrev pub and_ending : (is_close : Bool) → ℕ → List ℕ → List ℕ
and_ending is_close fd ending = if is_close then ending else fd ∷ ending

abbrev pub and_twice : (is_close : Bool) → ℕ → ℕ
and_twice is_close twice = if is_close then suc twice else twice

find_user-put_user :
    (fd : ℕ) (c d : Conn) (users : List (ℕ × Conn))
    → find_user fd users ≡ some c
    → find_user fd (put_user fd d users) ≡ some d
unfolding find_user put_user
find_user-put_user fd c d [] found = no_result found
find_user-put_user fd c d ((k, e) ∷ users) found = elim (Bool-cases (fd == k)) [
  | inl same ↦ rw (same, same) refl
  | inr other ↦ rw (other, other) (find_user-put_user fd c d users (rw other at found))
]

put_user-put_user :
    (fd : ℕ) (d e : Conn) (users : List (ℕ × Conn))
    → put_user fd e (put_user fd d users) ≡ put_user fd e users
unfolding put_user
put_user-put_user fd d e [] = let same : (fd == fd) ≡ true = ground arith in rw same refl
put_user-put_user fd d e ((k, c) ∷ users) = elim (Bool-cases (fd == k)) [
  | inl same ↦ rw (same, same) refl
  | inr other ↦ rw (other, other) (ap (λ us. (k, c) ∷ us) (put_user-put_user fd d e users))
]

-- `CloseConn_` is its two parts, the second only where the first finds the connection open.
close_conn_lem :
    (fd : ℕ) (s : Server)
    → close_conn fd s ≡ (
        close_begins fd s >>= λ (shut, t).
        if shut then some t else (close_ends fd t >>= λ (was, u). some u))
unfolding close_conn close close_begins close_ends
close_conn_lem fd s = elim (Option-cases (find_user fd s.users)) [
  | inl unknown ↦ rw unknown refl
  | inr (c, found) ↦
      let d : Conn = record c { response = unmap_file c.response; is_close = false } in
      let e : Conn = record d { is_close = true } in
      elim (Bool-cases c.is_close) [
        | inl shut ↦ rw (found, shut) refl
        | inr running ↦
            rw (found, running)
              (rw
                (
                  find_user-put_user fd c d s.users found,
                  put_user-put_user fd d e s.users,
                  append_assoc s.calls (del_fd fd ∷ []) (close_fd fd ∷ []),
                )
                refl)
      ]
]
