-- ===== src/WebServer.antt =====
-- webServer/code/server/webserver.cpp: the handlers of the server, which share the table of
-- connections and the number of the open ones. What they tell the poller, the timer heap, the thread
-- pool and the system is a list of calls. What the sockets, the poller and `accept` answer is an
-- argument, as is the file system. A failing assertion is `none`. That a socket is made non-blocking
-- is left out.
pub mod Counts
pub mod Parts
pub mod Outcomes
pub mod Steps
mod Tests
use embedded_linux_iot_gatew.Prelude.{
  ℕ, zero, suc, ◌+◌, Bool, true, false, ◌&&◌, ◌||◌, not, Option, none, some, List, [], ◌∷◌, ◌++◌,
  ltb, leb, ◌==◌, if◌then◌else◌, ◌>>=◌, Text,
}
use embedded_linux_iot_gatew.UserStore.{Users}
use embedded_linux_iot_gatew.HttpRequest.{is_keep_alive}
use embedded_linux_iot_gatew.HttpResponse.{Disk}
use embedded_linux_iot_gatew.HttpConn.{
  Conn, Socket, Written, new_conn, close, read, write, bytes_left, to_write_bytes, process,
}
use embedded_linux_iot_gatew.HttpConn

-- EPOLLIN and EPOLLOUT.
pub data Interest : Type 0 where
  for_read for_write : Interest

pub data Call : Type 0 where
  add_fd mod_fd : ℕ → Interest → Call
  del_fd close_fd : ℕ → Call
  refuse : ℕ → Call
  timer_add timer_adjust : ℕ → (timeout : ℕ) → Call
  add_read add_write : ℕ → Call

-- `WebServer`; a timeout of zero stands for one that is not positive.
pub record Server : Type 0 where
  pub listen_fd : ℕ
  pub listen_et : Bool
  pub is_et : Bool
  pub timeout_ms : ℕ
  pub src_dir : Text
  pub accounts : Users
  pub users : List (ℕ × Conn)
  pub user_count : ℕ
  pub calls : List Call

-- `MAX_FD`
abbrev pub max_fd : ℕ
max_fd = 65536

-- `EAGAIN`
abbrev pub eagain : ℕ
eagain = 11

-- `InitEventMode_`: whether listening and whether the connections are edge-triggered.
unfoldable pub init_event_mode : (trig_mode : ℕ) → Bool × Bool
init_event_mode trig_mode =
    if trig_mode == 0
    then (false, false)
    else (if trig_mode == 1
        then (false, true)
        else (if trig_mode == 2 then (true, false) else (true, true)))

-- What the calls that set up the listening socket answer.
pub record Opening : Type 0 where
  pub socket : Bool
  pub set_linger : Bool
  pub set_reuse : Bool
  pub bind : Bool
  pub listen : Bool
  pub add_listen : Bool

-- `InitSocket_`: its result, and whether the listening socket is open.
unfoldable pub init_socket : (port : ℕ) → Opening → Bool × Bool
init_socket port o =
    if ltb 65535 port || ltb port 1024
    then (false, false)
    else (if not o.socket
        then (false, false)
        else (if not o.set_linger
            then (false, false)
            else (if not o.set_reuse
                then (false, false)
                else (if not o.bind
                    then (false, false)
                    else (if not o.listen
                        then (false, false)
                        else (if not o.add_listen then (false, false) else (true, true)))))))

-- users_[fd], where it has an entry.
unfoldable pub find_user : ℕ → List (ℕ × Conn) → Option Conn
find_user fd [] = none
find_user fd ((k, c) ∷ users) = let rest = find_user fd users in if fd == k then some c else rest

unfoldable pub put_user : ℕ → Conn → List (ℕ × Conn) → List (ℕ × Conn)
put_user fd d [] = (fd, d) ∷ []
put_user fd d ((k, c) ∷ users) =
    let rest = put_user fd d users in if fd == k then (k, d) ∷ users else (k, c) ∷ rest

-- A new entry of the table is constructed.
abbrev pub or_new : (raw : Conn) → Option Conn → Conn
or_new raw none = new_conn raw
or_new raw (some c) = c

abbrev pub set_user : ℕ → Conn → Server → Server
set_user fd c s = record s { users = put_user fd c s.users }

abbrev pub call : List Call → Server → Server
call cs s = record s { calls = s.calls ++ cs }

-- `CloseConn_`
unfoldable pub close_conn : ℕ → Server → Option Server
close_conn fd s = find_user fd s.users >>= λ c.
    let (d, count, shut) = close c s.user_count in
    some (
      call (del_fd fd ∷ (if shut then close_fd fd ∷ [] else []))
        (record (set_user fd d s) { user_count = count }))

-- `AddClient_`
unfoldable pub add_client : (raw : Conn) → ℕ → Server → Option Server
add_client raw fd s =
    HttpConn.init fd (or_new raw (find_user fd s.users)) s.user_count >>= λ (c, count). some (
      call
        ((if ltb 0 s.timeout_ms then timer_add fd s.timeout_ms ∷ [] else [])
          ++ (add_fd fd for_read ∷ []))
        (record (set_user fd c s) { user_count = count }))

-- A turn of the loop of `DealListen_` with a connection that `accept` gives, and whether another
-- follows.
unfoldable pub accept_turn : (raw : Conn) → ℕ → Server → Option (Server × Bool)
accept_turn raw fd s =
    if leb max_fd s.user_count
    then some (call (refuse fd ∷ []) s, false)
    else (add_client raw fd s >>= λ t. some (t, t.listen_et))

-- `DealListen_`, with the connections that `accept` gives until it has none.
unfoldable pub deal_listen : (raw : Conn) → List ℕ → Server → Option Server
deal_listen raw [] s = some s
deal_listen raw (fd ∷ fds) s =
    accept_turn raw fd s >>= λ (t, more). if more then deal_listen raw fds t else some t

-- `ExtentTime_`
abbrev pub extent_time : ℕ → Server → Server
extent_time fd s = call (if ltb 0 s.timeout_ms then timer_adjust fd s.timeout_ms ∷ [] else []) s

-- `DealRead_`
abbrev pub deal_read : ℕ → Server → Server
deal_read fd s = call (add_read fd ∷ []) (extent_time fd s)

-- `DealWrite_`
abbrev pub deal_write : ℕ → Server → Server
deal_write fd s = call (add_write fd ∷ []) (extent_time fd s)

-- `OnProcess`
unfoldable pub on_process : Disk → ℕ → Server → Option Server
on_process disk fd s = find_user fd s.users >>= λ c.
    process disk s.src_dir s.accounts c >>= λ (done, d, accounts). some (
      call (mod_fd fd (if done then for_write else for_read) ∷ [])
        (record (set_user fd d s) { accounts = accounts }))

-- ret <= 0 && readErrno != EAGAIN, where `errno` is what a failing `ReadFd` has set.
unfoldable pub read_failed : (ret : Option ℕ) → (errno : ℕ) → Bool
read_failed none errno = not (errno == eagain)
read_failed (some zero) errno = true
read_failed (some (suc k)) errno = false

-- `OnRead_`, with what `read` is given.
unfoldable pub on_read :
    Disk → ℕ → List Text → (closed : Bool) → (errno : ℕ) → Server → Option Server
on_read disk fd given closed errno s = find_user fd s.users >>= λ c.
    let (ret, d) = read s.is_et given closed c in
    let t = set_user fd d s in
    if read_failed ret errno then close_conn fd t else on_process disk fd t

-- ret < 0, with the errno EAGAIN.
unfoldable pub must_wait : (ret save_errno : Option ℕ) → Bool
must_wait none (some e) = e == eagain
must_wait none none = false
must_wait (some ret) save_errno = false

-- `OnWrite_` behind the call of `write`.
unfoldable pub after_write : Disk → ℕ → Written → Server → Option Server
after_write disk fd w s =
    if to_write_bytes w.conn == 0
    then (if is_keep_alive w.conn.request then on_process disk fd s else close_conn fd s)
    else (if must_wait w.len w.save_errno
        then some (call (mod_fd fd for_write ∷ []) s)
        else close_conn fd s)

-- `OnWrite_`
unfoldable pub on_write : Disk → Socket → ℕ → Server → Option Server
on_write disk socket fd s = find_user fd s.users >>= λ c.
    write (suc (bytes_left c)) socket s.is_et c >>= λ w.
    after_write disk fd w (set_user fd w.conn s)

-- What the poller reports of a descriptor.
pub record Event : Type 0 where
  pub fd : ℕ
  pub hung_up : Bool
  pub readable : Bool
  pub writable : Bool

abbrev pub known : ℕ → Server → Server → Option Server
known fd s t = find_user fd s.users >>= λ c. some t

-- A turn of the inner loop of `Start`.
unfoldable pub deal_event : (raw : Conn) → (accepted : List ℕ) → Event → Server → Option Server
deal_event raw accepted e s =
    if e.fd == s.listen_fd
    then deal_listen raw accepted s
    else (if e.hung_up
        then close_conn e.fd s
        else (if e.readable
            then known e.fd s (deal_read e.fd s)
            else (if e.writable then known e.fd s (deal_write e.fd s) else some s)))
