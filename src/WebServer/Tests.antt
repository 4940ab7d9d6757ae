-- ===== src/WebServer/Tests.antt =====
-- A connection that comes and goes, one that waits and one that is cut off.
use embedded_linux_iot_gatew.Prelude.{
  suc, ℕ, ◌<◌, ◌≡◌, ◌⊎◌, refl, Bool, true, false, Option, none, some, unsome, List, [], ◌∷◌, ◌++◌,
  length, drop, Text, arith, min,
}
use embedded_linux_iot_gatew.HttpRequest
use embedded_linux_iot_gatew.HttpResponse.{Disk, no_stat}
use embedded_linux_iot_gatew.HttpConn.{write, Conn, Socket, Written, offer, bytes_left, close}
use embedded_linux_iot_gatew.HttpConn
use embedded_linux_iot_gatew.HttpConn.Write.{IsHonest}
use embedded_linux_iot_gatew.WebServer.{
  Server, Opening, find_user, put_user, set_user, accept_turn, add_client, close_conn, on_write,
  init_socket, deal_event, deal_listen,
}
use embedded_linux_iot_gatew.WebServer.Counts.{count_open}
use embedded_linux_iot_gatew.WebServer.Parts.{Racing, close_begins, close_ends}
use embedded_linux_iot_gatew.WebServer.Outcomes.{
  IsPatient, goes_on, waits, on_write_edge, on_write_cut,
}

abbrev disk : Disk
disk = record { stat = λ name. none; opens = λ name. false; mapped = λ name. none }

abbrev sending : Conn
sending = record {
  fd = some 5;
  is_close = false;
  iov_cnt = 2;
  iov0 = 1 ∷ 2 ∷ [];
  iov1 = 3 ∷ 4 ∷ 5 ∷ [];
  read_buff = [];
  write_buff = 1 ∷ 2 ∷ [];
  request = HttpRequest.init;
  response = record {
    code = none;
    keep_alive = false;
    path = [];
    src_dir = [];
    file = none;
    file_stat = no_stat;
  };
}

abbrev server : (is_et : Bool) → List (ℕ × Conn) → (user_count : ℕ) → Server
server is_et users user_count = record {
  listen_fd = 3;
  listen_et = false;
  is_et = is_et;
  timeout_ms = 0;
  src_dir = b'w' ∷ [];
  accounts = λ name. none;
  users = users;
  user_count = user_count;
  calls = [];
}

-- Takes at most 4 bytes at a time.
abbrev narrow : Socket
narrow = record { writev = λ turn text. some (min 4 (length text)); errno = λ turn. 11 }

narrow-IsHonest : IsHonest narrow
narrow-IsHonest turn text k took = omega (arith, unsome took)

nothing_taken : (turn : ℕ) (text : Text) → narrow.writev turn text ≡ some 0 → text ≡ []
nothing_taken turn [] e = refl
nothing_taken turn (c ∷ text) e = absurd (omega (arith, unsome e))

narrow-IsPatient : IsPatient narrow
narrow-IsPatient = record { takes = nothing_taken; again = λ turn. refl }

abbrev start : Server
start = server false [] 0

abbrev or_start : Option Server → Server
or_start none = start
or_start (some s) = s

abbrev first_of : Option (Server × Bool) → Server
first_of none = start
first_of (some (s, more)) = s

-- Two connections, and two threads that close the first at once.
abbrev two_open : Racing
two_open = record {
  server = server false ((5, sending) ∷ (6, sending) ∷ []) 2;
  ending = [];
  twice = 0;
}

abbrev begun : Option (Bool × Server) → Server
begun none = start
begun (some (shut, s)) = s

abbrev after_begins : Server
after_begins = begun (close_begins 5 (begun (close_begins 5 two_open.server)))

abbrev after_ends : Server
after_ends = begun (close_ends 5 (begun (close_ends 5 after_begins)))

abbrev raced : Racing
raced = record { server = after_ends; ending = []; twice = 1 }

one_short : (raced.server.user_count ≡ 0) × (count_open raced.server.users ≡ 1)
unfolding close_begins close_ends find_user put_user
one_short = (refl, refl)

-- A connection that comes and goes by itself.
comes_and_goes : (or_start (close_conn 5 (first_of (accept_turn sending 5 start)))).user_count ≡ 0
unfolding accept_turn add_client close_conn close HttpConn.init find_user put_user
comes_and_goes = refl

on_write_edge_example :
    (w : Written) × (write (suc (bytes_left sending)) narrow true sending ≡ some w)
    × (w.sent ++ offer w.conn ≡ offer sending)
    × (((w.sent ≡ offer sending)
          × (on_write disk narrow 5 (server true ((5, sending) ∷ []) 1)
              ≡ goes_on disk 5 w (set_user 5 w.conn (server true ((5, sending) ∷ []) 1))))
        ⊎ ((0 < bytes_left w.conn)
            × (on_write disk narrow 5 (server true ((5, sending) ∷ []) 1)
                ≡ waits 5 (set_user 5 w.conn (server true ((5, sending) ∷ []) 1)))))
unfolding find_user offer
on_write_edge_example =
    on_write_edge disk narrow 5 (server true ((5, sending) ∷ []) 1) sending refl refl refl refl
      (omega arith) narrow-IsHonest narrow-IsPatient

on_write_cut_example :
    (d : Conn) × (offer d ≡ drop 4 (offer sending))
    × (0 < length (offer d))
    × (on_write disk narrow 5 (server false ((5, sending) ∷ []) 1)
        ≡ close_conn 5 (set_user 5 d (server false ((5, sending) ∷ []) 1)))
unfolding find_user offer
on_write_cut_example =
    on_write_cut disk narrow 5 (server false ((5, sending) ∷ []) 1) sending 3 refl refl refl refl
      (omega arith) (omega arith)

abbrev fine : Opening
fine = record {
  socket = true;
  set_linger = true;
  set_reuse = true;
  bind = true;
  listen = true;
  add_listen = true;
}

small_port : init_socket 80 fine ≡ (false, false)
unfolding init_socket
small_port = refl

listens : init_socket 1316 fine ≡ (true, true)
unfolding init_socket
listens = refl

abbrev count_of : Option Server → ℕ
count_of none = 0
count_of (some s) = s.user_count

two_more :
    count_of (
      deal_event sending
        (6 ∷ 7 ∷ [])
        (record { fd = 3; hung_up = false; readable = true; writable = false })
        (record start { listen_et = true }))
    ≡ 2
unfolding deal_event deal_listen accept_turn add_client HttpConn.init find_user put_user
two_more = refl
