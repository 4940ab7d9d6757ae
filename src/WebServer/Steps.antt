-- ===== src/WebServer/Steps.antt =====
-- The parts of the handlers of the server in any order (webServer/code/server/webserver.cpp).
use embedded_linux_iot_gatew.Prelude.{ℕ, ◌<◌, ◌≡◌, Bool, some, List, ◌∷◌, ◌++◌, Text}
use embedded_linux_iot_gatew.HttpResponse.{Disk}
use embedded_linux_iot_gatew.HttpConn.{Conn, Socket}
use embedded_linux_iot_gatew.WebServer.{
  Server, find_user, accept_turn, on_process, deal_read, deal_write,
}
use embedded_linux_iot_gatew.WebServer.Parts.{
  Racing, close_begins, close_ends, read_part, write_part, wait_part, and_ending, and_twice,
}
use embedded_linux_iot_gatew.WebServer.Counts.{opened_in, IsCounted}

-- A part of a handler, in the main thread or in one of the pool. `CloseConn_` is `begins` and, if
-- the connection is open, `ends`; `OnRead_` is `reads` and then `processes` or `CloseConn_`;
-- `OnWrite_` is `writes` and then `processes`, `waits` or `CloseConn_`. Any parts can come between
-- those of a handler; each runs by itself, so that two threads in the buffers of one connection are
-- left out.
pub data Step (disk : Disk) : Racing → Racing → Type 0 where
  -- `accept` gives no descriptor of an open connection.
  accepts :
      {s t : Server} {ending : List ℕ} {twice : ℕ} (raw : Conn) (fd : ℕ) (more : Bool)
      → opened_in (find_user fd s.users) ≡ 0
      → accept_turn raw fd s ≡ some (t, more)
      → Step disk
          (record { server = s; ending = ending; twice = twice })
          (record { server = t; ending = ending; twice = twice })
  begins :
      {s t : Server} {ending : List ℕ} {twice : ℕ} (fd : ℕ) (is_close : Bool)
      → close_begins fd s ≡ some (is_close, t)
      → Step disk
          (record { server = s; ending = ending; twice = twice })
          (record { server = t; ending = and_ending is_close fd ending; twice = twice })
  -- A number that goes below zero is left out.
  ends :
      {s t : Server} {twice : ℕ} (before after : List ℕ) (fd : ℕ) (is_close : Bool)
      → 0 < s.user_count
      → close_ends fd s ≡ some (is_close, t)
      → Step disk
          (record { server = s; ending = before ++ fd ∷ after; twice = twice })
          (record { server = t; ending = before ++ after; twice = and_twice is_close twice })
  reads :
      {s t : Server} {ending : List ℕ} {twice : ℕ} (fd : ℕ) (given : List Text) (closed : Bool)
      → read_part fd given closed s ≡ some t
      → Step disk
          (record { server = s; ending = ending; twice = twice })
          (record { server = t; ending = ending; twice = twice })
  writes :
      {s t : Server} {ending : List ℕ} {twice : ℕ} (socket : Socket) (fd : ℕ)
      → write_part socket fd s ≡ some t
      → Step disk
          (record { server = s; ending = ending; twice = twice })
          (record { server = t; ending = ending; twice = twice })
  processes :
      {s t : Server} {ending : List ℕ} {twice : ℕ} (fd : ℕ)
      → on_process disk fd s ≡ some t
      → Step disk
          (record { server = s; ending = ending; twice = twice })
          (record { server = t; ending = ending; twice = twice })
  waits : {r : Racing} (fd : ℕ) → Step disk r (record r { server = wait_part fd r.server })
  asks_read : {r : Racing} (fd : ℕ) → Step disk r (record r { server = deal_read fd r.server })
  asks_write : {r : Racing} (fd : ℕ) → Step disk r (record r { server = deal_write fd r.server })

pub data Runs (disk : Disk) : Racing → Racing → Type 0 where
  stop : {r : Racing} → Runs disk r r
  next : {r t u : Racing} → Runs disk r t → Step disk t u → Runs disk r u

-- The count in a race: each `Close` that found its connection closed behind its test is one too many.
abbrev pub IsRaced : Racing → Type 0
IsRaced r = IsCounted r.twice r.server
