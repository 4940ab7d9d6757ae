-- ===== src/Shell.antt =====
-- shell/shellserver.c and shell/shellServer.h: the commands that are registered with the shell
-- server, and the answer to a client. A callback is a function of what follows the header in the
-- receive buffer and of the send buffer, which it changes. A read behind the end of an array or
-- through NULL is `none`.
pub mod Match
pub mod Serve
mod Tests
use embedded_linux_iot_gatew.Prelude.{
  ℕ, zero, suc, ◌-◌, Bool, true, false, ◌&&◌, Option, none, some, List, [], ◌∷◌, ◌++◌, length, take,
  drop, replicate, ltb, ◌==◌, if◌then◌else◌, ◌>>=◌, Text,
}

abbrev pub cmdname_len : ℕ
cmdname_len = 16

-- sizeof(struct cmdheader)
abbrev pub header_len : ℕ
header_len = 28

abbrev pub Callback : Type 0
Callback = List ℕ → List ℕ → List ℕ

-- `shellunit`: its sixteen bytes of name, and `fn` with `udata`.
pub record ShellUnit : Type 0 where
  pub cmdname : List ℕ
  pub call : Callback

-- strncpy to the sixteen bytes
unfoldable pub to_cmdname : Text → List ℕ
to_cmdname name =
    take cmdname_len name ++ replicate (cmdname_len - length (take cmdname_len name)) 0

-- `regShellCmd`; the Bool is false for the result -1, and `none` the write through NULL when `malloc`
-- fails.
unfoldable pub reg_shell_cmd :
    (memory_ok : Bool) → List ShellUnit → Option Text → Callback → Option (List ShellUnit × Bool)
unfolding to_cmdname
reg_shell_cmd memory_ok units none fn = some (units, false)
reg_shell_cmd memory_ok units (some name) fn =
    if memory_ok
    then some (units ++ (record { cmdname = to_cmdname name; call = fn } ∷ []), true)
    else none

-- The text in an array, up to its zero byte.
unfoldable pub c_string : List ℕ → Option Text
c_string [] = none
c_string (c ∷ cs) =
    let rest = c_string cs in if c == 0 then some [] else (rest >>= λ t. some (c ∷ t))

-- strncmp(array, name, strlen(name)) == 0
unfoldable pub starts_with : Text → List ℕ → Bool
starts_with [] array = true
starts_with (c ∷ cs) [] = false
starts_with (c ∷ cs) (a ∷ array) = a == c && starts_with cs array

-- The loop over the list.
unfoldable pub call_matching : List ShellUnit → Text → List ℕ → List ℕ → List ℕ
unfolding starts_with
call_matching [] name recv send = send
call_matching (u ∷ us) name recv send =
    call_matching us name recv (if starts_with name u.cmdname then u.call recv send else send)

-- `analysis_cmd`, with the send buffer as the result; a receive buffer `none` is NULL.
unfoldable pub analysis_cmd : List ShellUnit → Option (List ℕ) → ℕ → List ℕ → Option (List ℕ)
unfolding c_string call_matching
analysis_cmd units none recvlen send = some send
analysis_cmd units (some recv) recvlen send =
    if ltb recvlen header_len
    then some send
    else (c_string (take cmdname_len recv) >>= λ name.
        some (call_matching units name (drop header_len recv) send))

-- What `read` answers: the bytes it read, nothing at the end of the stream, or -1.
pub data Read : Type 0 where
  got : List ℕ → Read
  closed error : Read

pub record Buffers : Type 0 where
  pub recvbuf : List ℕ
  pub sendbuf : List ℕ

unfoldable pub received : Read → List ℕ → List ℕ
received (got bytes) buf = bytes ++ drop (length bytes) buf
received closed buf = buf
received error buf = buf

-- The answer to what is in the receive buffer: the send buffer up to its zero byte.
unfoldable pub answer : List ShellUnit → Buffers → Option (Buffers × Text)
unfolding analysis_cmd
answer units b = analysis_cmd units (some b.recvbuf) (length b.recvbuf) b.sendbuf >>= λ send.
    c_string send >>= λ text. some (record b { sendbuf = send }, text)

-- One client of the loop of `shellServerTask`, with the text that is sent to it. The result -1 of
-- `read` is not zero either.
unfoldable pub serve : List ShellUnit → Read → Buffers → Option (Buffers × Text)
unfolding received answer
serve units closed b = some (b, [])
serve units (got bytes) b = answer units (record b { recvbuf = received (got bytes) b.recvbuf })
serve units error b = answer units (record b { recvbuf = received error b.recvbuf })
