-- ===== src/Buffer.antt =====
-- webServer/code/buffer/buffer.cpp: the buffer of a connection, an array that grows, with the
-- positions of the next byte to be read and to be written. A failing assertion, or an access behind
-- the array, is `none`.
pub mod Refine
pub mod Runs
mod Tests
use embedded_linux_iot_gatew.Prelude.{
  ℕ, ◌+◌, ◌-◌, Option, none, some, List, [], ◌∷◌, ◌++◌, length, take, drop, replicate, ltb, leb,
  if◌then◌else◌, ◌>>=◌, memcpy, memmove_down, Text,
}

pub record Buffer : Type 0 where
  pub bytes : Text
  pub read_pos : ℕ
  pub write_pos : ℕ

-- The constructor.
abbrev pub new_buffer : (init_buff_size : ℕ) → Buffer
new_buffer n = record { bytes = replicate n 0; read_pos = 0; write_pos = 0 }

-- `ReadableBytes`
abbrev pub readable_bytes : Buffer → ℕ
readable_bytes b = b.write_pos - b.read_pos

-- `WritableBytes`
abbrev pub writable_bytes : Buffer → ℕ
writable_bytes b = length b.bytes - b.write_pos

-- `PrependableBytes`
abbrev pub prependable_bytes : Buffer → ℕ
prependable_bytes b = b.read_pos

-- The bytes from `Peek` up to `BeginWrite`.
abbrev pub peek : Buffer → Text
peek b = take (readable_bytes b) (drop b.read_pos b.bytes)

-- `Retrieve`
unfoldable pub retrieve : ℕ → Buffer → Option Buffer
retrieve n b =
    if leb n (readable_bytes b) then some (record b { read_pos = b.read_pos + n }) else none

-- `RetrieveAll`
unfoldable pub retrieve_all : Buffer → Buffer
retrieve_all b = record { bytes = replicate (length b.bytes) 0; read_pos = 0; write_pos = 0 }

-- `RetrieveAllToStr`
unfoldable pub retrieve_all_to_str : Buffer → Text × Buffer
retrieve_all_to_str b = (peek b, retrieve_all b)

-- `HasWritten`
abbrev pub has_written : ℕ → Buffer → Buffer
has_written n b = record b { write_pos = b.write_pos + n }

-- `resize` of a vector.
abbrev pub resize : ℕ → Text → Text
resize n bytes = take n bytes ++ replicate (n - length bytes) 0

-- `MakeSpace_`
unfoldable pub make_space : ℕ → Buffer → Option Buffer
make_space n b =
    if ltb (writable_bytes b + prependable_bytes b) n
    then some (record b { bytes = resize (b.write_pos + n + 1) b.bytes })
    else (memmove_down b.bytes b.read_pos (readable_bytes b) >>= λ moved.
        some (record { bytes = moved; read_pos = 0; write_pos = readable_bytes b }))

-- `EnsureWriteable`
unfoldable pub ensure_writeable : ℕ → Buffer → Option Buffer
ensure_writeable n b = (if ltb (writable_bytes b) n then make_space n b else some b) >>= λ c.
    if leb n (writable_bytes c) then some c else none

unfoldable pub copy_in : Text → Buffer → Option Buffer
copy_in str b = memcpy b.bytes b.write_pos str (length str) >>= λ bytes.
    some (has_written (length str) (record b { bytes = bytes }))

-- `Append`
unfoldable pub append : Text → Buffer → Option Buffer
append str b = ensure_writeable (length str) b >>= copy_in str

-- `ReadFd`, with the bytes that `readv` gives: those for which the buffer has no room go through an
-- array on the stack.
unfoldable pub read_fd : Text → Buffer → Option Buffer
read_fd given b =
    if leb (length given) (writable_bytes b)
    then copy_in given b
    else (copy_in (take (writable_bytes b) given) b >>= append (drop (writable_bytes b) given))

-- `RetrieveUntil`, with the place in the array of the first byte that stays.
unfoldable pub retrieve_until : (end : ℕ) → Buffer → Option Buffer
unfolding retrieve
retrieve_until end b = if leb b.read_pos end then retrieve (end - b.read_pos) b else none

-- `WriteFd`, with the number of bytes that `write` takes, where `none` is -1.
unfoldable pub write_fd : (taken : Option ℕ) → Buffer → Buffer
write_fd none b = b
write_fd (some n) b = record b { read_pos = b.read_pos + n }
