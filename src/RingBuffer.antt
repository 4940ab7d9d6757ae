-- ===== src/RingBuffer.antt =====
-- frameWork/buffer/ring_buffer.c and buffer.h: a buffer of 4 KB with a read and a write position.
-- A function that changes `*buffer` returns the new buffer. `none` is an assertion that fails, or
-- an access outside the memory that a pointer leads to.
mod Contents
pub mod Append
mod Io
mod Tests
use embedded_linux_iot_gatew.Prelude.{
  ℕ, ◌+◌, ◌-◌, ◌*◌, ◌%◌, Option, none, some, List, [], length, take, drop, min, ltb, leb,
  if◌then◌else◌, ◌>>=◌, ◌>>◌, assert, size_mod, memcpy, memmove_down, memset_zero, strlen,
}

-- RING_QUEUE_SIZE
abbrev pub ring_queue_size : ℕ
ring_queue_size = 4 * 1024

-- `bytes` is the array `data`. The positions and the size are ints that never turn negative here.
pub record RingQueue : Type 0 where
  pub front : ℕ
  pub rear : ℕ
  pub read_pos : ℕ
  pub write_pos : ℕ
  pub size : ℕ
  pub bytes : List ℕ

-- The array keeps whatever the memory held.
pub ring_queue_init : RingQueue → RingQueue
ring_queue_init b = record {
  front = 0;
  rear = 0;
  read_pos = 0;
  write_pos = 0;
  size = ring_queue_size;
  bytes = b.bytes;
}

-- A difference of ints turned into a size_t.
pub readable_bytes : RingQueue → ℕ
readable_bytes b = (b.write_pos + size_mod - b.read_pos) % size_mod

pub writable_bytes : RingQueue → ℕ
writable_bytes b = (b.size + size_mod - b.write_pos) % size_mod

pub prependable_bytes : RingQueue → ℕ
prependable_bytes b = b.read_pos

-- A pointer into `data` is its distance from the start of the array.
pub peek : RingQueue → ℕ
peek b = b.read_pos

pub begin_write : RingQueue → ℕ
begin_write b = b.write_pos

pub retrieve : RingQueue → ℕ → Option RingQueue
retrieve b len = do
  assert (leb len (readable_bytes b))
  some (record b { read_pos = b.read_pos + len })

pub retrieve_until : RingQueue → ℕ → Option RingQueue
unfolding peek
retrieve_until b end = do assert (leb (peek b) end); retrieve b (end - peek b)

pub retrieve_all : RingQueue → Option RingQueue
retrieve_all b = do
  cleared ← memset_zero b.bytes b.size
  some (record b { read_pos = 0; write_pos = 0; bytes = cleared })

-- The second result is the caller's `output` block.
pub retrieve_all_to_str : RingQueue → List ℕ → Option (RingQueue × List ℕ)
unfolding peek
retrieve_all_to_str b output = do
  out ← memcpy output 0 (drop (peek b) b.bytes) (readable_bytes b)
  b' ← retrieve_all b
  some (b', out)

pub has_written : RingQueue → ℕ → RingQueue
has_written b len = record b { write_pos = b.write_pos + len }

-- The branch of `append` for a write that does not fit: the array moves down by `extra_len`.
pub make_room : RingQueue → ℕ → Option RingQueue
make_room b extra_len = do
  moved ← memmove_down b.bytes extra_len ((b.size + size_mod - extra_len) % size_mod)
  some (record b { bytes = moved; write_pos = (b.write_pos + size_mod - extra_len) % size_mod })

-- `str` is what can be read behind the pointer, and `none` is NULL. The differences of size_t wrap.
pub append : RingQueue → Option (List ℕ) → ℕ → Option RingQueue
unfolding writable_bytes begin_write has_written make_room
append b none len = none
append b (some str) len = do
  room ← (if ltb (writable_bytes b) len then make_room b (len - writable_bytes b) else some b)
  written ← memcpy room.bytes (begin_write room) str len
  some (has_written (record room { bytes = written }) len)

pub append_str : RingQueue → Option (List ℕ) → Option RingQueue
append_str b none = none
append_str b (some str) = do len ← strlen str; append b (some str) len

pub free_buffer : RingQueue → Option RingQueue
free_buffer b = do
  cleared ← memset_zero b.bytes ring_queue_size
  some (record b { read_pos = 0; write_pos = 0; bytes = cleared })

-- What `readv` did: an error with its number, or the bytes that it took from the file in order.
pub data Received : Type 0 where
  failed : ℕ → Received
  got : List ℕ → Received

-- `readv` fills the writable part of the array, then the block `buff` of 65535 bytes. The results
-- are the buffer and what the call returns (for an error, the number saved in `*saveErrno`).
pub buffer_read_fd : Received → RingQueue → Option (RingQueue × Received)
unfolding writable_bytes
buffer_read_fd (failed errno) b = some (b, failed errno)
buffer_read_fd (got xs) b = do
  let writable = writable_bytes b
  let len = length xs
  scattered ← memcpy b.bytes b.write_pos xs (min len writable)
  b' ←
      (if leb len writable
        then some (record b { write_pos = b.write_pos + len; bytes = scattered })
        else append (record b { write_pos = b.size; bytes = scattered }) (some (drop writable xs))
            (len - writable))
  some (b', got xs)

-- What `write` did: an error with its number, or how many bytes it took.
pub data Sent : Type 0 where
  failed : ℕ → Sent
  sent : ℕ → Sent

-- The last result holds the bytes that the file received.
pub buffer_write_fd : Sent → RingQueue → RingQueue × Sent × List ℕ
unfolding peek
buffer_write_fd (failed errno) b = (b, failed errno, [])
buffer_write_fd (sent len) b =
    (record b { read_pos = b.read_pos + len }, sent len, take len (drop (peek b) b.bytes))
