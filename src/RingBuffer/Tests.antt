-- ===== src/RingBuffer/Tests.antt =====
-- Runs of the buffer, and its theorems at an input.
use embedded_linux_iot_gatew.Prelude.{
  ℕ, ◌+◌, ◌-◌, ◌≡◌, refl, none, some, List, [], ◌∷◌, ◌++◌, arith, drop, take, replicate,
  length-replicate,
}
use embedded_linux_iot_gatew.RingBuffer.{
  RingQueue, readable_bytes, writable_bytes, append, got, buffer_read_fd,
}
use embedded_linux_iot_gatew.RingBuffer.Contents.{IsValid, unread}
use embedded_linux_iot_gatew.RingBuffer.Append.{append-unread}
use embedded_linux_iot_gatew.RingBuffer.Io.{buffer_read_fd-unread, buffer_read_fd_overruns}

-- Ten bytes written, of which two have been read.
abbrev sample : RingQueue
sample = record {
  front = 0;
  rear = 0;
  read_pos = 2;
  write_pos = 10;
  size = 4096;
  bytes = replicate 4096 7;
}

sample-IsValid : IsValid sample
sample-IsValid = record {
  storage = length-replicate {A = ℕ} 4096 7;
  size_lem = refl;
  ordered = omega arith;
  within = omega arith;
}

counts : readable_bytes sample + writable_bytes sample ≡ 8 + 4086
unfolding readable_bytes writable_bytes
counts = refl

append-unread_example :
    (b' : RingQueue) × (append sample (some (1 ∷ 2 ∷ 3 ∷ [])) 2 ≡ some b')
    × IsValid b'
    × (unread b' ≡ drop (2 - writable_bytes sample) (unread sample ++ take 2 (1 ∷ 2 ∷ 3 ∷ [])))
append-unread_example = append-unread sample-IsValid (1 ∷ 2 ∷ 3 ∷ []) 2 (omega arith) (omega arith)

buffer_read_fd-unread_example :
    let xs : List ℕ = 1 ∷ 2 ∷ [] in
    (b' : RingQueue) × (buffer_read_fd (got xs) sample ≡ some (b', got xs))
    × IsValid b'
    × (unread b' ≡ drop (2 - writable_bytes sample) (unread sample ++ xs))
buffer_read_fd-unread_example =
    buffer_read_fd-unread sample-IsValid (got (1 ∷ 2 ∷ [])) (omega arith)

buffer_read_fd_overruns_example : buffer_read_fd (got (replicate 9000 1)) sample ≡ none
unfolding writable_bytes
buffer_read_fd_overruns_example =
    buffer_read_fd_overruns sample-IsValid (replicate 9000 1)
      (omega (arith, length-replicate {A = ℕ} 9000 1))
      (omega (arith, length-replicate {A = ℕ} 9000 1))
