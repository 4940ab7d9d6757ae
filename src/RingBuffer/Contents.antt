-- ===== src/RingBuffer/Contents.antt =====
-- The buffer as a stream of bytes: what stands in front of the write position, and which part of
-- it is unread.
use embedded_linux_iot_gatew.Prelude.{
  ℕ, ◌+◌, ◌-◌, ◌%◌, ◌≤◌, ◌≡◌, refl, ◌∙◌, Option, some, List, ◌++◌, arith, length, take, drop,
  memcpy, size_mod, length-append, length-take, length-drop, take-take, take-drop, memcpy-ok,
  memmove_down-ok, take-append_le, ◌>>=◌, length-splice, take-splice,
}
use embedded_linux_iot_gatew.RingBuffer.{
  RingQueue, ring_queue_size, readable_bytes, writable_bytes, make_room, has_written,
}

-- The positions are ordered and lie in the array.
pub record IsValid (b : RingQueue) : Type 0 where
  pub storage : length b.bytes ≡ b.size
  pub size_lem : b.size ≡ ring_queue_size
  pub ordered : b.read_pos ≤ b.write_pos
  pub within : b.write_pos ≤ b.size

-- What has been written since the array last moved.
abbrev pub filled : RingQueue → List ℕ
filled b = take b.write_pos b.bytes

abbrev pub unread : RingQueue → List ℕ
unread b = drop b.read_pos (filled b)

pub readable_bytes_lem : {b : RingQueue} → IsValid b → readable_bytes b ≡ b.write_pos - b.read_pos
unfolding readable_bytes
readable_bytes_lem v = omega arith

pub writable_bytes_lem : {b : RingQueue} → IsValid b → writable_bytes b ≡ b.size - b.write_pos
unfolding writable_bytes
writable_bytes_lem v = omega arith

pub length-unread : {b : RingQueue} → IsValid b → length (unread b) ≡ readable_bytes b
length-unread {b} v = omega (
  arith,
  readable_bytes_lem v,
  length-drop b.read_pos (filled b),
  length-take b.write_pos b.bytes,
)

-- A buffer after the array has moved down by `e` bytes to make room for `n`.
pub record Shifted (b : RingQueue) (e n : ℕ) (b' : RingQueue) : Type 0 where
  pub size_eq : b'.size ≡ b.size
  pub read_eq : b'.read_pos ≡ b.read_pos
  pub write_eq : b'.write_pos + e ≡ b.write_pos
  pub storage : length b'.bytes ≡ b.size
  pub fits : b'.write_pos + n ≤ b.size
  pub contents : filled b' ≡ drop e (filled b)

pub make_room-Shifted :
    {b : RingQueue}
    → IsValid b
    → (e n : ℕ) → b.write_pos + n ≡ b.size + e
    → n ≤ b.size
    → (b' : RingQueue) × (make_room b e ≡ some b') × Shifted b e n b'
unfolding make_room
make_room-Shifted {b} v e n h small = (
  record b {
    bytes = take (b.size - e) (drop e b.bytes) ++ drop (b.size - e) b.bytes;
    write_pos = b.write_pos - e;
  },
  rw (count, memmove_down-ok b.bytes e (b.size - e) (omega arith), place),
  record {
    size_eq = refl;
    read_eq = refl;
    write_eq = omega arith;
    storage = omega (
      arith,
      length-append (take (b.size - e) (drop e b.bytes)) (drop (b.size - e) b.bytes),
      length-take (b.size - e) (drop e b.bytes),
      length-drop e b.bytes,
      length-drop (b.size - e) b.bytes,
    );
    fits = omega arith;
    contents =
        take-append_le _ (take (b.size - e) (drop e b.bytes)) _
          (omega (arith, length-take (b.size - e) (drop e b.bytes), length-drop e b.bytes))
        ∙ take-take _ _ (drop e b.bytes) (omega arith)
        ∙ take-drop _ e b.write_pos b.bytes (omega arith);
  },
)
  where
    count : (b.size + size_mod - e) % size_mod ≡ b.size - e
    count = omega (arith, v.size_lem)

    place : (b.write_pos + size_mod - e) % size_mod ≡ b.write_pos - e
    place = omega (arith, v.size_lem)

-- `memcpy` behind the write position, for a block that fits.
pub record Written (b : RingQueue) (s : List ℕ) (b' : RingQueue) : Type 0 where
  pub size_eq : b'.size ≡ b.size
  pub read_eq : b'.read_pos ≡ b.read_pos
  pub write_eq : b'.write_pos ≡ b.write_pos + length s
  pub storage : length b'.bytes ≡ length b.bytes
  pub contents : filled b' ≡ filled b ++ s

abbrev pub copy_in : RingQueue → List ℕ → ℕ → Option RingQueue
copy_in b str len = memcpy b.bytes b.write_pos str len >>= λ written.
    some (has_written (record b { bytes = written }) len)

pub copy_in-Written :
    (b : RingQueue) (str : List ℕ) (len : ℕ)
    → len ≤ length str
    → b.write_pos + len ≤ length b.bytes
    → (b' : RingQueue) × (copy_in b str len ≡ some b') × Written b (take len str) b'
unfolding has_written
copy_in-Written b str len h k = (
  record b {
    bytes = take b.write_pos b.bytes ++ (take len str ++ drop (b.write_pos + len) b.bytes);
    write_pos = b.write_pos + len;
  },
  rw (memcpy-ok b.bytes b.write_pos str len h k),
  record {
    size_eq = refl;
    read_eq = refl;
    write_eq = omega (arith, length-take len str);
    storage = length-splice b.bytes b.write_pos str len h k;
    contents = take-splice b.bytes b.write_pos str len _ h k refl;
  },
)
