-- ===== src/RingBuffer/Append.antt =====
-- `append` (frameWork/buffer/ring_buffer.c): the unread bytes before and after.
use embedded_linux_iot_gatew.Prelude.{
  ℕ, ◌+◌, ◌-◌, ◌%◌, ◌≤◌, ◌<◌, ◌≡◌, refl, sym, ap, ◌∙◌, inl, inr, none, some, List, ◌++◌, arith,
  length, take, drop, ltb, ltb→lt, size_mod, length-take, drop-append_le, drop-drop,
  memmove_down-none, memmove_down-ok, memcpy-none, length-move, ◌>>=◌, Bool-cases, true, false,
}
use native.Mathlib.Decide.{dec_le}
use embedded_linux_iot_gatew.RingBuffer.{RingQueue, writable_bytes, append, make_room}
use embedded_linux_iot_gatew.RingBuffer.Contents.{
  IsValid, filled, unread, writable_bytes_lem, Shifted, make_room-Shifted, Written, copy_in,
  copy_in-Written,
}

-- To drop from the front of the stream and to drop what has been read commute.
drop_comm :
    (e r : ℕ) (xs s : List ℕ)
    → e ≤ length xs
    → r ≤ length xs
    → drop r (drop e xs ++ s) ≡ drop e (drop r xs ++ s)
drop_comm e r xs s h k =
    ap (drop r) (sym (drop-append_le e xs s h))
    ∙ drop-drop r e (e + r) (xs ++ s) refl
    ∙ sym (drop-drop e r (e + r) (xs ++ s) (omega arith))
    ∙ ap (drop e) (drop-append_le r xs s k)

-- The outcome of writing the bytes `s` to a buffer: `e` bytes are lost in front of the stream.
abbrev pub Appended : RingQueue → ℕ → List ℕ → RingQueue → Type 0
Appended b e s b' = IsValid b' × (unread b' ≡ drop e (unread b ++ s))

-- The stream after the two steps.
Written-unread :
    {b room b' : RingQueue} (e len : ℕ) (s : List ℕ)
    → IsValid b
    → Shifted b e len room
    → Written room s b'
    → unread b' ≡ drop e (unread b ++ s)
Written-unread {b} {room} {b'} e len s v sh w =
    ap (λ r. drop r (filled b')) (w.read_eq ∙ sh.read_eq)
    ∙ ap (drop b.read_pos) (w.contents ∙ ap (λ f. f ++ s) sh.contents)
    ∙ drop_comm e b.read_pos (filled b) s (omega (arith, size)) (omega (arith, size))
  where
    size : length (filled b) ≡ b.write_pos
    size = omega (arith, length-take b.write_pos b.bytes)

module _ {b : RingQueue} (v : IsValid b) (str : List ℕ) (len : ℕ) (h : len ≤ length str) where
  self-Shifted : b.write_pos + len ≤ b.size → Shifted b 0 len b
  self-Shifted k = record {
    size_eq = refl;
    read_eq = refl;
    write_eq = omega arith;
    storage = v.storage;
    fits = k;
    contents = refl;
  }

  -- Once there is room, the copy and the new write position.
  copy_in-Appended :
      {e : ℕ} {room : RingQueue}
      → Shifted b e len room
      → b.read_pos ≤ room.write_pos + len
      → (b' : RingQueue) × (copy_in room str len ≡ some b') × Appended b e (take len str) b'
  copy_in-Appended {e} {room} sh ord =
      let (b', run, w) = copy_in-Written room str len h (omega arith) in
      (
        b',
        run,
        (
          record {
            storage = omega arith;
            size_lem = omega (arith, v.size_lem);
            ordered = omega (arith, length-take len str);
            within = omega (arith, length-take len str);
          },
          Written-unread e len (take len str) v sh w,
        ),
      )

  append_fits :
      len ≤ writable_bytes b
      → (b' : RingQueue) × (append b (some str) len ≡ some b') × Appended b 0 (take len str) b'
  unfolding append
  append_fits fits =
      let test : ltb (writable_bytes b) len ≡ false = ground arith in
      rw test (copy_in-Appended (self-Shifted (omega (arith, writable_bytes_lem v))) (omega arith))

  append_shifts :
      writable_bytes b < len
      → len ≤ b.size
      → (b' : RingQueue) × (append b (some str) len ≡ some b')
        × Appended b (len - writable_bytes b) (take len str) b'
  unfolding append
  append_shifts over small =
      let test : ltb (writable_bytes b) len ≡ true = ground arith in
      let (room, made, sh) =
        make_room-Shifted v (len - writable_bytes b) len (omega (arith, writable_bytes_lem v))
          small in
      rw (test, made) (copy_in-Appended sh (omega (arith, writable_bytes_lem v)))

-- Writing `len` bytes to a valid buffer keeps it valid whenever they fit into the whole array. The
-- unread stream gains the bytes at its end, and loses in front as many as were short of room.
pub append-unread :
    {b : RingQueue}
    → IsValid b
    → (str : List ℕ) (len : ℕ) → len ≤ length str
    → len ≤ b.size
    → (b' : RingQueue) × (append b (some str) len ≡ some b')
      × IsValid b'
      × (unread b' ≡ drop (len - writable_bytes b) (unread b ++ take len str))
append-unread {b} v str len h small = elim (Bool-cases (ltb (writable_bytes b) len)) [
  | inl over ↦
      let (b', run, a) = append_shifts v str len h (ltb→lt _ _ over) small in (b', run, a.0, a.1)
  | inr fits ↦
      let (b', run, a) = append_fits v str len h (ground arith) in
      let none_lost : len - writable_bytes b ≡ 0 = ground arith in (b', run, a.0, rw none_lost a.1)
]

module _ {b : RingQueue} (v : IsValid b) (str : List ℕ) (len : ℕ) (over : b.size < len)
    (small : len < size_mod) where
  -- The write position turns negative: as a size_t it lies far behind the array.
  copy_in-none :
      (room : RingQueue)
      → length room.bytes ≡ length b.bytes
      → room.write_pos ≡ (b.write_pos + size_mod - (len - writable_bytes b)) % size_mod
      → copy_in room str len ≡ none
  copy_in-none room same place = rw (
      memcpy-none room.bytes room.write_pos str len
        (omega (arith, writable_bytes_lem v, v.size_lem)))

  make_room-none : (make_room b (len - writable_bytes b) >>= λ room. copy_in room str len) ≡ none
  unfolding make_room
  make_room-none = elim (dec_le (len - writable_bytes b) b.size) [
    | yes h ↦
        rw
          (memmove_down-ok b.bytes (len - writable_bytes b)
            ((b.size + size_mod - (len - writable_bytes b)) % size_mod) (omega (arith, v.size_lem)))
          (copy_in-none _ (length-move b.bytes _ _ (omega (arith, v.size_lem))) refl)
    | no h ↦ rw (
        memmove_down-none b.bytes (len - writable_bytes b)
          ((b.size + size_mod - (len - writable_bytes b)) % size_mod)
          (omega (arith, v.size_lem, writable_bytes_lem v)))
  ]

  -- Writing more bytes than the whole array holds runs out of it: on a valid buffer no such call
  -- of `append` has a defined result.
  pub append-none : append b (some str) len ≡ none
  unfolding append
  append-none =
      let test : ltb (writable_bytes b) len ≡ true = ground (arith, writable_bytes_lem v) in
      rw test make_room-none
