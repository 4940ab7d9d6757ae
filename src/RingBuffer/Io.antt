-- ===== src/RingBuffer/Io.antt =====
-- The reading side of the buffer, and its transfers from and to files.
use embedded_linux_iot_gatew.Prelude.{
  ℕ, ◌+◌, ◌-◌, ◌≤◌, ◌<◌, ◌≡◌, refl, sym, ap, ◌∙◌, inl, inr, none, some, List, append-nil, ◌⊎◌, ◌++◌,
  arith, [], length, take, drop, leb, size_mod, length-take, length-drop, length-append, take_of_ge,
  take-append-drop, ap₂, drop-append_le, drop-drop, take-take, take-drop, memcpy-ok, take-splice,
  length-splice, true, false, min, memcpy, append_assoc, replicate, memset_zero-ok,
  length-replicate,
}
use native.Mathlib.Decide.{dec_le, dec_lt}
use native.Mathlib.Nat.{zero-add}
use embedded_linux_iot_gatew.RingBuffer.{
  RingQueue, readable_bytes, writable_bytes, retrieve, retrieve_all, retrieve_all_to_str, Received,
  got, failed, buffer_read_fd, Sent, sent, buffer_write_fd,
}
use embedded_linux_iot_gatew.RingBuffer.Contents.{
  IsValid, filled, unread, writable_bytes_lem, readable_bytes_lem,
}
use embedded_linux_iot_gatew.RingBuffer.Append.{append-unread, append-none}

-- `retrieve` drops the first `len` unread bytes; with fewer of them its assertion fails.
pub retrieve-unread :
    {b : RingQueue}
    → IsValid b
    → (len : ℕ)
    → ((len ≤ readable_bytes b)
        × ((b' : RingQueue) × (retrieve b len ≡ some b')
            × IsValid b'
            × (unread b' ≡ drop len (unread b))))
      ⊎ ((readable_bytes b < len) × (retrieve b len ≡ none))
unfolding retrieve
retrieve-unread {b} v len = elim (dec_le len (readable_bytes b)) [
  | yes h ↦ inl (
    h,
    (
      record b { read_pos = b.read_pos + len },
      ground arith,
      record {
        storage = v.storage;
        size_lem = v.size_lem;
        ordered = omega (arith, readable_bytes_lem v);
        within = v.within;
      },
      sym (drop-drop len b.read_pos (b.read_pos + len) (filled b) refl),
    ),
  )
  | no h ↦ inr (omega arith, ground arith)
]

retrieve_all-empty :
    {b : RingQueue}
    → IsValid b
    → (b' : RingQueue) × (retrieve_all b ≡ some b') × IsValid b' × (unread b' ≡ [])
unfolding retrieve_all
retrieve_all-empty {b} v = (
  record b { read_pos = 0; write_pos = 0; bytes = replicate b.size 0 ++ drop b.size b.bytes },
  rw (memset_zero-ok b.bytes b.size (omega (arith, v.storage))),
  record {
    storage = omega (
      arith,
      length-append (replicate {A = ℕ} b.size 0) (drop b.size b.bytes),
      length-replicate {A = ℕ} b.size 0,
      length-drop b.size b.bytes,
      v.storage,
    );
    size_lem = v.size_lem;
    ordered = omega arith;
    within = omega arith;
  },
  refl,
)

-- `retrieveAllToStr` copies the whole unread stream to the front of the caller's block, if the
-- block has the room, keeps the rest of the block, and leaves a valid buffer with nothing unread.
pub retrieve_all_to_str-unread :
    {b : RingQueue}
    → IsValid b
    → (output : List ℕ) → readable_bytes b ≤ length output
    → (b' : RingQueue) × (retrieve_all_to_str b output
        ≡ some (b', unread b ++ drop (readable_bytes b) output))
      × IsValid b'
      × (unread b' ≡ [])
unfolding retrieve_all_to_str
retrieve_all_to_str-unread {b} v output h =
    let (b', run, valid, empty) = retrieve_all-empty v in
    (
      b',
      rw (copied, run) (ap (λ t. some (b', t ++ drop (readable_bytes b) output)) stream),
      valid,
      empty,
    )
  where
    copied :
        memcpy output 0 (drop b.read_pos b.bytes) (readable_bytes b)
        ≡ some (take (readable_bytes b) (drop b.read_pos b.bytes) ++ drop (readable_bytes b) output)
    copied =
        memcpy-ok output 0 (drop b.read_pos b.bytes) (readable_bytes b)
          (omega (arith, readable_bytes_lem v, length-drop b.read_pos b.bytes)) (omega arith)
        ∙ ap (λ k. some (take (readable_bytes b) (drop b.read_pos b.bytes) ++ drop k output))
            (zero-add (readable_bytes b))

    stream : take (readable_bytes b) (drop b.read_pos b.bytes) ≡ unread b
    stream =
        take-drop (readable_bytes b) b.read_pos b.write_pos b.bytes
          (omega (arith, readable_bytes_lem v))

-- How many bytes the file took.
abbrev pub taken : Sent → ℕ
taken (failed errno) = 0
taken (sent len) = len

-- `BufferWriteFd`: the file received the front of the unread stream, as many bytes as `write` says
-- that it took (none on an error), and exactly those are no longer unread. The outcome is returned.
pub buffer_write_fd-unread :
    {b : RingQueue}
    → IsValid b
    → (r : Sent) → taken r ≤ readable_bytes b
    → let (b', result, out) = buffer_write_fd r b in
      (result ≡ r) × IsValid b' × (out ++ unread b' ≡ unread b) × (length out ≡ taken r)
unfolding buffer_write_fd
buffer_write_fd-unread v (failed errno) h = (refl, v, refl, refl)
buffer_write_fd-unread {b} v (sent len) h = (
  refl,
  record {
    storage = v.storage;
    size_lem = v.size_lem;
    ordered = omega (arith, readable_bytes_lem v);
    within = v.within;
  },
  ap₂ ◌++◌ front (sym (drop-drop len b.read_pos (b.read_pos + len) (filled b) refl))
      ∙ take-append-drop len (unread b),
  omega (
    arith,
    length-take len (drop b.read_pos b.bytes),
    length-drop b.read_pos b.bytes,
    readable_bytes_lem v,
  ),
)
  where
    front : take len (drop b.read_pos b.bytes) ≡ take len (unread b)
    front =
        take-drop len b.read_pos (b.read_pos + len) b.bytes refl
        ∙ ap (drop b.read_pos) (
            sym (
              take-take (b.read_pos + len) b.write_pos b.bytes
                (omega (arith, readable_bytes_lem v))))
        ∙ sym (take-drop len b.read_pos (b.read_pos + len) (filled b) refl)

module _ {b : RingQueue} (v : IsValid b) (xs : List ℕ) where
  -- The array after `readv` has filled `n` bytes of the writable part.
  scattered : ℕ → List ℕ
  scattered n = take b.write_pos b.bytes ++ (take n xs ++ drop (b.write_pos + n) b.bytes)

  -- The buffer with `n` of the bytes, for a write position behind them.
  Written-IsValid :
      (n pos : ℕ)
      → n ≤ length xs
      → b.write_pos + n ≡ pos
      → pos ≤ b.size
      → let b' : RingQueue = record b { write_pos = pos; bytes = scattered n } in
        IsValid b' × (unread b' ≡ unread b ++ take n xs)
  unfolding scattered
  Written-IsValid n pos h e k = (
    record {
      storage = length-splice b.bytes b.write_pos xs n h (omega (arith, v.storage)) ∙ v.storage;
      size_lem = v.size_lem;
      ordered = omega arith;
      within = k;
    },
    ap (drop b.read_pos) (take-splice b.bytes b.write_pos xs n pos h (omega (arith, v.storage)) e)
        ∙ drop-append_le b.read_pos (filled b) (take n xs)
            (omega (arith, length-take b.write_pos b.bytes, v.storage)),
  )

  buffer_read_fd_fits :
      length xs ≤ writable_bytes b
      → (b' : RingQueue) × (buffer_read_fd (got xs) b ≡ some (b', got xs))
        × IsValid b'
        × (unread b' ≡ unread b ++ xs)
  unfolding buffer_read_fd scattered
  buffer_read_fd_fits fits =
      let (valid, eq) =
        Written-IsValid (length xs) (b.write_pos + length xs) (omega arith) refl
          (omega (arith, writable_bytes_lem v)) in
      (
        record b { write_pos = b.write_pos + length xs; bytes = scattered (length xs) },
        rw (
          count,
          memcpy-ok b.bytes b.write_pos xs (length xs) (omega arith)
              (omega (arith, v.storage, writable_bytes_lem v)),
          test,
        ),
        valid,
        eq ∙ ap (λ t. unread b ++ t) (take_of_ge (length xs) xs (omega arith)),
      )
    where
      count : min (length xs) (writable_bytes b) ≡ length xs
      count = omega arith

      test : leb (length xs) (writable_bytes b) ≡ true
      test = ground arith

  over_stream :
      (t : List ℕ) (n z : ℕ)
      → z ≡ 0
      → t ≡ unread b ++ take n xs
      → drop (length xs - n - z) (t ++ take (length xs - n) (drop n xs))
        ≡ drop (length xs - n) (unread b ++ xs)
  over_stream t n z none_left e =
      let count : length xs - n - z ≡ length xs - n = omega arith in
      rw (
        count,
        e,
        take_of_ge (length xs - n) (drop n xs) (omega (arith, length-drop n xs)),
        append_assoc (unread b) (take n xs) (drop n xs),
        take-append-drop n xs,
      )

  -- What did not fit into the writable part goes through `append`.
  buffer_read_fd_over :
      writable_bytes b < length xs
      → length xs ≤ writable_bytes b + b.size
      → (b' : RingQueue) × (buffer_read_fd (got xs) b ≡ some (b', got xs))
        × IsValid b'
        × (unread b' ≡ drop (length xs - writable_bytes b) (unread b ++ xs))
  unfolding buffer_read_fd scattered
  buffer_read_fd_over over small =
      let n = writable_bytes b in
      let full : RingQueue = record b { write_pos = b.size; bytes = scattered n } in
      let (valid, eq) =
        Written-IsValid n b.size (omega arith) (omega (arith, writable_bytes_lem v))
          (omega arith) in
      let (b', run, valid', eq') =
        append-unread valid (drop n xs) (length xs - n) (omega (arith, length-drop n xs))
          (omega arith) in
      (
        b',
        rw (
          count,
          memcpy-ok b.bytes b.write_pos xs n (omega arith)
              (omega (arith, v.storage, writable_bytes_lem v)),
          test,
          run,
        ),
        valid',
        eq'
            ∙ over_stream (unread full) n (writable_bytes full)
                (omega (arith, writable_bytes_lem valid)) eq,
      )
    where
      count : min (length xs) (writable_bytes b) ≡ writable_bytes b
      count = omega arith

      test : leb (length xs) (writable_bytes b) ≡ false
      test = ground arith

  -- More than the writable part and one whole array.
  buffer_read_fd-none :
      writable_bytes b + b.size < length xs
      → length xs < size_mod
      → buffer_read_fd (got xs) b ≡ none
  unfolding buffer_read_fd scattered
  buffer_read_fd-none over small =
      let n = writable_bytes b in
      let (valid, eq) =
        Written-IsValid n b.size (omega arith) (omega (arith, writable_bytes_lem v))
          (omega arith) in
      let count : min (length xs) n ≡ n = omega arith in
      let test : leb (length xs) n ≡ false = ground arith in
      rw (
        count,
        memcpy-ok b.bytes b.write_pos xs n (omega arith)
            (omega (arith, v.storage, writable_bytes_lem v)),
        test,
        append-none valid (drop n xs) (length xs - n) (omega arith) (omega arith),
      )

-- The bytes that the file gave.
abbrev pub received : Received → List ℕ
received (failed errno) = []
received (got xs) = xs

-- `BufferReadFd`: as long as the bytes that the file gave (none on an error) fit into the writable
-- part and one more array, the buffer stays valid, its unread stream gains them all at its end and
-- loses in front as many as were short of room. The outcome of `readv` is returned.
pub buffer_read_fd-unread :
    {b : RingQueue}
    → IsValid b
    → (r : Received) → length (received r) ≤ writable_bytes b + b.size
    → (b' : RingQueue) × (buffer_read_fd r b ≡ some (b', r))
      × IsValid b'
      × (unread b' ≡ drop (length (received r) - writable_bytes b) (unread b ++ received r))
unfolding buffer_read_fd
buffer_read_fd-unread {b} v (failed errno) h =
    let none_lost : 0 - writable_bytes b ≡ 0 = omega arith in
    (b, refl, v, rw (none_lost, append-nil (unread b)))
buffer_read_fd-unread {b} v (got xs) h = elim (dec_lt (writable_bytes b) (length xs)) [
  | yes over ↦ buffer_read_fd_over v xs over h
  | no fits ↦
      let (b', run, valid, eq) = buffer_read_fd_fits v xs (omega arith) in
      let none_lost : length xs - writable_bytes b ≡ 0 = omega arith in
      (b', run, valid, rw none_lost eq)
]

-- `readv` may fill `buff` with up to 65535 bytes, and the array holds 4096. Whenever a file gives
-- more than the writable part and one more array, the call writes outside the array.
pub buffer_read_fd_overruns :
    {b : RingQueue}
    → IsValid b
    → (xs : List ℕ) → b.size + writable_bytes b < length xs
    → length xs ≤ writable_bytes b + 65535
    → buffer_read_fd (got xs) b ≡ none
buffer_read_fd_overruns v xs over fits =
    buffer_read_fd-none v xs (omega arith) (omega (arith, v.size_lem, writable_bytes_lem v))
