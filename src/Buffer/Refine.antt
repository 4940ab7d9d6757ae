-- ===== src/Buffer/Refine.antt =====
-- The buffer as the text of its unread bytes (webServer/code/buffer/buffer.cpp).
use embedded_linux_iot_gatew.Prelude.{
  ℕ, ◌+◌, ◌-◌, ◌≤◌, ◌<◌, ◌≡◌, refl, ap, ◌∙◌, Bool-cases, inl, inr, some, ◌++◌, arith, length, take,
  drop, replicate, ltb, ltb→lt, le→leb, memcpy-ok, memmove_down-ok, length-append, length-take,
  length-drop, length-replicate, length-splice, length-move, take-splice, take_of_ge,
  take-append_le, take-drop, drop-append_le, Text,
}
use embedded_linux_iot_gatew.Buffer.{
  Buffer, readable_bytes, writable_bytes, make_space, ensure_writeable, copy_in, resize,
}

-- The positions are in order, and inside the array.
pub record IsValid (b : Buffer) : Type 0 where
  pub ordered : b.read_pos ≤ b.write_pos
  pub within : b.write_pos ≤ length b.bytes

-- The bytes that have been written and not been read.
abbrev pub unread : Buffer → Text
unread b = drop b.read_pos (take b.write_pos b.bytes)

abbrev pub Holds : Text → Buffer → Type 0
Holds text b = IsValid b × (unread b ≡ text)

pub copy_in-Holds :
    (str : Text) (b : Buffer)
    → IsValid b
    → length str ≤ writable_bytes b
    → (c : Buffer) × (copy_in str b ≡ some c) × Holds (unread b ++ str) c
unfolding copy_in
copy_in-Holds str b v room =
    let n : ℕ = length str in
    let bytes : Text = take b.write_pos b.bytes ++ (take n str ++ drop (b.write_pos + n) b.bytes) in
    let fits : b.write_pos + n ≤ length b.bytes = omega (arith, v.within) in
    let len = length-splice b.bytes b.write_pos str n (omega arith) fits in
    (
      record { bytes = bytes; read_pos = b.read_pos; write_pos = b.write_pos + n },
      rw (memcpy-ok b.bytes b.write_pos str n (omega arith) fits) refl,
      (
        record { ordered = omega (arith, v.ordered); within = omega arith },
        ap (drop b.read_pos) (
              take-splice b.bytes b.write_pos str n (b.write_pos + n) (omega arith) fits refl
              ∙ ap (λ t. take b.write_pos b.bytes ++ t) (take_of_ge n str (omega arith)))
            ∙ drop-append_le b.read_pos (take b.write_pos b.bytes) str
                (omega (arith, length-take b.write_pos b.bytes, v.ordered, v.within)),
      ),
    )

-- A buffer with room for `n` bytes more, and the same bytes unread.
abbrev pub HasRoom : ℕ → Buffer → Buffer → Type 0
HasRoom n b c = IsValid c × (n ≤ writable_bytes c) × (unread c ≡ unread b)

grow-HasRoom :
    (n : ℕ) (b : Buffer)
    → IsValid b
    → writable_bytes b < n
    → HasRoom n b (record b { bytes = resize (b.write_pos + n + 1) b.bytes })
grow-HasRoom n b v short =
    let m : ℕ = b.write_pos + n + 1 in
    let zeros : Text = replicate (m - length b.bytes) 0 in
    let all : take m b.bytes ≡ b.bytes = take_of_ge m b.bytes (omega arith) in
    let len : length (resize m b.bytes) ≡ m = omega (
      arith,
      length-append (take m b.bytes) zeros,
      length-replicate {A = ℕ} (m - length b.bytes) 0,
      ap length all,
      v.within,
    ) in
    (
      record { ordered = v.ordered; within = omega arith },
      omega arith,
      ap (drop b.read_pos) (
          ap (λ t. take b.write_pos (t ++ zeros)) all
          ∙ take-append_le b.write_pos b.bytes zeros v.within),
    )

move-HasRoom :
    (n : ℕ) (b : Buffer)
    → IsValid b
    → n ≤ writable_bytes b + b.read_pos
    → HasRoom n b (record {
      bytes = take (readable_bytes b) (drop b.read_pos b.bytes) ++ drop (readable_bytes b) b.bytes;
      read_pos = 0;
      write_pos = readable_bytes b;
    })
move-HasRoom n b v room =
    let k : ℕ = readable_bytes b in
    let front : Text = take k (drop b.read_pos b.bytes) in
    let len = length-move b.bytes b.read_pos k (omega (arith, v.ordered, v.within)) in
    (
      record { ordered = omega arith; within = omega (arith, v.ordered, v.within) },
      omega (arith, v.ordered, v.within),
      take-append_le k front (drop k b.bytes) (
            omega (
              arith,
              length-take k (drop b.read_pos b.bytes),
              length-drop b.read_pos b.bytes,
              v.ordered,
              v.within,
            ))
          ∙ take_of_ge k front (omega (arith, length-take k (drop b.read_pos b.bytes)))
          ∙ take-drop k b.read_pos b.write_pos b.bytes (omega (arith, v.ordered)),
    )

make_space-HasRoom :
    (n : ℕ) (b : Buffer)
    → IsValid b
    → writable_bytes b < n
    → (c : Buffer) × (make_space n b ≡ some c) × HasRoom n b c
unfolding make_space
make_space-HasRoom n b v short = elim (Bool-cases (ltb (writable_bytes b + b.read_pos) n)) [
  | inl grows ↦ (
    record b { bytes = resize (b.write_pos + n + 1) b.bytes },
    rw grows refl,
    grow-HasRoom n b v short,
  )
  | inr moves ↦
      let room : n ≤ writable_bytes b + b.read_pos = ground arith in
      (
        record {
          bytes =
              take (readable_bytes b) (drop b.read_pos b.bytes) ++ drop (readable_bytes b) b.bytes;
          read_pos = 0;
          write_pos = readable_bytes b;
        },
        rw
            (
              moves,
              memmove_down-ok b.bytes b.read_pos (readable_bytes b)
                  (omega (arith, v.ordered, v.within)),
            )
            refl,
        move-HasRoom n b v room,
      )
]

pub ensure_writeable-HasRoom :
    (n : ℕ) (b : Buffer)
    → IsValid b
    → (c : Buffer) × (ensure_writeable n b ≡ some c) × HasRoom n b c
unfolding ensure_writeable
ensure_writeable-HasRoom n b v = elim (Bool-cases (ltb (writable_bytes b) n)) [
  | inl short ↦
      let (c, made, (valid, room, same)) =
        make_space-HasRoom n b v (ltb→lt (writable_bytes b) n short) in
      (c, rw (short, made, le→leb n (writable_bytes c) room) refl, (valid, room, same))
  | inr fits ↦
      let room : n ≤ writable_bytes b = ground arith in
      (b, rw (fits, le→leb n (writable_bytes b) room) refl, (v, room, refl))
]
