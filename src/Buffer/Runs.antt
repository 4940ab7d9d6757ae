-- ===== src/Buffer/Runs.antt =====
-- The operations of a connection on its buffer, and the same on the text of its unread bytes
-- (webServer/code/buffer/buffer.cpp).
use embedded_linux_iot_gatew.Prelude.{
  ℕ, ◌+◌, ◌-◌, ◌≡◌, ◌⊎◌, refl, sym, ap, subst, ◌∙◌, Bool-cases, false, inl, inr, Option, none, some,
  List, [], ◌∷◌, ◌++◌, arith, length, take, drop, leb, le→leb, leb→le, ◌>>=◌, length-take,
  length-drop, drop-drop, Text, take-append-drop, append_assoc,
}
use embedded_linux_iot_gatew.HttpConn
use embedded_linux_iot_gatew.Buffer.{
  Buffer, readable_bytes, writable_bytes, retrieve, retrieve_until, retrieve_all,
  retrieve_all_to_str, append, read_fd,
}
use embedded_linux_iot_gatew.Buffer.Refine.{
  IsValid, unread, Holds, copy_in-Holds, ensure_writeable-HasRoom,
}

append-Holds :
    (str : Text) (b : Buffer)
    → IsValid b
    → (c : Buffer) × (append str b ≡ some c) × Holds (unread b ++ str) c
unfolding append
append-Holds str b v =
    let (c, made, (valid, room, same)) = ensure_writeable-HasRoom (length str) b v in
    let (d, copied, (valid_d, text)) = copy_in-Holds str c valid room in
    (d, rw made copied, (valid_d, text ∙ ap (λ t. t ++ str) same))

read_fd-Holds :
    (given : Text) (b : Buffer)
    → IsValid b
    → (c : Buffer) × (read_fd given b ≡ some c) × Holds (unread b ++ given) c
unfolding read_fd
read_fd-Holds given b v = elim (Bool-cases (leb (length given) (writable_bytes b))) [
  | inl fits ↦
      let (c, copied, holds) =
        copy_in-Holds given b v (leb→le (length given) (writable_bytes b) fits) in
      (c, rw fits copied, holds)
  | inr more ↦
      let n : ℕ = writable_bytes b in
      let (c, copied, (valid, first)) =
        copy_in-Holds (take n given) b v (omega (arith, length-take n given)) in
      let (d, appended, (valid_d, text)) = append-Holds (drop n given) c valid in
      (
        d,
        rw (more, copied) appended,
        (
          valid_d,
          text
              ∙ ap (λ t. t ++ drop n given) first
              ∙ append_assoc (unread b) (take n given) (drop n given)
              ∙ ap (λ t. unread b ++ t) (take-append-drop n given),
        ),
      )
]

-- `Append`, `ReadFd` with the bytes that come, `Retrieve`, `RetrieveUntil` a place that many bytes
-- behind `Peek`, `RetrieveAll` and `RetrieveAllToStr`. What the log writes behind `BeginWrite` by
-- itself and then adds with `HasWritten` is not among them.
pub data Op : Type 0 where
  appends receives : Text → Op
  retrieves retrieves_until : ℕ → Op
  clears takes_all : Op

abbrev pub perform : Op → Buffer → Option Buffer
perform (appends str) b = append str b
perform (receives given) b = read_fd given b
perform (retrieves n) b = retrieve n b
perform (retrieves_until n) b = retrieve_until (b.read_pos + n) b
perform clears b = some (retrieve_all b)
perform takes_all b = some (retrieve_all_to_str b).1

-- The same to the text of the unread bytes.
abbrev pub perform_text : Op → Text → Option Text
perform_text (appends str) t = some (t ++ str)
perform_text (receives given) t = some (t ++ given)
perform_text (retrieves n) t = HttpConn.retrieve n t
perform_text (retrieves_until n) t = HttpConn.retrieve n t
perform_text clears t = some []
perform_text takes_all t = some []

abbrev pub perform_all : List Op → Buffer → Option Buffer
perform_all [] b = some b
perform_all (op ∷ ops) b = perform op b >>= perform_all ops

abbrev pub perform_text_all : List Op → Text → Option Text
perform_text_all [] t = some t
perform_text_all (op ∷ ops) t = perform_text op t >>= perform_text_all ops

-- Both fail, or the buffer holds the text.
abbrev pub Agrees : Option Buffer → Option Text → Type 0
Agrees o p =
    ((o ≡ none) × (p ≡ none))
    ⊎ ((b : Buffer) × (t : Text) × (o ≡ some b) × (p ≡ some t) × Holds t b)

length-unread : (b : Buffer) → IsValid b → length (unread b) ≡ readable_bytes b
length-unread b v = omega (
  arith,
  length-drop b.read_pos (take b.write_pos b.bytes),
  length-take b.write_pos b.bytes,
  v.within,
)

retrieve-Agrees :
    (n : ℕ) (b : Buffer) → IsValid b → Agrees (retrieve n b) (HttpConn.retrieve n (unread b))
unfolding retrieve HttpConn.retrieve
retrieve-Agrees n b v =
    let len = length-unread b v in
    elim (Bool-cases (leb n (readable_bytes b))) [
      | inl enough ↦
          let le = leb→le n (readable_bytes b) enough in
          let covers = le→leb n (length (unread b)) (omega arith) in
          inr (
            record b { read_pos = b.read_pos + n },
            drop n (unread b),
            rw enough refl,
            rw covers refl,
            (
              record { ordered = omega (arith, v.ordered); within = v.within },
              sym (drop-drop n b.read_pos (b.read_pos + n) (take b.write_pos b.bytes) refl),
            ),
          )
      | inr short ↦
          let misses : leb n (length (unread b)) ≡ false = ap (leb n) len ∙ short in
          inl (rw short refl, rw misses refl)
    ]

retrieve_all-Holds : (b : Buffer) → Holds [] (retrieve_all b)
unfolding retrieve_all
retrieve_all-Holds b = (record { ordered = omega arith; within = omega arith }, refl)

retrieve_until_lem : (n : ℕ) (b : Buffer) → retrieve_until (b.read_pos + n) b ≡ retrieve n b
unfolding retrieve_until
retrieve_until_lem n b =
    let ahead = le→leb b.read_pos (b.read_pos + n) (omega arith) in
    let left : b.read_pos + n - b.read_pos ≡ n = omega arith in rw (ahead, left) refl

perform-Agrees :
    (op : Op) (b : Buffer) → IsValid b → Agrees (perform op b) (perform_text op (unread b))
unfolding retrieve_all retrieve_all_to_str
perform-Agrees (appends str) b v =
    let (c, made, holds) = append-Holds str b v in inr (c, unread b ++ str, made, refl, holds)
perform-Agrees (receives given) b v =
    let (c, made, holds) = read_fd-Holds given b v in inr (c, unread b ++ given, made, refl, holds)
perform-Agrees (retrieves n) b v = retrieve-Agrees n b v
perform-Agrees (retrieves_until n) b v = rw (retrieve_until_lem n b) (retrieve-Agrees n b v)
perform-Agrees clears b v = inr (retrieve_all b, [], refl, refl, retrieve_all-Holds b)
perform-Agrees takes_all b v = inr (retrieve_all b, [], refl, refl, retrieve_all-Holds b)

-- `Append`, `ReadFd`, `Retrieve`, `RetrieveUntil`, `RetrieveAll` and `RetrieveAllToStr`, in any
-- order and number, on a buffer in which the positions are in order and inside the array, do to its
-- unread bytes what they do to a text: bytes that are appended or received come at its end, those
-- that are retrieved leave its front, and all fails where more is retrieved than there is. The array
-- grows or is moved down as needed, and nothing is lost.
pub perform_all-Agrees :
    (ops : List Op) (b : Buffer)
    → IsValid b
    → Agrees (perform_all ops b) (perform_text_all ops (unread b))
perform_all-Agrees [] b v = inr (b, unread b, refl, refl, (v, refl))
perform_all-Agrees (op ∷ ops) b v = elim (perform-Agrees op b v) [
  | inl (fails, fails_text) ↦ inl (rw fails refl, rw fails_text refl)
  | inr (c, t, made, text, (valid, same)) ↦
      let rest : Agrees (perform_all ops c) (perform_text_all ops t) =
        subst (λ u. Agrees (perform_all ops c) (perform_text_all ops u)) same
          (perform_all-Agrees ops c valid) in
      rw (made, text) rest
]
