-- ===== src/HttpConn/Write.antt =====
-- `write` of webServer/code/http/httpconn.cpp: how the bytes of an answer get to a socket.
use embedded_linux_iot_gatew.Prelude.{
  ℕ, zero, suc, ◌+◌, ◌≤◌, ◌<◌, ◌≡◌, refl, ap, ◌∙◌, Bool, false, ◌||◌, inl, inr, none, some, [],
  ◌++◌, length, take, Text, arith, ◌⊎◌, Bool-cases, Option-cases, append_assoc, length-take,
  take-append-drop, length-append,
}
use embedded_linux_iot_gatew.HttpConn.{
  Conn, Socket, Written, bytes_left, has_much, offer, write_from, write,
}
use embedded_linux_iot_gatew.HttpConn.Advance.{IsTied, Sends, advance-Sends, length-offer, nonzero}

-- `writev` takes no more than it is offered.
abbrev pub IsHonest : Socket → Type 0
IsHonest socket =
    (turn : ℕ) (text : Text) (k : ℕ) → socket.writev turn text ≡ some k → k ≤ length text

-- Why `write` has stopped: what `writev` has answered to the last offer, or how little is left.
abbrev pub Stopped : Socket → Bool → Written → Type 0
Stopped socket is_et w =
    ((turn : ℕ) × (socket.writev turn (offer w.conn) ≡ w.len)
      × (w.save_errno ≡ some (socket.errno turn))
      × ((w.len ≡ none) ⊎ (w.len ≡ some 0)))
    ⊎ ((is_et || has_much w.conn) ≡ false)

-- An end of `write`, where the bytes sent and those still offered are in all what they were.
pub record IsEnd (socket : Socket) (is_et : Bool) (sent : Text) (c : Conn) (w : Written)
    : Type 0 where
  pub stopped : Stopped socket is_et w
  pub in_order : w.sent ++ offer w.conn ≡ sent ++ offer c
  pub all_left : length w.sent + bytes_left w.conn ≡ length sent + bytes_left c
  pub tied : IsTied w.conn

sent-offer :
    (k : ℕ) (sent : Text) (c d : Conn)
    → Sends k c d
    → (sent ++ take k (offer c)) ++ offer d ≡ sent ++ offer c
sent-offer k sent c d sends =
    append_assoc sent (take k (offer c)) (offer d)
    ∙ ap (λ t. sent ++ (take k (offer c) ++ t)) sends.rest
    ∙ ap (λ t. sent ++ t) (take-append-drop k (offer c))

length-sent :
    (k : ℕ) (sent : Text) (c d : Conn)
    → k ≤ length (offer c)
    → Sends k c d
    → length (sent ++ take k (offer c)) + bytes_left d ≡ length sent + bytes_left c
length-sent k sent c d within sends =
    omega (arith, length-append sent (take k (offer c)), length-take k (offer c), sends.fewer)

write_from-IsEnd :
    (fuel : ℕ)
    → (socket : Socket) → IsHonest socket
    → (is_et : Bool) → (turn : ℕ) → (sent : Text) → (c : Conn) → IsTied c
    → bytes_left c < fuel
    → (w : Written) × (write_from fuel socket is_et turn sent c ≡ some w)
      × IsEnd socket is_et sent c w
unfolding write_from
write_from-IsEnd zero socket honest is_et turn sent c tied enough = absurd (omega arith)
write_from-IsEnd (suc fuel) socket honest is_et turn sent c tied enough =
    elim (Option-cases (socket.writev turn (offer c))) [
      | inl failed ↦ (
        record { conn = c; sent = sent; len = none; save_errno = some (socket.errno turn) },
        rw (failed, write_from) refl,
        record {
          stopped = inl (turn, failed, refl, inl refl);
          in_order = refl;
          all_left = refl;
          tied = tied;
        },
      )
      | inr (zero, took) ↦ (
        record { conn = c; sent = sent; len = some 0; save_errno = some (socket.errno turn) },
        rw (took, write_from) refl,
        record {
          stopped = inl (turn, took, refl, inr refl);
          in_order = refl;
          all_left = refl;
          tied = tied;
        },
      )
      | inr (suc k, took) ↦
          let within = honest turn (offer c) (suc k) took in
          let bound = length-offer c in
          let some_left = nonzero (bytes_left c) (omega arith) in
          let (d, moved, sends) = advance-Sends (suc k) c tied within in
          let now : Text = sent ++ take (suc k) (offer c) in
          let order = sent-offer (suc k) sent c d sends in
          let count = length-sent (suc k) sent c d within sends in
          elim (Bool-cases (is_et || has_much d)) [
            | inl goes_on ↦
                let (w, e, end) =
                  write_from-IsEnd fuel socket honest is_et (suc turn) now d sends.tied
                    (omega (arith, sends.fewer)) in
                (
                  w,
                  rw (took, some_left, moved, goes_on, write_from) e,
                  record {
                    stopped = end.stopped;
                    in_order = end.in_order ∙ order;
                    all_left = end.all_left ∙ count;
                    tied = end.tied;
                  },
                )
            | inr stops ↦ (
              record { conn = d; sent = now; len = some (suc k); save_errno = none },
              rw (took, some_left, moved, stops, write_from) refl,
              record { stopped = inr stops; in_order = order; all_left = count; tied = sends.tied },
            )
          ]
    ]

-- With a turn more than bytes are left, `write` ends, for a `writev` that takes no more than it is
-- offered and a buffer that holds what is left of the first part: `writev` has failed, or has taken
-- nothing, or connections are level-triggered and `ToWriteBytes() > 10240` does not hold. The bytes
-- it has sent and those that are still offered make up those that were offered, in order; as many
-- bytes are fewer as it has sent; and the buffer again holds what is left of the first part.
pub write-IsEnd :
    (fuel : ℕ)
    → (socket : Socket) → IsHonest socket
    → (is_et : Bool) → (c : Conn) → IsTied c
    → bytes_left c < fuel
    → (w : Written) × (write fuel socket is_et c ≡ some w) × IsEnd socket is_et [] c w
unfolding write
write-IsEnd fuel socket honest is_et c tied enough =
    write_from-IsEnd fuel socket honest is_et 0 [] c tied enough
