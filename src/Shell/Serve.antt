-- ===== src/Shell/Serve.antt =====
-- What a client is answered when its request selects no command.
use embedded_linux_iot_gatew.Prelude.{
  ℕ, ◌≤◌, ◌≡◌, refl, sym, ap, ◌∙◌, Bool, false, ◌||◌, Option, some, List, [], ◌∷◌, ◌++◌, length,
  take, drop, ltb, ◌>>=◌, Text, arith, inl, inr, Option-cases, unsome, drop-append_le,
}
use embedded_linux_iot_gatew.Shell.{
  ShellUnit, starts_with, call_matching, c_string, analysis_cmd, got, error, Buffers, received,
  answer, serve,
}

unfoldable pub selects : Text → List ShellUnit → Bool
selects name [] = false
selects name (u ∷ us) = starts_with name u.cmdname || selects name us

call_matching-none :
    (us : List ShellUnit) (name : Text) (recv send : List ℕ)
    → selects name us ≡ false
    → call_matching us name recv send ≡ send
unfolding call_matching selects
call_matching-none [] name recv send h = refl
call_matching-none (u ∷ us) name recv send h =
    let other : starts_with name u.cmdname ≡ false = ground arith in
    rw other (call_matching-none us name recv send (ground arith))

answer-none :
    (us : List ShellUnit) (b : Buffers) (name text : Text)
    → 28 ≤ length b.recvbuf
    → c_string (take 16 b.recvbuf) ≡ some name
    → selects name us ≡ false
    → c_string b.sendbuf ≡ some text
    → answer us b ≡ some (b, text)
unfolding answer analysis_cmd
answer-none us b name text long e h last_text =
    let enough : ltb (length b.recvbuf) 28 ≡ false = ground arith in
    rw (enough, e, call_matching-none us name (drop 28 b.recvbuf) b.sendbuf h, last_text)

-- A request whose name selects no command is answered with the text that still stands in the send
-- buffer, that of the last answer: nothing clears the buffer.
pub serve-unknown :
    (us : List ShellUnit) (bytes : List ℕ) (b : Buffers) (name text : Text)
    → 28 ≤ length (received (got bytes) b.recvbuf)
    → c_string (take 16 (received (got bytes) b.recvbuf)) ≡ some name
    → selects name us ≡ false
    → c_string b.sendbuf ≡ some text
    → serve us (got bytes) b ≡ some (record b { recvbuf = received (got bytes) b.recvbuf }, text)
unfolding serve
serve-unknown us bytes b name text long e h last_text =
    answer-none us (record b { recvbuf = received (got bytes) b.recvbuf }) name text long e h
      last_text

abbrev finish : Buffers → Option (List ℕ) → Option (Buffers × Text)
finish b o = o >>= λ send. c_string send >>= λ text. some (record b { sendbuf = send }, text)

answer-recvbuf :
    (us : List ShellUnit) (b b1 : Buffers) (text : Text)
    → answer us b ≡ some (b1, text)
    → b1.recvbuf ≡ b.recvbuf
unfolding answer
answer-recvbuf us b b1 text h =
    elim (Option-cases (analysis_cmd us (some b.recvbuf) (length b.recvbuf) b.sendbuf)) [
      | inl e ↦ cc (sym (ap (finish b) e) ∙ h)
      | inr (send, e) ↦ elim (Option-cases (c_string send)) [
        | inl n ↦ cc (
            sym (ap (finish b) e ∙ ap (λ o. o >>= λ t. some (record b { sendbuf = send }, t)) n)
            ∙ h)
        | inr (t, m) ↦
            let pair : ◌≡◌ {A = Buffers × Text} (record b { sendbuf = send }, t) (b1, text) =
              unsome (
                sym (ap (finish b) e ∙ ap (λ o. o >>= λ t. some (record b { sendbuf = send }, t)) m)
                ∙ h) in
            sym (ap (λ (x : Buffers × Text). x.0.recvbuf) pair)
      ]
    ]

drop_all : (xs : List ℕ) → drop (length xs) xs ≡ []
drop_all [] = refl
drop_all (x ∷ xs) = drop_all xs

received-again :
    (bytes buf : List ℕ)
    → received (got bytes) (received (got bytes) buf) ≡ received (got bytes) buf
unfolding received
received-again bytes buf =
    ap (λ t. bytes ++ t)
      (drop-append_le (length bytes) bytes (drop (length bytes) buf) (omega arith))
    ∙ ap (λ t. bytes ++ (t ++ drop (length bytes) buf)) (drop_all bytes)

-- When `read` fails after a request was served, the server acts as if the same request had come once
-- more, since the request still stands in the receive buffer.
pub serve-error :
    (us : List ShellUnit) (bytes : List ℕ) (b b1 : Buffers) (text : Text)
    → serve us (got bytes) b ≡ some (b1, text)
    → serve us error b1 ≡ serve us (got bytes) b1
unfolding serve received
serve-error us bytes b b1 text h =
    let held = answer-recvbuf us _ b1 text h in
    ap (λ r. answer us (record b1 { recvbuf = r }))
      (held ∙ sym (received-again bytes b.recvbuf) ∙ ap (received (got bytes)) (sym held))
