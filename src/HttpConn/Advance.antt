-- ===== src/HttpConn/Advance.antt =====
-- A turn of the loop of `write` (webServer/code/http/httpconn.cpp): what is left behind it.
use embedded_linux_iot_gatew.Prelude.{
  ℕ, ◌+◌, ◌-◌, ◌≤◌, ◌<◌, ◌≡◌, refl, ap, ◌∙◌, sym, true, false, inl, inr, some, [], ◌∷◌, ◌++◌,
  length, drop, ltb, ◌==◌, ==_iff, le→leb, ltb→lt, if◌then◌else◌, Text, arith, Bool-cases,
  length-append, length-drop, drop-append_le, drop-append_ge,
}
use embedded_linux_iot_gatew.UserStore.{is_empty}
use embedded_linux_iot_gatew.HttpConn.{Conn, retrieve, bytes_left, offer, advance}

-- The buffer holds what is left of the first part.
abbrev pub IsTied : Conn → Type 0
IsTied c = c.write_buff ≡ c.iov0

-- `d` is `c` with `k` bytes sent.
pub record Sends (k : ℕ) (c d : Conn) : Type 0 where
  pub tied : IsTied d
  pub rest : offer d ≡ drop k (offer c)
  pub fewer : bytes_left d + k ≡ bytes_left c
  pub parts : d.iov_cnt ≡ c.iov_cnt

pub nil_of_zero : (xs : Text) → length xs ≡ 0 → xs ≡ []
nil_of_zero [] h = refl
nil_of_zero (x ∷ xs) h = absurd (omega arith)

all_of_two :
    (cnt : ℕ) (xs ys : Text)
    → length xs < length (xs ++ (if cnt == 2 then ys else []))
    → (cnt == 2) ≡ true
all_of_two cnt xs ys more = elim (Bool-cases (cnt == 2)) [
  | inl two ↦ two
  | inr one ↦
      let len = length-append xs [] in
      let h : length xs < length (xs ++ []) = rw one at more in absurd (omega arith)
]

clear : (a b : Text) → a ≡ b → (if is_empty b then a else []) ≡ []
clear a [] e = e
clear a (x ∷ b) e = refl

offer-both : (c : Conn) → (c.iov_cnt == 2) ≡ true → offer c ≡ c.iov0 ++ c.iov1
unfolding offer
offer-both c two = rw two refl

advance_past :
    (k : ℕ) (c d : Conn)
    → length c.iov0 < k
    → k ≤ length (offer c)
    → d.iov_cnt ≡ c.iov_cnt
    → d.iov0 ≡ []
    → d.iov1 ≡ drop (k - length c.iov0) c.iov1
    → IsTied d
    → Sends k c d
unfolding offer
advance_past k c d past within parts first second tied =
    let two = all_of_two c.iov_cnt c.iov0 c.iov1 (omega arith) in
    let both = offer-both c two in
    let rest : offer d ≡ drop k (offer c) =
      offer-both d (ap (λ n. n == 2) parts ∙ two)
      ∙ ap (λ t. t ++ d.iov1) first
      ∙ second
      ∙ sym (drop-append_ge k c.iov0 c.iov1 (omega arith))
      ∙ ap (drop k) (sym both) in
    record {
      tied = tied;
      rest = rest;
      fewer = omega (
        arith,
        ap length first,
        ap length second,
        length-drop (k - length c.iov0) c.iov1,
        ap length both,
        length-append c.iov0 c.iov1,
      );
      parts = parts;
    }

pub advance-Sends :
    (k : ℕ) (c : Conn)
    → IsTied c
    → k ≤ length (offer c)
    → (d : Conn) × (advance k c ≡ some d) × Sends k c d
unfolding advance offer retrieve
advance-Sends k c tied within = elim (Bool-cases (ltb (length c.iov0) k)) [
  | inl past ↦
      let d : Conn = record c {
        iov1 = drop (k - length c.iov0) c.iov1;
        iov0 = [];
        write_buff = if is_empty c.iov0 then c.write_buff else [];
      } in
      (
        d,
        rw past refl,
        advance_past k c d (ltb→lt (length c.iov0) k past) within refl refl refl
            (clear c.write_buff c.iov0 tied),
      )
  | inr first ↦
      let le : k ≤ length c.iov0 = ground arith in
      let same : length c.write_buff ≡ length c.iov0 = ap length tied in
      let covered = le→leb k (length c.write_buff) (omega arith) in
      (
        record c { iov0 = drop k c.iov0; write_buff = drop k c.write_buff },
        rw (first, covered) refl,
        record {
          tied = ap (drop k) tied;
          rest = sym (drop-append_le k c.iov0 (if c.iov_cnt == 2 then c.iov1 else []) le);
          fewer = omega (arith, length-drop k c.iov0);
          parts = refl;
        },
      )
]

pub length-offer : (c : Conn) → length (offer c) ≤ bytes_left c
unfolding offer
length-offer c = elim (Bool-cases (c.iov_cnt == 2)) [
  | inl two ↦ rw two (omega (arith, length-append c.iov0 c.iov1))
  | inr one ↦ rw one (omega (arith, length-append c.iov0 []))
]

pub nonzero : (n : ℕ) → 0 < n → (n == 0) ≡ false
nonzero n h = elim (Bool-cases (n == 0)) [
  | inl e ↦ let z : n ≡ 0 = (==_iff n 0).0 e in absurd (omega arith)
  | inr e ↦ e
]
