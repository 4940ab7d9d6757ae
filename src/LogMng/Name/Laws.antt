-- ===== src/LogMng/Name/Laws.antt =====
-- The names of log files (demo/logMng/LogMng.c): the numbers in them, and their length.
use embedded_linux_iot_gatew.Prelude.{
  ℕ, zero, suc, ◌+◌, ◌-◌, ◌*◌, ◌/◌, ◌^◌, ◌≤◌, ◌<◌, ◌≡◌, refl, sym, ap, ◌∙◌, List, [], ◌∷◌, ◌++◌,
  arith, length, drop, take, replicate, ltb, length-append, length-replicate, take_of_ge, inl, inr,
  Bool-cases, ltb→lt,
}
use mathlib.Core.List.{reverse, reverse_aux, reverse-reverse}
use native.Mathlib.Nat.{pow-suc}
use embedded_linux_iot_gatew.LogMng.Name.{digits, padded, log_name}

-- What digits stand for, the last one first.
unfoldable pub value : List ℕ → ℕ
value [] = 0
value (c ∷ cs) = (c - b'0') + 10 * value cs

value-digits : (f n : ℕ) → n < f → value (digits f n) ≡ n
unfolding value digits
value-digits zero n h = absurd (omega arith)
value-digits (suc f) n h = elim (Bool-cases (ltb n 10)) [
  | inl last ↦ rw last (omega (arith, ltb→lt n 10))
  | inr more ↦ rw (more, value-digits f (n / 10) (ground arith)) (omega arith)
]

value-zeros : (k : ℕ) → value (replicate k b'0') ≡ 0
unfolding value
value-zeros zero = refl
value-zeros (suc k) = rw (value-zeros k)

value-append_zeros : (ds : List ℕ) (k : ℕ) → value (ds ++ replicate k b'0') ≡ value ds
unfolding value
value-append_zeros [] k = value-zeros k
value-append_zeros (c ∷ ds) k = ap (λ v. (c - b'0') + 10 * v) (value-append_zeros ds k)

pub value-padded : (n : ℕ) → value (padded n) ≡ n
unfolding padded
value-padded n = value-append_zeros (digits (n + 1) n) _ ∙ value-digits (n + 1) n (omega arith)

-- Two numbers whose log file names are equal are equal.
pub log_name-injective : (m n : ℕ) → log_name m ≡ log_name n → m ≡ n
unfolding log_name
log_name-injective m n h =
    let turned : padded m ≡ padded n =
      sym (reverse-reverse (padded m))
      ∙ ap (λ t. reverse (drop 3 t)) h
      ∙ reverse-reverse (padded n) in
    sym (value-padded m) ∙ ap value turned ∙ value-padded n

pub length-reverse_aux : (xs ys : List ℕ) → length (reverse_aux xs ys) ≡ length xs + length ys
length-reverse_aux [] ys = omega arith
length-reverse_aux (x ∷ xs) ys = omega (arith, length-reverse_aux xs (x ∷ ys))

length-digits : (f n k : ℕ) → n < 10 ^ suc k → length (digits f n) ≤ suc k
unfolding digits
length-digits zero n k h = omega arith
length-digits (suc f) n zero h = ground arith
length-digits (suc f) n (suc k) h = elim (Bool-cases (ltb n 10)) [
  | inl last ↦ rw last (omega arith)
  | inr more ↦
      rw more (omega (arith, length-digits f (n / 10) k (omega (arith, pow-suc 10 (suc k)))))
]

-- The name of an `int` has at most thirteen characters, and the 31 that a node holds suffice.
pub take-log_name : (n : ℕ) → n < 2 ^ 31 → take 31 (log_name n) ≡ log_name n
unfolding log_name padded
take-log_name n h =
    let ds = digits (n + 1) n in
    take_of_ge 31 (log_name n) (
      omega (
        arith,
        length-reverse_aux (ds ++ replicate (3 - length ds) b'0') [],
        length-append ds (replicate (3 - length ds) b'0'),
        length-replicate {A = ℕ} (3 - length ds) b'0',
        length-digits (n + 1) n 9 (omega arith),
      ))
