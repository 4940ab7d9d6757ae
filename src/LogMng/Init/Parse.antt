-- ===== src/LogMng/Init/Parse.antt =====
-- `sscanf` on the file names that `snprintf` makes (demo/logMng/LogMng.c).
use embedded_linux_iot_gatew.Prelude.{
  ℕ, zero, suc, ◌+◌, ◌^◌, leb, le→leb, if◌then◌else◌, ◌-◌, ◌*◌, ◌/◌, ◌≤◌, ◌<◌, ◌≡◌, refl, ap, ◌∙◌,
  Bool, true, false, ◌&&◌, some, List, [], ◌∷◌, ◌++◌, arith, length, ◌==◌, replicate, length-append,
  length-replicate,
}
use mathlib.Core.List.{reverse, reverse-cons}
use embedded_linux_iot_gatew.LogMng.{log_name}
use embedded_linux_iot_gatew.LogMng.Name.{digits, padded}
use embedded_linux_iot_gatew.LogMng.Name.Laws.{value, value-padded, length-reverse_aux}
use embedded_linux_iot_gatew.LogMng.Init.{
  to_int, int_max, is_digit, is_space, digits_value, scan_digits, scan_signed, skip_spaces,
  scan_log,
}

unfoldable all_digits : List ℕ → Bool
all_digits [] = true
all_digits (c ∷ cs) = is_digit c && all_digits cs

all_digits-append : (xs ys : List ℕ) → all_digits (xs ++ ys) ≡ (all_digits xs && all_digits ys)
unfolding all_digits
all_digits-append [] ys = refl
all_digits-append (x ∷ xs) ys = ground (arith, all_digits-append xs ys)

all_digits-reverse : (xs : List ℕ) → all_digits xs ≡ true → all_digits (reverse xs) ≡ true
unfolding all_digits
all_digits-reverse [] h = refl
all_digits-reverse (x ∷ xs) h =
    ap all_digits (reverse-cons x xs)
    ∙ all_digits-append (reverse xs) (x ∷ [])
    ∙ ground (arith, all_digits-reverse xs)

digits_value-append :
    (acc : ℕ) (xs : List ℕ) (c : ℕ)
    → all_digits xs ≡ true
    → is_digit c ≡ true
    → digits_value acc (xs ++ (c ∷ [])) ≡ digits_value acc xs * 10 + (c - b'0')
unfolding digits_value all_digits
digits_value-append acc [] c all h = rw (h, digits_value) refl
digits_value-append acc (x ∷ xs) c all h =
    let one : is_digit x ≡ true = ground arith in
    rw (one, digits_value) (digits_value-append (acc * 10 + (x - b'0')) xs c (ground arith) h)

digits_value-reverse : (xs : List ℕ) → all_digits xs ≡ true → digits_value 0 (reverse xs) ≡ value xs
unfolding value digits_value all_digits
digits_value-reverse [] h = refl
digits_value-reverse (x ∷ xs) h =
    let rest : all_digits xs ≡ true = ground arith in
    ap (digits_value 0) (reverse-cons x xs)
    ∙ digits_value-append 0 (reverse xs) x (all_digits-reverse xs rest) (ground arith)
    ∙ omega (arith, digits_value-reverse xs rest)

all_digits-zeros : (k : ℕ) → all_digits (replicate k b'0') ≡ true
unfolding all_digits
all_digits-zeros zero = refl
all_digits-zeros (suc k) = all_digits-zeros k

all_digits-digits : (f n : ℕ) → all_digits (digits f n) ≡ true
unfolding digits all_digits
all_digits-digits zero n = refl
all_digits-digits (suc f) n = ground (arith, all_digits-digits f (n / 10))

all_digits-padded : (n : ℕ) → all_digits (padded n) ≡ true
unfolding padded
all_digits-padded n =
    all_digits-append (digits (n + 1) n) _
    ∙ ground (arith, all_digits-digits (n + 1) n, all_digits-zeros (3 - length (digits (n + 1) n)))

scan-digits :
    (c : ℕ) (cs : List ℕ)
    → all_digits (c ∷ cs) ≡ true
    → scan_signed (skip_spaces (c ∷ cs)) ≡ some (some (to_int (digits_value 0 (c ∷ cs))))
unfolding scan_signed skip_spaces scan_digits all_digits
scan-digits c cs h =
    let digit : is_digit c ≡ true = ground arith in
    let no_space : is_space c ≡ false = ground arith in
    let no_minus : (c == b'-') ≡ false = ground arith in
    let no_plus : (c == b'+') ≡ false = ground arith in
    rw (no_space, skip_spaces) (rw (no_minus, no_plus, digit, scan_signed, scan_digits))

scan_signed-digits :
    (xs : List ℕ)
    → 0 < length xs
    → all_digits xs ≡ true
    → scan_signed (skip_spaces xs) ≡ some (some (to_int (digits_value 0 xs)))
scan_signed-digits [] pos h = absurd (omega arith)
scan_signed-digits (c ∷ cs) pos h = scan-digits c cs h

length-padded : (n : ℕ) → 3 ≤ length (padded n)
unfolding padded
length-padded n =
    let ds = digits (n + 1) n in
    omega (
      arith,
      length-append ds (replicate (3 - length ds) b'0'),
      length-replicate {A = ℕ} (3 - length ds) b'0',
    )

-- A number is read as the largest `int` when it is none.
pub scan_log-to_int : (n : ℕ) → scan_log (log_name n) ≡ some (some (to_int n))
unfolding scan_log log_name
scan_log-to_int n =
    scan_signed-digits (reverse (padded n))
      (omega (arith, length-reverse_aux (padded n) [], length-padded n))
      (all_digits-reverse (padded n) (all_digits-padded n))
    ∙ ap (λ v. some (some (to_int v)))
        (digits_value-reverse (padded n) (all_digits-padded n) ∙ value-padded n)

-- For every number below 2 ^ 31, reading the file name that `writeLog` makes from it, as `initLogMng`
-- does, gives the number back.
pub scan_log-log_name : (n : ℕ) → n < 2 ^ 31 → scan_log (log_name n) ≡ some (some n)
scan_log-log_name n small =
    let fits : leb n int_max ≡ true = le→leb n int_max (omega arith) in
    scan_log-to_int n ∙ ap (λ (b : Bool). some (some (if b then n else int_max))) fits
