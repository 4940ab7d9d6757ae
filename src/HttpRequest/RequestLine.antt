-- ===== src/HttpRequest/RequestLine.antt =====
-- The scanning of a request line (webServer/code/http/httprequest.cpp).
use embedded_linux_iot_gatew.Prelude.{
  ℕ, zero, suc, ◌≡◌, refl, ap, sym, ◌∙◌, ◌≤◌, ==_iff, true, false, Bool, some, [], ◌∷◌, ◌++◌,
  length, arith, Text, append-nil,
}
use embedded_linux_iot_gatew.UserStore.{is_empty}
use embedded_linux_iot_gatew.UserStore.Words.{is_space, skip_space}
use embedded_linux_iot_gatew.HttpRequest.{
  take_word, scan_word, scan_chars, scan_request_line, http_slash,
}

-- Every char of the text fails the test.
abbrev pub Without : (ℕ → Bool) → Text → Type 0
Without test [] = Unit
Without test (c ∷ t) = (test c ≡ false) × Without test t

-- A word that `%ns` of `sscanf` reads as a whole.
abbrev pub IsWord : ℕ → Text → Type 0
IsWord n w = (is_empty w ≡ false) × Without is_space w × (length w ≤ n)

abbrev pub EndsWord : Text → Type 0
EndsWord [] = Unit
EndsWord (c ∷ t) = is_space c ≡ true

take_word-end : (n : ℕ) (rest : Text) → EndsWord rest → take_word n rest ≡ ([], rest)
unfolding take_word
take_word-end zero rest ends = refl
take_word-end (suc n) [] ends = refl
take_word-end (suc n) (c ∷ rest) ends = rw ends refl

take_word-word :
    (n : ℕ) (w rest : Text)
    → Without is_space w
    → length w ≤ n
    → EndsWord rest
    → take_word n (w ++ rest) ≡ (w, rest)
unfolding take_word
take_word-word n [] rest free fits ends = take_word-end n rest ends
take_word-word zero (c ∷ w) rest free fits ends = absurd (omega arith)
take_word-word (suc n) (c ∷ w) rest (black, free) fits ends =
    rw (black, take_word-word n w rest free (omega arith) ends) refl

skip_space-word :
    (w rest : Text) → is_empty w ≡ false → Without is_space w → skip_space (w ++ rest) ≡ w ++ rest
unfolding skip_space
skip_space-word [] rest full free = cc
skip_space-word (c ∷ w) rest full (black, free) = rw black refl

skip_space-space : (t : Text) → skip_space (32 ∷ t) ≡ skip_space t
unfolding skip_space
skip_space-space t = refl

-- A word is scanned, whether a space stands before it or not.
pub scan_word-word :
    (n : ℕ) (text w rest : Text)
    → IsWord n w
    → EndsWord rest
    → skip_space text ≡ skip_space (w ++ rest)
    → scan_word n text ≡ some (w, rest)
unfolding scan_word
scan_word-word n text w rest (full, free, fits) ends same =
    let e : take_word n (skip_space text) ≡ (w, rest) =
      ap (take_word n) (same ∙ skip_space-word w rest full free)
      ∙ take_word-word n w rest free fits ends in
    rw e (rw full refl)

scan_chars_self : (chars text : Text) → scan_chars chars (chars ++ text) ≡ some text
unfolding scan_chars
scan_chars_self [] text = refl
scan_chars_self (c ∷ chars) text =
    let same = (==_iff c c).1 refl in rw same (scan_chars_self chars text)

-- The line that a client sends.
abbrev pub first_line : (m p v : Text) → Text
first_line m p v = m ++ (32 ∷ (p ++ (32 ∷ (http_slash ++ v))))

pub scan_request_line-print :
    (m p v : Text)
    → IsWord 15 m
    → IsWord 511 p
    → IsWord 15 v
    → scan_request_line (first_line m p v) ≡ some (m, p, v)
unfolding scan_request_line
scan_request_line-print m p v method path version =
    let tail : Text = http_slash ++ v in
    let e1 = scan_word-word 15 (first_line m p v) m (32 ∷ (p ++ (32 ∷ tail))) method refl refl in
    let e2 =
      scan_word-word 511 (32 ∷ (p ++ (32 ∷ tail))) p (32 ∷ tail) path refl
        (skip_space-space (p ++ (32 ∷ tail))) in
    let e3 : scan_chars http_slash (skip_space (32 ∷ tail)) ≡ some v =
      ap (scan_chars http_slash) (
        skip_space-space tail
        ∙ skip_space-word http_slash v refl (refl, (refl, (refl, (refl, (refl, tt))))))
      ∙ scan_chars_self http_slash v in
    let e4 : scan_word 15 v ≡ some (v, []) =
      scan_word-word 15 v v [] version tt (ap skip_space (sym (append-nil v))) in
    rw (e1, e2, e3, e4) refl
