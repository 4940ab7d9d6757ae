-- ===== src/HttpRequest/Print.antt =====
-- Requests without a body as a client prints them, and `parse` of
-- webServer/code/http/httprequest.cpp.
use embedded_linux_iot_gatew.Prelude.{
  ℕ, ◌≡◌, refl, ◌==◌, ==_iff, false, Bool, Bool-cases, some, List, [], ◌∷◌, ◌++◌, Text, text_eq,
  subst, if◌then◌else◌, inl, inr,
}
use embedded_linux_iot_gatew.UserStore.{is_empty, assign}
use embedded_linux_iot_gatew.UserStore.Words.{is_space}
use embedded_linux_iot_gatew.HttpRequest.{
  Fields, Request, index_html, default_html, html, has_text, http_slash, parse_path, split_colon,
  skip_blanks, add_header, parse_header, split_line,
}
use embedded_linux_iot_gatew.HttpRequest.RequestLine.{Without, first_line}

abbrev pub line_end : Text
line_end = 13 ∷ 10 ∷ []

abbrev pub print_header : Text × Text → Text
print_header (key, value) = key ++ (58 ∷ 32 ∷ value)

abbrev pub print_headers : List (Text × Text) → Text
print_headers [] = line_end
print_headers (h ∷ hs) = print_header h ++ (13 ∷ 10 ∷ print_headers hs)

-- A request without a body.
abbrev pub print : (method path version : Text) → List (Text × Text) → Text
print m p v hs = first_line m p v ++ (13 ∷ 10 ∷ print_headers hs)

abbrev pub is_return : ℕ → Bool
is_return c = c == 13

abbrev pub is_colon : ℕ → Bool
is_colon c = c == 58

abbrev pub starts_blank : Text → Bool
starts_blank [] = false
starts_blank (c ∷ t) = c == 32

-- Headers that the printed line keeps apart.
abbrev pub AreHeaders : List (Text × Text) → Type 0
AreHeaders [] = Unit
AreHeaders ((key, value) ∷ hs) =
    Without is_colon key
    × Without is_return key
    × Without is_return value
    × (starts_blank value ≡ false)
    × AreHeaders hs

-- The headers as the request keeps them, where a later one of the same name counts.
abbrev pub add_fields : Fields → List (Text × Text) → Fields
add_fields m [] = m
add_fields m ((key, value) ∷ hs) = add_fields (assign m key value) hs

pub split_line-print :
    (line rest : Text)
    → Without is_return line
    → split_line (line ++ (13 ∷ 10 ∷ rest)) ≡ some (line, rest)
unfolding split_line
split_line-print [] rest free = refl
split_line-print (c ∷ []) rest (other, free) = rw other refl
split_line-print (c ∷ d ∷ line) rest (other, free) =
    rw (other, split_line-print (d ∷ line) rest free) refl

split_colon-print :
    (key value : Text)
    → Without is_colon key
    → split_colon (key ++ (58 ∷ value)) ≡ some (key, value)
unfolding split_colon
split_colon-print [] value free = refl
split_colon-print (c ∷ key) value (other, free) = rw (other, split_colon-print key value free) refl

skip_blanks-value : (value : Text) → starts_blank value ≡ false → skip_blanks (32 ∷ value) ≡ value
unfolding skip_blanks
skip_blanks-value [] h = refl
skip_blanks-value (c ∷ value) h = rw h refl

pub parse_header-print :
    (r : Request) (key value : Text)
    → Without is_colon key
    → starts_blank value ≡ false
    → parse_header r (print_header (key, value)) ≡ record r { header = assign r.header key value }
unfolding parse_header add_header
parse_header-print r key value free first =
    rw (split_colon-print key (32 ∷ value) free, skip_blanks-value value first) refl

Without-append :
    (test : ℕ → Bool) (s t : Text) → Without test s → Without test t → Without test (s ++ t)
Without-append test [] t free more = more
Without-append test (c ∷ s) t (other, free) more = (other, Without-append test s t free more)

pub is_empty-append : (s : Text) (c : ℕ) (t : Text) → is_empty (s ++ (c ∷ t)) ≡ false
is_empty-append [] c t = refl
is_empty-append (d ∷ s) c t = refl

pub print_header-free :
    (key value : Text)
    → Without is_return key
    → Without is_return value
    → Without is_return (print_header (key, value))
print_header-free key value k v = Without-append is_return key (58 ∷ 32 ∷ value) k (refl, (refl, v))

-- The path that a page is served under.
abbrev pub page_path : Text → Text
page_path p =
    if text_eq p (b'/' ∷ []) then index_html else (if has_text p default_html then p ++ html else p)

pub parse_path-page_path : (r : Request) → parse_path r ≡ record r { path = page_path r.path }
unfolding parse_path
parse_path-page_path r = elim (Bool-cases (text_eq r.path (b'/' ∷ []))) [
  | inl root ↦ rw root refl
  | inr other ↦ elim (Bool-cases (has_text r.path default_html)) [
    | inl short ↦ rw (other, short) refl
    | inr full ↦ rw (other, full) refl
  ]
]

black_lem : (c : ℕ) → is_space c ≡ false → is_return c ≡ false
black_lem c black = elim (Bool-cases (c == 13)) [
  | inl e ↦
      let now : is_space 13 ≡ false = subst (λ d. is_space d ≡ false) ((==_iff c 13).0 e) black in
      cc
  | inr e ↦ e
]

word-Without : (w : Text) → Without is_space w → Without is_return w
word-Without [] free = tt
word-Without (c ∷ w) (black, free) = (black_lem c black, word-Without w free)

pub first_line-Without :
    (m p v : Text)
    → Without is_space m
    → Without is_space p
    → Without is_space v
    → Without is_return (first_line m p v)
first_line-Without m p v method path version =
    Without-append is_return m (32 ∷ (p ++ (32 ∷ (http_slash ++ v)))) (word-Without m method) (
      refl,
      Without-append is_return p (32 ∷ (http_slash ++ v)) (word-Without p path)
          (refl, (refl, (refl, (refl, (refl, (refl, word-Without v version)))))),
    )
