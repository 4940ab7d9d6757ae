-- ===== src/HttpRequest/Post.antt =====
-- A form that is posted to the login or the registration (webServer/code/http/httprequest.cpp).
use embedded_linux_iot_gatew.Prelude.{
  ℕ, ◌≡◌, refl, sym, ap, subst, ◌∙◌, not, Bool, true, false, Bool-cases, inl, inr, ◌||◌, none, some,
  [], ◌∷◌, ◌++◌, append_assoc, append-nil, ◌==◌, arith, Text, text_eq, text_eq_refl,
}
use embedded_linux_iot_gatew.UserStore.{Users, assign, is_empty, verify}
use embedded_linux_iot_gatew.HttpRequest.{
  Fields, Request, finish, or_empty, user_verify, touch, serve_form, parse_typed, parse_post,
  parse_body, equals, username, password, post_method, content_type, urlencoded, welcome_html,
  error_html, register_html, login_html, Decoding, add_char, decode_char, decode_turn, decode,
  decode_last, parse_from_urlencoded,
}

-- A char that stands for itself in a form.
abbrev pub is_plain : ℕ → Bool
is_plain c = not (c == 61 || c == 43 || c == 38 || c == 37)

abbrev pub ArePlain : Text → Type 0
ArePlain [] = Unit
ArePlain (c ∷ t) = (is_plain c ≡ true) × ArePlain t

decode_turn-plain :
    (d : Decoding) (c : ℕ) (rest : Text)
    → is_plain c ≡ true
    → decode_turn d c rest ≡ (add_char d c, 0)
unfolding decode_turn decode_char
decode_turn-plain d c rest plain =
    let e1 : (c == 61) ≡ false = ground arith in
    let e2 : (c == 43) ≡ false = ground arith in
    let e3 : (c == 38) ≡ false = ground arith in
    let e4 : (c == 37) ≡ false = ground arith in rw (e4, e1, e2, e3) refl

decode-plain :
    (t : Text) (d : Decoding) (rest : Text)
    → ArePlain t
    → decode 0 d (t ++ rest) ≡ decode 0 (record d { part = d.part ++ t }) rest
unfolding decode add_char
decode-plain [] d rest plain =
    ap (λ p. decode 0 (record d { part = p }) rest) (sym (append-nil d.part))
decode-plain (c ∷ t) d rest (plain, more) =
    ap (λ (r : Decoding × ℕ). decode r.1 r.0 (t ++ rest)) (decode_turn-plain d c (t ++ rest) plain)
    ∙ decode-plain t (record d { part = d.part ++ (c ∷ []) }) rest more
    ∙ ap (λ p. decode 0 (record d { part = p }) rest) (append_assoc d.part (c ∷ []) t)

-- username=...&password=...
abbrev pub form : (name pwd : Text) → Text
form name pwd = username ++ (61 ∷ (name ++ (38 ∷ (password ++ (61 ∷ pwd)))))

abbrev no_fields : Fields
no_fields k = none

abbrev decoding : (key part : Text) → Fields → Decoding
decoding key part post = record { key = key; part = part; post = post }

decode-form :
    (name pwd : Text)
    → ArePlain name
    → ArePlain pwd
    → decode 0 (decoding [] [] no_fields) (form name pwd)
      ≡ decoding password pwd (assign no_fields username name)
unfolding decode decode_turn decode_char add_char
decode-form name pwd n p =
    let d = decoding password [] (assign no_fields username name) in
    decode-plain name (decoding username [] no_fields) (38 ∷ (password ++ (61 ∷ pwd))) n
    ∙ ap (decode 0 d) (sym (append-nil pwd))
    ∙ decode-plain pwd d [] p

-- What the fields of a form are after the decoding.
abbrev HasForm : (name pwd : Text) → Fields → Type 0
HasForm name pwd m = (or_empty (m username) ≡ name) × (or_empty (m password) ≡ pwd)

decode_last-HasForm :
    (name pwd : Text)
    → HasForm name pwd (decode_last (decoding password pwd (assign no_fields username name)))
unfolding decode_last assign text_eq
decode_last-HasForm name [] = (refl, refl)
decode_last-HasForm name (c ∷ pwd) = (refl, refl)

parse_from_urlencoded-HasForm :
    (name pwd : Text)
    → ArePlain name
    → ArePlain pwd
    → HasForm name pwd (parse_from_urlencoded (form name pwd) no_fields)
unfolding parse_from_urlencoded
parse_from_urlencoded-HasForm name pwd n p =
    subst (λ d. HasForm name pwd (decode_last d)) (sym (decode-form name pwd n p))
      (decode_last-HasForm name pwd)

user_verify-verify :
    (users : Users) (name pwd : Text) (is_login : Bool)
    → user_verify users name pwd is_login ≡ verify users name pwd is_login
unfolding user_verify verify
user_verify-verify users name pwd is_login = elim (Bool-cases (is_empty name || is_empty pwd)) [
  | inl refused ↦ rw refused refl
  | inr asked ↦ rw asked refl
]

-- The page that the form is posted to.
abbrev pub page : (is_login : Bool) → Text
page true = login_html
page false = register_html

abbrev pub outcome : Bool → Text
outcome true = welcome_html
outcome false = error_html

-- The request goes where the accounts say, and leaves them as they say.
abbrev Served : (name pwd : Text) (is_login : Bool) → Users → Request × Users → Type 0
Served name pwd is_login users (r, after) =
    (r.path ≡ outcome (verify users name pwd is_login).0)
    × (after ≡ (verify users name pwd is_login).1)

page-known :
    (path : Text) (is_login : Bool)
    → path ≡ page is_login
    → ((text_eq path register_html || text_eq path login_html) ≡ true)
      × (text_eq path login_html ≡ is_login)
unfolding text_eq
page-known path true at = (
  ap (λ t. text_eq t register_html || text_eq t login_html) at,
  ap (λ t. text_eq t login_html) at,
)
page-known path false at = (
  ap (λ t. text_eq t register_html || text_eq t login_html) at,
  ap (λ t. text_eq t login_html) at,
)

serve_form-Served :
    (r : Request) (users : Users) (name pwd : Text) (is_login : Bool)
    → r.path ≡ page is_login
    → HasForm name pwd r.post
    → Served name pwd is_login users (serve_form r users)
unfolding serve_form
serve_form-Served r users name pwd is_login at (n, p) =
    let (known, login) = page-known r.path is_login at in
    rw (known, login, n, p, user_verify-verify users name pwd is_login)
      (
        elim (verify users name pwd is_login).0
            as (λ b. elim b [ true ↦ welcome_html | false ↦ error_html ] ≡ outcome b) [
              | true ↦ refl
              | false ↦ refl
            ],
        refl,
      )

coded-touch :
    (m : Fields)
    → m content_type ≡ some urlencoded
    → equals (touch m content_type content_type) urlencoded ≡ true
unfolding assign
coded-touch m typed = rw (text_eq_refl content_type, typed) (text_eq_refl urlencoded)

-- The form of a name and a password without special chars, posted to the page of the login or of the
-- registration by a request as `Init` leaves it, is answered as the accounts answer: the body ends
-- the request, whose path becomes the welcome page if the login or the registration succeeds and the
-- error page otherwise, and the accounts are those that it leaves.
pub parse_body-verify :
    (r : Request) (users : Users) (name pwd : Text) (is_login : Bool)
    → r.method ≡ post_method
    → r.header content_type ≡ some urlencoded
    → r.path ≡ page is_login
    → r.post ≡ (λ k. none)
    → ArePlain name
    → ArePlain pwd
    → ((parse_body r (form name pwd) users).0.state ≡ finish)
      × ((parse_body r (form name pwd) users).0.path ≡ outcome (verify users name pwd is_login).0)
      × ((parse_body r (form name pwd) users).1 ≡ (verify users name pwd is_login).1)
unfolding parse_body parse_post parse_typed
parse_body-verify r users name pwd is_login method typed at fresh n p =
    let posted : text_eq r.method post_method ≡ true =
      ap (λ t. text_eq t post_method) method ∙ text_eq_refl post_method in
    let coded : equals (touch r.header content_type content_type) urlencoded ≡ true =
      coded-touch r.header typed in
    let r1 : Request = record r {
      content = form name pwd;
      header = touch r.header content_type;
      post = parse_from_urlencoded (form name pwd) r.post;
    } in
    let fields : HasForm name pwd r1.post =
      subst (λ m. HasForm name pwd (parse_from_urlencoded (form name pwd) m)) (sym fresh)
        (parse_from_urlencoded-HasForm name pwd n p) in
    let (path, after) = serve_form-Served r1 users name pwd is_login at fields in
    rw (posted, coded) (refl, path, after)
