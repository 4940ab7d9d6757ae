-- ===== src/HttpRequest/Form.antt =====
-- `ParseFromUrlencoded_` (webServer/code/http/httprequest.cpp).
use embedded_linux_iot_gatew.Prelude.{
  ℕ, zero, suc, not, ◌+◌, ◌-◌, ◌*◌, ◌/◌, ◌%◌, Bool, true, false, ◌&&◌, Option, none, some, [], ◌∷◌,
  ◌++◌, leb, ◌==◌, if◌then◌else◌, Text,
}
use embedded_linux_iot_gatew.UserStore.{is_empty, assign}

-- A map from strings to strings.
abbrev pub Fields : Type 0
Fields = Text → Option Text

-- `ConverHex`, plus '0' so that it is not negative.
unfoldable pub conver_hex : ℕ → ℕ
conver_hex c = if leb 65 c && leb c 70 then c - 7 else (if leb 97 c && leb c 102 then c - 39 else c)

-- The chars num / 10 + '0' and num % 10 + '0' of the number of two digits, which may be negative.
unfoldable pub decimal_pair : (a b : ℕ) → ℕ × ℕ
decimal_pair a b =
    let num = conver_hex a * 16 + conver_hex b in
    if leb 816 num
    then (((num - 816) / 10 + 48) % 256, ((num - 816) % 10 + 48) % 256)
    else ((304 - (816 - num) / 10) % 256, (304 - (816 - num) % 10) % 256)

-- The variables of the loop: `key`, the part of the body from `j` up to `i`, and `post_`.
pub record Decoding : Type 0 where
  pub key : Text
  pub part : Text
  pub post : Fields

unfoldable pub add_char : Decoding → ℕ → Decoding
add_char d c = record d { part = d.part ++ (c ∷ []) }

-- A char that is not '%'.
unfoldable pub decode_char : Decoding → ℕ → Decoding
decode_char d c =
    if c == 61
    then record d { key = d.part; part = [] }
    else (if c == 43
        then add_char d 32
        else (if c == 38
            then record d { part = []; post = assign d.post d.key d.part }
            else add_char d c))

unfoldable pub add_hex : Decoding → (a b : ℕ) → Decoding
add_hex d a b = add_char (add_char (add_char d 37) (decimal_pair a b).0) (decimal_pair a b).1

-- A '%', with two more chars behind it or not, and how many of them are taken.
unfoldable pub percent : Decoding → Text → Decoding × ℕ
percent d [] = (add_char d 37, 0)
percent d (a ∷ []) = (add_char d 37, 0)
percent d (a ∷ b ∷ more) = (add_hex d a b, 2)

unfoldable pub decode_turn : Decoding → (c : ℕ) → (rest : Text) → Decoding × ℕ
decode_turn d c rest = if c == 37 then percent d rest else (decode_char d c, 0)

-- The loop over the body; `skip` counts the chars behind a '%' that have been taken with it.
unfoldable pub decode : (skip : ℕ) → Decoding → Text → Decoding
decode skip d [] = d
decode (suc skip) d (c ∷ rest) = decode skip d rest
decode zero d (c ∷ rest) = decode (decode_turn d c rest).1 (decode_turn d c rest).0 rest

abbrev pub is_missing : Option Text → Bool
is_missing none = true
is_missing (some t) = false

-- The last part, behind the loop.
unfoldable pub decode_last : Decoding → Fields
decode_last d =
    if is_missing (d.post d.key) && not (is_empty d.part)
    then assign d.post d.key d.part
    else d.post

-- `ParseFromUrlencoded_`
unfoldable pub parse_from_urlencoded : (content : Text) → Fields → Fields
parse_from_urlencoded content post =
    if is_empty content
    then post
    else decode_last (decode 0 (record { key = []; part = []; post = post }) content)
