-- ===== src/UserStore/Words.antt =====
-- What the C++ library does to read lines and words (webServer/code/auth/userstore.cpp): `getline`,
-- and `>>` from a string stream into a string.
use embedded_linux_iot_gatew.Prelude.{
  ℕ, Bool, ◌||◌, Option, none, some, List, [], ◌∷◌, leb, ◌==◌, ◌&&◌, if◌then◌else◌, Text,
}

abbrev pub is_space : ℕ → Bool
is_space c = c == 32 || (leb 9 c && leb c 13)

unfoldable pub skip_space : Text → Text
skip_space [] = []
skip_space (c ∷ text) = let rest = skip_space text in if is_space c then rest else c ∷ text

-- The text up to the next space, and the rest.
unfoldable pub span_word : Text → Text × Text
span_word [] = ([], [])
span_word (c ∷ text) =
    let (word, rest) = span_word text in if is_space c then ([], c ∷ text) else (c ∷ word, rest)

unfoldable pub some_word : Text × Text → Option (Text × Text)
some_word ([], rest) = none
some_word (c ∷ word, rest) = some (c ∷ word, rest)

-- stream >> word, with what stays in the stream.
unfoldable pub next_word : Text → Option (Text × Text)
next_word text = some_word (span_word (skip_space text))

abbrev put_first : ℕ → List Text → List Text
put_first c [] = (c ∷ []) ∷ []
put_first c (line ∷ more) = (c ∷ line) ∷ more

-- The lines that `getline` returns one after another.
unfoldable pub lines : Text → List Text
lines [] = []
lines (c ∷ text) = let rest = lines text in if c == 10 then [] ∷ rest else put_first c rest
