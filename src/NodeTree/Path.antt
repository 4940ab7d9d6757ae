-- ===== src/NodeTree/Path.antt =====
-- Joining names to a path, and splitting it again.
use embedded_linux_iot_gatew.Prelude.{
  Text, ◌≤◌, ◌<◌, ◌≡◌, refl, sym, ap, ◌∙◌, Bool, true, false, ◌&&◌, not, List, [], ◌∷◌, ◌++◌, arith,
  length, ◌==◌, take_of_ge, append-nil, append_assoc,
}
use embedded_linux_iot_gatew.NodeTree.{tokens_from, tokens}

-- A text without a slash.
unfoldable pub no_slash : Text → Bool
no_slash [] = true
no_slash (c ∷ s) = not (c == b'/') && no_slash s

-- Names that can stand in a path.
abbrev pub AreNames : List Text → Type 0
AreNames [] = Unit
AreNames (n ∷ ns) = (0 < length n) × (no_slash n ≡ true) × AreNames ns

unfoldable pub join : List Text → Text
join [] = []
join (n ∷ []) = n
join (n ∷ m ∷ ns) = n ++ (b'/' ∷ join (m ∷ ns))

tokens_from-name :
    (cur n s : Text) → no_slash n ≡ true → tokens_from cur (n ++ s) ≡ tokens_from (cur ++ n) s
unfolding tokens_from no_slash
tokens_from-name cur [] s h = ap (λ t. tokens_from t s) (sym (append-nil cur))
tokens_from-name cur (c ∷ n) s h =
    let other : (c == b'/') ≡ false = ground arith in
    rw (other, tokens_from)
      (tokens_from-name (cur ++ (c ∷ [])) n s (ground arith)
        ∙ ap (λ t. tokens_from t s) (append_assoc cur (c ∷ []) n))

tokens_from-end : (n : Text) → 0 < length n → tokens_from n [] ≡ n ∷ []
unfolding tokens_from
tokens_from-end [] pos = absurd (omega arith)
tokens_from-end (c ∷ n) pos = refl

tokens_from-slash : (n s : Text) → 0 < length n → tokens_from n (b'/' ∷ s) ≡ n ∷ tokens_from [] s
unfolding tokens_from
tokens_from-slash [] s pos = absurd (omega arith)
tokens_from-slash (c ∷ n) s pos = refl

tokens_from-join : (ns : List Text) → AreNames ns → tokens_from [] (join ns) ≡ ns
unfolding join tokens_from
tokens_from-join [] names = refl
tokens_from-join (n ∷ []) (pos, plain, _) =
    ap (tokens_from []) (sym (append-nil n))
    ∙ tokens_from-name [] n [] plain
    ∙ tokens_from-end n pos
tokens_from-join (n ∷ m ∷ ns) (pos, plain, names) =
    tokens_from-name [] n _ plain
    ∙ tokens_from-slash n (join (m ∷ ns)) pos
    ∙ ap (λ ts. n ∷ ts) (tokens_from-join (m ∷ ns) names)

-- Names that are not empty and have no slash, joined by slashes to a path of at most 127 characters,
-- are the tokens of the path.
pub tokens-join : (ns : List Text) → AreNames ns → length (join ns) ≤ 127 → tokens (join ns) ≡ ns
unfolding tokens
tokens-join ns names short =
    ap (tokens_from []) (take_of_ge 127 (join ns) short) ∙ tokens_from-join ns names
