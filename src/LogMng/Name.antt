-- ===== src/LogMng/Name.antt =====
-- The names of log files, `snprintf("log%03d", seq)`, as lists of characters.
pub mod Laws
use embedded_linux_iot_gatew.Prelude.{
  ℕ, zero, suc, ◌+◌, ◌-◌, ◌*◌, ◌/◌, ◌%◌, Bool, true, false, ◌&&◌, List, [], ◌∷◌, ◌++◌, length,
  replicate, ltb, ◌==◌, if◌then◌else◌,
}
use mathlib.Core.List.{reverse}

abbrev pub FileName : Type 0
FileName = List ℕ

-- The decimal digits of a number, the last one first; a number below the fuel needs no more.
unfoldable pub digits : ℕ → ℕ → List ℕ
digits zero n = []
digits (suc f) n =
    let rest = digits f (n / 10) in if ltb n 10 then (b'0' + n) ∷ [] else (b'0' + n % 10) ∷ rest

-- `%03d`
unfoldable pub padded : ℕ → List ℕ
unfolding digits
padded n = let ds = digits (n + 1) n in ds ++ replicate (3 - length ds) b'0'

unfoldable pub log_name : ℕ → FileName
unfolding padded
log_name n = b'l' ∷ b'o' ∷ b'g' ∷ reverse (padded n)
