-- ===== src/Kmp/Tests.antt =====
-- Searches for "aba".
use embedded_linux_iot_gatew.Prelude.{
  ℕ, ◌+◌, ◌≡◌, refl, Option, none, some, ◌==◌, if◌then◌else◌, ◌%◌, arith,
}
use embedded_linux_iot_gatew.Kmp.{
  kmp, build, build_step, search_on, search_step, write_next, put_next,
}
use embedded_linux_iot_gatew.Kmp.Search.{IsFirst, kmp-IsFirst}

-- a b a
abbrev aba : ℕ → ℕ
aba c = 97 + c % 2

-- a a b a b a ...
abbrev text : ℕ → ℕ
text c = if c == 0 then 97 else aba (c + 1)

at_1 : kmp text aba 6 3 ≡ some (some 1)
unfolding kmp build build_step search_on search_step write_next put_next
at_1 = refl

not_there : kmp text aba 3 3 ≡ some none
unfolding kmp build build_step search_on search_step write_next put_next
not_there = refl

kmp-IsFirst_example : (r : Option ℕ) × (kmp text aba 6 3 ≡ some r) × IsFirst text aba 6 3 r
kmp-IsFirst_example = kmp-IsFirst text aba 6 3 (omega arith)
