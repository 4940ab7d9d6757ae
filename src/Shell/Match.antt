-- ===== src/Shell/Match.antt =====
-- Which commands a name selects.
use embedded_linux_iot_gatew.Prelude.{
  ℕ, zero, suc, ◌≡◌, refl, sym, ap, ◌∙◌, ◌↔◌, Bool, true, ◌&&◌, not, some, List, [], ◌∷◌, ◌++◌,
  take, replicate, ◌==◌, if◌then◌else◌, Text, arith, Bool-cases, inl, inr,
}
use embedded_linux_iot_gatew.Shell.{
  ShellUnit, Callback, to_cmdname, starts_with, call_matching, reg_shell_cmd,
}

-- A text has no zero byte.
unfoldable pub no_zero : Text → Bool
no_zero [] = true
no_zero (c ∷ s) = not (c == 0) && no_zero s

abbrev pub IsPrefix : Text → Text → Type 0
IsPrefix s t = (rest : Text) × (s ++ rest ≡ t)

starts_with-zeros :
    (s t : Text) (k : ℕ)
    → no_zero s ≡ true
    → (starts_with s (t ++ replicate k 0) ≡ true) ↔ IsPrefix s t
unfolding starts_with no_zero
starts_with-zeros [] t k h = (λ _. (t, refl), λ _. refl)
starts_with-zeros (c ∷ s) [] zero h = (λ e. cc, λ (rest, e). cc)
starts_with-zeros (c ∷ s) [] (suc k) h = (λ e. ground arith, λ (rest, e). cc)
starts_with-zeros (c ∷ s) (a ∷ t) k h =
    let (to, from) = starts_with-zeros s t k (ground arith) in
    (
      λ e.
          let same : a ≡ c = ground arith in
          let (rest, p) = to (ground arith) in
          (rest, ap (λ x. x ∷ (s ++ rest)) (sym same) ∙ ap (λ r. a ∷ r) p),
      λ (rest, e).
          let same : a ≡ c = cc e in
          let tail : s ++ rest ≡ t = cc e in
          let more = from (rest, tail) in ground (arith, more, same),
    )

-- A command is selected by the names that begin it: those that its first sixteen characters start
-- with, for a name without a zero byte.
pub starts_with-cmdname :
    (s name : Text)
    → no_zero s ≡ true
    → (starts_with s (to_cmdname name) ≡ true) ↔ IsPrefix s (take 16 name)
unfolding to_cmdname
starts_with-cmdname s name h = starts_with-zeros s (take 16 name) _ h

call_matching-append :
    (us : List ShellUnit) (u : ShellUnit) (name : Text) (recv send : List ℕ)
    → call_matching (us ++ (u ∷ [])) name recv send ≡ (
        if starts_with name u.cmdname
        then u.call recv (call_matching us name recv send)
        else call_matching us name recv send)
unfolding call_matching
call_matching-append [] u name recv send = refl
call_matching-append (v ∷ us) u name recv send = call_matching-append us u name recv _

-- After a command is registered, a request first does what it did before, and then calls the new
-- command too if the name in the request, which has no zero byte, begins the first sixteen
-- characters of the command's name, and only then.
pub reg_shell_cmd-call :
    (units : List ShellUnit) (name : Text) (fn : Callback) (s : Text) (recv send : List ℕ)
    → no_zero s ≡ true
    → (units' : List ShellUnit) × (reg_shell_cmd true units (some name) fn ≡ some (units', true))
      × (IsPrefix s (take 16 name)
          → call_matching units' s recv send ≡ fn recv (call_matching units s recv send))
      × ((IsPrefix s (take 16 name) → ⊥)
          → call_matching units' s recv send ≡ call_matching units s recv send)
unfolding reg_shell_cmd
reg_shell_cmd-call units name fn s recv send h =
    let u : ShellUnit = record { cmdname = to_cmdname name; call = fn } in
    let (to, from) = starts_with-cmdname s name h in
    (
      units ++ (u ∷ []),
      refl,
      λ prefix. rw (call_matching-append units u s recv send, from prefix),
      λ differs. elim (Bool-cases (starts_with s u.cmdname)) [
        | inl selected ↦ absurd (differs (to selected))
        | inr other ↦ rw (call_matching-append units u s recv send, other)
      ],
    )
