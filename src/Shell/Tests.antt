-- ===== src/Shell/Tests.antt =====
-- A server with one command, and the theorems at an input.
use embedded_linux_iot_gatew.Prelude.{ℕ, ◌≡◌, refl, true, some, List, [], ◌∷◌, drop, replicate}
use embedded_linux_iot_gatew.Shell.{
  ShellUnit, Callback, to_cmdname, starts_with, reg_shell_cmd, call_matching, c_string,
  analysis_cmd, got, error, Buffers, received, answer, serve,
}
use embedded_linux_iot_gatew.Shell.Match.{no_zero, IsPrefix, reg_shell_cmd-call}
use embedded_linux_iot_gatew.Shell.Serve.{serve-error}

-- A callback that puts one letter into the send buffer.
abbrev reply : Callback
reply recv send = b'r' ∷ 0 ∷ drop 2 send

abbrev units : List ShellUnit
units = record { cmdname = to_cmdname (b't' ∷ b'e' ∷ b's' ∷ b't' ∷ b'1' ∷ []); call = reply } ∷ []

-- The request for the command x.
abbrev request : List ℕ
request = b'x' ∷ replicate 27 0

abbrev buffers : Buffers
buffers = record { recvbuf = request; sendbuf = b'o' ∷ b'l' ∷ b'd' ∷ replicate 253 0 }

-- The letter t alone runs the command test1.
abbreviated : starts_with (b't' ∷ []) (to_cmdname (b't' ∷ b'e' ∷ b's' ∷ b't' ∷ b'1' ∷ [])) ≡ true
unfolding starts_with to_cmdname
abbreviated = refl

reg_shell_cmd-call_example :
    (units' : List ShellUnit) × (reg_shell_cmd true units (some (b'x' ∷ [])) reply
      ≡ some (units', true))
    × (IsPrefix (b'x' ∷ []) (b'x' ∷ [])
        → call_matching units' (b'x' ∷ []) [] [] ≡ reply [] (call_matching units (b'x' ∷ []) [] []))
    × ((IsPrefix (b'x' ∷ []) (b'x' ∷ []) → ⊥)
        → call_matching units' (b'x' ∷ []) [] [] ≡ call_matching units (b'x' ∷ []) [] [])
unfolding no_zero
reg_shell_cmd-call_example = reg_shell_cmd-call units (b'x' ∷ []) reply (b'x' ∷ []) [] [] refl

served : serve units (got request) buffers ≡ some (buffers, (b'o' ∷ b'l' ∷ b'd' ∷ []))
unfolding serve received answer analysis_cmd c_string call_matching starts_with to_cmdname
served = refl

serve-error_example : serve units error buffers ≡ serve units (got request) buffers
serve-error_example = serve-error units request buffers buffers (b'o' ∷ b'l' ∷ b'd' ∷ []) served
