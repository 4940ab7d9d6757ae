-- ===== src/Daemon/Tests.antt =====
-- Runs of the daemon, and its theorems at an input.
use embedded_linux_iot_gatew.Prelude.{ℕ, ◌+◌, ◌/◌, ◌≡◌, refl, false, none, List, [], ◌∷◌, arith}
use embedded_linux_iot_gatew.Daemon.{
  Answers, Daemon, is_process_running, round, count_restart, rounds,
}
use embedded_linux_iot_gatew.Daemon.Pauses.{AreSoon, pauses, starts, rounds-quick}

abbrev gone : ℕ → Answers
gone now = record { pid_file = none; alive = λ _. false; now = now }

abbrev worn : Daemon
worn = record { restart_count = 4; last_time = 100 }

abbrev three : List Answers
three = gone 103 ∷ gone 106 ∷ gone 119 ∷ []

three-AreSoon : AreSoon 0 worn three
unfolding is_process_running round count_restart
three-AreSoon = (
  refl,
  omega arith,
  omega arith,
  (refl, omega arith, omega arith, (refl, omega arith, omega arith, tt)),
)

rounds-quick_example :
    (starts (rounds worn three).1 ≡ 3) × (pauses (rounds worn three).1 ≡ (4 + 1 + 3) / 7)
rounds-quick_example = rounds-quick worn three (omega arith) three-AreSoon
