-- ===== src/Daemon.antt =====
-- daemonTask/daemonTask.c: the loop that starts the gateway again when it is gone, with a pause when
-- it is started again and again. What the system answers is an argument of each round.
pub mod Pauses
mod Tests
use embedded_linux_iot_gatew.Prelude.{
  ℕ, ◌+◌, ◌-◌, Bool, true, false, Option, none, some, List, [], ◌∷◌, ltb, if◌then◌else◌,
}

-- The number in the file /var/run/gateway.pid, `none` if there is no such file, and whether `kill`
-- reaches a process of this number.
pub record Answers : Type 0 where
  pub pid_file : Option ℕ
  pub alive : ℕ → Bool
  pub now : ℕ

unfoldable pub is_process_running : Answers → Bool
is_process_running a = elim a.pid_file [ none ↦ false | some pid ↦ a.alive pid ]

pub record Daemon : Type 0 where
  pub restart_count : ℕ
  pub last_time : ℕ

-- What a round does: seconds of sleep before the start, if any, and whether it starts the gateway.
pub record Action : Type 0 where
  pub slept : ℕ
  pub spawned : Bool

abbrev pub start : Daemon
start = record { restart_count = 0; last_time = 0 }

-- Also a clock that went back counts as less than five seconds.
unfoldable pub count_restart : Daemon → ℕ → ℕ
count_restart d now = if ltb (now - d.last_time) 5 then d.restart_count + 1 else 0

-- A round of the loop, without the sleep of three seconds at its end.
unfoldable pub round : Daemon → Answers → Daemon × Action
unfolding is_process_running count_restart
round d a =
    if is_process_running a
    then (d, record { slept = 0; spawned = false })
    else (if ltb 5 (count_restart d a.now)
        then (
          record { restart_count = 0; last_time = a.now },
          record { slept = 10; spawned = true },
        )
        else (
          record { restart_count = count_restart d a.now; last_time = a.now },
          record { slept = 0; spawned = true },
        ))

unfoldable pub rounds : Daemon → List Answers → Daemon × List Action
unfolding round
rounds d [] = (d, [])
rounds d (a ∷ more) =
    let (d', action) = round d a in let (d2, actions) = rounds d' more in (d2, action ∷ actions)
