-- ===== src/Daemon/Pauses.antt =====
-- How often the daemon pauses.
use embedded_linux_iot_gatew.Prelude.{
  ℕ, ◌+◌, ◌/◌, ◌≤◌, ◌<◌, ◌≡◌, refl, subst, ◌⊎◌, true, false, Bool-cases, inl, inr, List, [], ◌∷◌,
  length, ltb, ◌==◌, if◌then◌else◌, arith,
}
use embedded_linux_iot_gatew.Daemon.{
  Answers, Daemon, Action, is_process_running, count_restart, round, rounds,
}

-- The gateway is gone in each round, and each round comes less than five seconds after the start
-- before it, or after the pause that went before that start.
abbrev pub AreSoon : ℕ → Daemon → List Answers → Type 0
AreSoon slept d [] = Unit
AreSoon slept d (a ∷ more) =
    (is_process_running a ≡ false)
    × (d.last_time + slept ≤ a.now)
    × (a.now < d.last_time + slept + 5)
    × AreSoon (round d a).1.slept (round d a).0 more

-- The starts with a pause before them.
unfoldable pub pauses : List Action → ℕ
pauses [] = 0
pauses (x ∷ xs) = let rest = pauses xs in if x.slept == 10 then 1 + rest else rest

unfoldable pub starts : List Action → ℕ
starts [] = 0
starts (x ∷ xs) = let rest = starts xs in if x.spawned then 1 + rest else rest

abbrev acted : ℕ → ℕ → ℕ → Daemon × Action
acted count slept now =
    (record { restart_count = count; last_time = now }, record { slept = slept; spawned = true })

module _ (d : Daemon) (a : Answers) (gone : is_process_running a ≡ false) where
  round-quick :
      d.restart_count < 5
      → a.now < d.last_time + 5
      → round d a ≡ acted (d.restart_count + 1) 0 a.now
  unfolding round count_restart
  round-quick few quick = ground arith

  round-sixth : d.restart_count ≡ 5 → a.now < d.last_time + 5 → round d a ≡ acted 0 10 a.now
  unfolding round count_restart
  round-sixth many quick = ground arith

  round-late : d.last_time + 5 ≤ a.now → round d a ≡ acted 0 0 a.now
  unfolding round count_restart
  round-late late = ground arith

rounds_phase :
    (d : Daemon) (slept phase : ℕ) (all : List Answers)
    → ((slept ≡ 0) × (phase ≡ d.restart_count + 1) × (phase ≤ 6)) ⊎ ((slept ≡ 10) × (phase ≡ 0))
    → AreSoon slept d all
    → (starts (rounds d all).1 ≡ length all) × (pauses (rounds d all).1 ≡ (phase + length all) / 7)
unfolding rounds starts pauses
rounds_phase d slept phase [] at_phase soon = (refl, ground arith)
rounds_phase d slept phase (a ∷ more) (inr (ten, zero_phase)) (gone, low, high, soon) =
    let step = round-late d a gone (omega arith) in
    let (s, p) =
      rounds_phase (record { restart_count = 0; last_time = a.now }) 0 1 more
        (inl (refl, refl, omega arith))
        (subst (λ (r : Daemon × Action). AreSoon r.1.slept r.0 more) step soon) in
    rw step (omega (arith, s), omega (arith, p, zero_phase))
rounds_phase d slept phase (a ∷ more) (inl (zero_slept, count, few)) (gone, low, high, soon) =
    elim (Bool-cases (d.restart_count == 5)) [
      | inl five ↦
          let step = round-sixth d a gone (ground arith) (omega arith) in
          let (s, p) =
            rounds_phase (record { restart_count = 0; last_time = a.now }) 10 0 more
              (inr (refl, refl))
              (subst (λ (r : Daemon × Action). AreSoon r.1.slept r.0 more) step soon) in
          rw step (omega (arith, s), ground (arith, p, count))
      | inr other ↦
          let step = round-quick d a gone (ground arith) (omega arith) in
          let (s, p) =
            rounds_phase (record { restart_count = d.restart_count + 1; last_time = a.now }) 0
              (phase + 1) more (inl (refl, omega arith, ground arith))
              (subst (λ (r : Daemon × Action). AreSoon r.1.slept r.0 more) step soon) in
          rw step (omega (arith, s), omega (arith, p))
    ]

-- When the gateway is gone in every round, and each round comes less than five seconds after the last
-- start (or after the pause that went before it), each round starts the gateway. From a count `c` of
-- restarts of at most 5, the pauses of ten seconds in `n` rounds are `(c + 1 + n) / 7`: one in seven.
pub rounds-quick :
    (d : Daemon) (all : List Answers)
    → d.restart_count ≤ 5
    → AreSoon 0 d all
    → (starts (rounds d all).1 ≡ length all)
      × (pauses (rounds d all).1 ≡ (d.restart_count + 1 + length all) / 7)
rounds-quick d all few soon =
    rounds_phase d 0 (d.restart_count + 1) all (inl (refl, refl, omega arith)) soon

-- From a count of restarts of at most 5, as at the start, it is at most 5 after any rounds, whatever
-- the system answers in them.
pub rounds-bounded :
    (d : Daemon) (all : List Answers) → d.restart_count ≤ 5 → (rounds d all).0.restart_count ≤ 5
unfolding rounds round
rounds-bounded d [] few = few
rounds-bounded d (a ∷ more) few = elim (Bool-cases (is_process_running a)) [
  | inl running ↦ rw running (rounds-bounded d more few)
  | inr gone ↦ elim (Bool-cases (ltb 5 (count_restart d a.now))) [
    | inl many ↦
        rw (gone, many)
          (rounds-bounded (record { restart_count = 0; last_time = a.now }) more (omega arith))
    | inr few' ↦
        rw (gone, few')
          (rounds-bounded (record { restart_count = count_restart d a.now; last_time = a.now }) more
            (ground arith))
  ]
]
