-- ===== src/Tests/Barriers.antt =====
-- probes/libtimerarm with two threads.
use lpowerprobe.Common.{ℕ, ◌≡◌, refl, true, false, some, [], ◌∷◌, get_elem?, arith}
use lpowerprobe.TimerArm.{
  Thread, State, barrier_create, initial, barrier_wait, wake_up, Steps, rest, then_step,
}
use lpowerprobe.TimerArm.Laws.{barrier_lem}

-- The first thread waits.
abbrev one_waits : State
one_waits = record {
  barrier = record { count = 1; nb_to_wait = 2 };
  threads = record { passed = 0; waiting = true } ∷ record { passed = 0; waiting = false } ∷ [];
}

one_waits-Steps : Steps false (initial 2) one_waits
unfolding initial barrier_create barrier_wait
one_waits-Steps = then_step 0 rest refl

barrier_lem_example :
    ((k j : ℕ) (t u : Thread)
      → get_elem? one_waits.threads k ≡ some t
      → get_elem? one_waits.threads j ≡ some u
      → t.passed ≡ u.passed)
    × ((k : ℕ) × (s' : State) × (barrier_wait k one_waits ≡ some s'))
barrier_lem_example = barrier_lem 2 (omega arith) (omega arith) one_waits-Steps

-- A thread that wakes up without a broadcast has come through more often than the other.
woken_early :
    wake_up 0 one_waits
    ≡ some (record one_waits {
      threads =
          record { passed = 1; waiting = false } ∷ record { passed = 0; waiting = false } ∷ [];
    })
unfolding wake_up
woken_early = refl
