-- ===== src/Collector/Thread.antt =====
-- The collector thread of src/ProbeDataCollector.cpp: its rounds, and which probes each updates.
use lpowerprobe.Common.{ℕ, ◌+◌, ◌%◌, ◌^◌, Bool, ◌&&◌, List, [], ◌∷◌, if◌then◌else◌, ltb}
use lpowerprobe.Probe.{Probe, Outcome, done, ◌>>=◌, update}
use lpowerprobe.Collector.{Collector}

-- `stepTime` is below the period, and `relativeTime` is `stepTime - period` as a signed number: the
-- test is -5 < relativeTime < 5.
unfoldable pub is_due : ℕ → ℕ → Bool
is_due elapsed_time period =
    let step_time = elapsed_time % period in
    ltb step_time (period + 5) && ltb period (step_time + 5)

-- The loop over the periodic probes, with the probes that were updated.
unfoldable pub update_probes : ℕ → List Probe → Outcome (List Probe)
unfolding is_due
update_probes elapsed_time [] = done []
update_probes elapsed_time (p ∷ ps) =
    let rest = update_probes elapsed_time ps in
    let updated = (update p >>= λ _. (rest >>= λ done_ps. done (p ∷ done_ps))) in
    if is_due elapsed_time p.period then updated else rest

-- What the thread meets in one round: the flag `m_threadRunning` at the head of the loop and at the
-- last test before the sleep, and whether the sleep was not interrupted. A thread that reads false
-- at the test between the two waits for a signal first.
pub record Tick : Type 0 where
  pub running_at_loop : Bool
  pub running_after_wait : Bool
  pub slept : Bool

-- The rounds of `updateThread`: the time that has elapsed and the updates made by each.
unfoldable pub update_thread : Collector → List Tick → ℕ → Outcome (List (List Probe))
unfolding update_probes
update_thread c [] elapsed_time = done []
update_thread c (t ∷ ts) elapsed_time =
    let next_time = (elapsed_time + c.min_period) % 2 ^ 64 in
    let interrupted = update_thread c ts elapsed_time in
    let on_time =
      (update_probes next_time c.periodic_probes >>= λ updated.
      (update_thread c ts next_time >>= λ later. done (updated ∷ later))) in
    if t.running_at_loop && t.running_after_wait
    then (if t.slept then on_time else interrupted)
    else done []
