-- ===== src/Collector/Update.antt =====
-- Which probes a round of the collector thread updates.
use Prim.Native.Nat.{◌∣◌, ◌≤◌}
use native.Mathlib.Nat.{dvd-mod_iff, dvd-sub, le_of_dvd, mod-lt, dvd-add, dvd_refl, dvd-zero}
use lpowerprobe.Common.{
  ℕ, ◌+◌, ◌*◌, ◌-◌, ◌%◌, ◌^◌, ◌<◌, ◌≡◌, ◌≢◌, refl, ◌↔◌, true, false, some, ap, ◌&&◌, List, [], ◌∷◌,
  length, All, arith, Bool-cases, inl, inr, ◌==◌, if◌then◌else◌,
}
use lpowerprobe.Probe.{Probe, done}
use lpowerprobe.Probe.Laws.{IsReady}
use lpowerprobe.Collector.{Collector, new_collector}
use lpowerprobe.Collector.Period.{periodic, HasIntPeriods, new_collector_lem}
use lpowerprobe.Collector.Thread.{is_due, update_probes, Tick, update_thread}

-- A probe is due exactly when at most 4 µs are left until the next multiple of its period; at a
-- multiple itself a whole period is left.
pub is_due_iff :
    (elapsed_time period : ℕ)
    → 0 < period
    → (is_due elapsed_time period ≡ true) ↔ (period ≤ elapsed_time % period + 4)
unfolding is_due
is_due_iff elapsed_time period h =
    (λ e. ground (arith, mod-lt elapsed_time h), λ le. ground (arith, mod-lt elapsed_time h))

-- The time left is a multiple of what divides both the time and the period.
not_due :
    (g elapsed_time period : ℕ)
    → 5 ≤ g
    → 0 < period
    → g ∣ elapsed_time
    → g ∣ period
    → is_due elapsed_time period ≡ false
not_due g elapsed_time period five pos time whole =
    let step : elapsed_time % period < period = mod-lt elapsed_time pos in
    let left : g ∣ period - elapsed_time % period =
      dvd-sub g whole ((dvd-mod_iff g whole).1 time) in
    let far : g ≤ period - elapsed_time % period = le_of_dvd (omega arith) left in
    elim (Bool-cases (is_due elapsed_time period)) [
      | inl due ↦ absurd (omega (arith, (is_due_iff elapsed_time period pos).0 due))
      | inr idle ↦ idle
    ]

-- The probes that the test of the code selects, in order.
abbrev pub due : ℕ → List Probe → List Probe
due elapsed_time [] = []
due elapsed_time (p ∷ ps) =
    if is_due elapsed_time p.period then (p ∷ due elapsed_time ps) else due elapsed_time ps

-- If the probes are ready and have a period, a round updates those that the test of the code selects, in
-- order, and no update throws or stops the program.
pub update_probes_lem :
    (elapsed_time : ℕ) (ps : List Probe)
    → All IsReady ps
    → All (λ p. p.period ≢ 0) ps
    → update_probes elapsed_time ps ≡ done (due elapsed_time ps)
unfolding update_probes
update_probes_lem elapsed_time [] ready on = refl
update_probes_lem elapsed_time (p ∷ ps) ready on =
    ground (arith, ready.0.updatable on.0, update_probes_lem elapsed_time ps ready.1 on.1)

update_probes_none :
    (g elapsed_time : ℕ) (ps : List Probe)
    → 5 ≤ g
    → g ∣ elapsed_time
    → All (λ p. p.period ≢ 0) ps
    → All (λ p. g ∣ p.period) ps
    → update_probes elapsed_time ps ≡ done []
unfolding update_probes
update_probes_none g elapsed_time [] five time on whole = refl
update_probes_none g elapsed_time (p ∷ ps) five time on whole =
    rw (not_due g elapsed_time p.period five (omega (arith, on.0)) time whole.0)
      (update_probes_none g elapsed_time ps five time on.1 whole.1)

periodic-on : (ps : List Probe) → All (λ p. p.period ≢ 0) (periodic ps)
periodic-on [] = tt
periodic-on (p ∷ ps) = elim (Bool-cases (p.period == 0)) [
  | inl off ↦ rw off (periodic-on ps)
  | inr on ↦ rw on (λ e. ground arith, periodic-on ps)
]

module _ (c : Collector) (on : All (λ p. p.period ≢ 0) c.periodic_probes)
    (whole : All (λ p. c.min_period ∣ p.period) c.periodic_probes) (five : 5 ≤ c.min_period) where
  quiet_round :
      (t : Tick) (ts : List Tick) (elapsed_time next : ℕ) (later : List (List Probe))
      → (t.running_at_loop && t.running_after_wait) ≡ true
      → t.slept ≡ true
      → (elapsed_time + c.min_period) % 2 ^ 64 ≡ next
      → update_probes next c.periodic_probes ≡ done []
      → update_thread c ts next ≡ done later
      → update_thread c (t ∷ ts) elapsed_time ≡ done ([] ∷ later)
  unfolding update_thread
  quiet_round t ts elapsed_time next later running slept wrap none_due e =
      rw (running, slept, wrap, none_due, e)

  rounds_starve :
      (ticks : List Tick) (elapsed_time : ℕ)
      → c.min_period ∣ elapsed_time
      → elapsed_time + length ticks * c.min_period < 2 ^ 64
      → (rounds : List (List Probe)) × (update_thread c ticks elapsed_time ≡ done rounds)
        × All (λ updated. updated ≡ []) rounds
  unfolding update_thread
  rounds_starve [] elapsed_time time fits = ([], refl, tt)
  rounds_starve (t ∷ ts) elapsed_time time fits =
      let next : ℕ = elapsed_time + c.min_period in
      let wrap : (elapsed_time + c.min_period) % 2 ^ 64 ≡ next = omega arith in
      let time' : c.min_period ∣ next = dvd-add c.min_period time (dvd_refl c.min_period) in
      let none_due = update_probes_none c.min_period next c.periodic_probes five time' on whole in
      let (awake, e, a) = rounds_starve ts next time' (omega arith) in
      let (asleep, e', a') = rounds_starve ts elapsed_time time (omega arith) in
      elim (Bool-cases (t.running_at_loop && t.running_after_wait)) [
        | inr leaving ↦ ([], rw leaving, tt)
        | inl running ↦ elim (Bool-cases t.slept) [
          | inl slept ↦ (
            [] ∷ awake,
            quiet_round t ts elapsed_time next awake running slept wrap none_due e,
            (refl, a),
          )
          | inr woken ↦ (asleep, rw (running, woken) e', a')
        ]
      ]

-- If the greatest common divisor of the periods is at least 5 µs, the thread never updates a probe:
-- whatever the flags and the interruptions, every round of it updates none, as long as the elapsed
-- time fits an `unsigned long`.
pub update_thread_starves :
    (probes : List Probe) (ticks : List Tick) {c : Collector}
    → HasIntPeriods probes
    → new_collector probes ≡ some c
    → 5 ≤ c.min_period
    → length ticks * c.min_period < 2 ^ 64
    → (rounds : List (List Probe)) × (update_thread c ticks 0 ≡ done rounds)
      × All (λ updated. updated ≡ []) rounds
update_thread_starves probes ticks {c} ints made five fits =
    let (c', e, same, kept, at_rest, step) = new_collector_lem probes ints in
    let is : c ≡ c' = cc in
    elim step [
      | inl (empty, zero_period, idle) ↦
          absurd (omega (arith, ap (λ (k : Collector). k.min_period) is))
      | inr (some_probe, pos, step, need) ↦
          rounds_starve c (rw (is, kept) (periodic-on probes)) (rw (is, kept) step.divides) five
            ticks 0 (dvd-zero c.min_period) (omega arith)
    ]
