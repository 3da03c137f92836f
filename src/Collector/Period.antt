-- ===== src/Collector/Period.antt =====
-- What the constructor of the collector finds: the probes with a period, and how often to wake up.
use Prim.Native.Nat.{◌∣◌}
use mathlib.Core.Path.{subst}
use native.Mathlib.Nat.{dvd_refl, dvd_trans, le_of_dvd}
use mathlib.Core.List.{append_assoc, append-nil}
use lpowerprobe.Common.{
  ℕ, ◌<◌, ◌≡◌, ◌≢◌, refl, ◌⊎◌, inl, inr, true, false, some, List, [], ◌∷◌, ◌++◌, All, All-append,
  All-of-append, All-imp, arith, Bool-cases, ◌==◌, if◌then◌else◌,
}
use lpowerprobe.Probe.{Probe}
use lpowerprobe.Collector.{Collector, int_max, add_period, add_periods, new_collector}
use lpowerprobe.Collector.Gcd.{IsGcd, gcd_lem}

-- The probes with a period, in order.
abbrev pub periodic : List Probe → List Probe
periodic [] = []
periodic (p ∷ ps) = if p.period == 0 then periodic ps else (p ∷ periodic ps)

-- `g` is the greatest common divisor of the periods, and one wakes up for none.
pub record IsStep (ps : List Probe) (g : ℕ) : Type 0 where
  pub divides : All (λ p. g ∣ p.period) ps
  pub greatest : (e : ℕ) → All (λ p. e ∣ p.period) ps → e ∣ g

-- The periods are within an `int`, and the largest `int` is not a period.
abbrev pub HasIntPeriods : List Probe → Type 0
HasIntPeriods = All (λ p. p.period < int_max)

-- The state of the loop after the periodic probes `ps`.
abbrev HasStep : List Probe → Collector → Type 0
HasStep ps c =
    ((c.min_period ≡ int_max) × (ps ≡ []) × (c.need_thread ≡ false))
    ⊎ ((0 < c.min_period)
        × (c.min_period < int_max)
        × IsStep ps c.min_period
        × (ps ≢ [])
        × (c.need_thread ≡ true))

record Scanned (all ps : List Probe) (c : Collector) : Type 0 where
  same : c.probes ≡ all
  kept : c.periodic_probes ≡ ps
  running : c.thread_running ≡ true
  idle : c.thread_collecting ≡ false
  step : HasStep ps c

snoc_ne : (ps : List Probe) (p : Probe) → ps ++ (p ∷ []) ≢ []
snoc_ne [] p e = cc
snoc_ne (q ∷ ps) p e = cc

-- The first period, and any later one.
IsStep-first : (p : Probe) → IsStep (p ∷ []) p.period
IsStep-first p = record { divides = (dvd_refl p.period, tt); greatest = λ e a. a.0 }

IsStep-next :
    (ps : List Probe) (p : Probe) (m g : ℕ)
    → IsStep ps m
    → IsGcd m p.period g
    → IsStep (ps ++ (p ∷ [])) g
IsStep-next ps p m g s i = record {
  divides =
      All-append (λ p. g ∣ p.period) ps (p ∷ [])
        (All-imp (λ p. m ∣ p.period) (λ p. g ∣ p.period) ps (λ q d. dvd_trans g i.left d) s.divides)
        (i.right, tt);
  greatest = λ e a.
      let (old, new) = All-of-append (λ p. e ∣ p.period) ps (p ∷ []) a in
      i.greatest e (s.greatest e old) new.0;
}

add_period_lem :
    (all ps : List Probe) (p : Probe) (c : Collector)
    → p.period < int_max
    → Scanned all ps c
    → (c' : Collector) × (add_period c p ≡ some c') × Scanned all (ps ++ periodic (p ∷ [])) c'
unfolding add_period
add_period_lem all ps p c fits s = elim (Bool-cases (p.period == 0)) [
  | inl off ↦ rw off (c, refl, rw (append-nil ps) s)
  | inr on ↦ rw on (elim s.step [
    | inl (fresh, empty, idle) ↦ (
      record c {
        periodic_probes = c.periodic_probes ++ (p ∷ []);
        min_period = p.period;
        need_thread = true;
      },
      ground (arith, fresh),
      record {
        same = s.same;
        kept = rw s.kept;
        running = s.running;
        idle = s.idle;
        step = inr (ground arith, fits, rw empty (IsStep-first p), snoc_ne ps p, refl);
      },
    )
    | inr (pos, small, step, some_old, need) ↦
        let (g, e, i) = gcd_lem c.min_period p.period pos (ground arith) in
        (
          record c {
            periodic_probes = c.periodic_probes ++ (p ∷ []);
            min_period = g;
            need_thread = true;
          },
          ground (arith, e),
          record {
            same = s.same;
            kept = rw s.kept;
            running = s.running;
            idle = s.idle;
            step = inr (
              i.positive,
              omega (arith, le_of_dvd pos i.left),
              IsStep-next ps p c.min_period g step i,
              snoc_ne ps p,
              refl,
            );
          },
        )
  ])
]

periodic-regroup :
    (ps : List Probe) (p : Probe) (rest : List Probe)
    → (ps ++ periodic (p ∷ [])) ++ periodic rest ≡ ps ++ periodic (p ∷ rest)
periodic-regroup ps p rest = elim (Bool-cases (p.period == 0)) [
  | inl off ↦ rw off (rw append-nil)
  | inr on ↦ rw on (append_assoc ps (p ∷ []) (periodic rest))
]

add_periods_lem :
    (all ps rest : List Probe) (c : Collector)
    → HasIntPeriods rest
    → Scanned all ps c
    → (c' : Collector) × (add_periods c rest ≡ some c') × Scanned all (ps ++ periodic rest) c'
unfolding add_periods
add_periods_lem all ps [] c fits s = (c, refl, rw (append-nil ps) s)
add_periods_lem all ps (p ∷ rest) c fits s =
    let (c', e, s') = add_period_lem all ps p c fits.0 s in
    let (c'', e', s'') = add_periods_lem all (ps ++ periodic (p ∷ [])) rest c' fits.1 s' in
    (c'', rw e e', subst (λ qs. Scanned all qs c'') (periodic-regroup ps p rest) s'')

-- On probes whose periods are below INT_MAX the constructor does not fault. The collector has the
-- probes, is not collecting, and has as periodic probes those with a period, in order. Without any it needs no thread and
-- its period is 0; otherwise it needs one, and wakes up at the greatest common divisor of the
-- periods, which is positive.
pub new_collector_lem :
    (probes : List Probe)
    → HasIntPeriods probes
    → (c : Collector) × (new_collector probes ≡ some c)
      × (c.probes ≡ probes)
      × (c.periodic_probes ≡ periodic probes)
      × (c.thread_collecting ≡ false)
      × (((periodic probes ≡ []) × (c.min_period ≡ 0) × (c.need_thread ≡ false))
          ⊎ ((periodic probes ≢ [])
              × (0 < c.min_period)
              × IsStep (periodic probes) c.min_period
              × (c.need_thread ≡ true)))
unfolding new_collector
new_collector_lem probes fits =
    let (c, e, s) =
      add_periods_lem probes [] probes
        (record {
          need_thread = false;
          thread_collecting = false;
          thread_running = true;
          probes = probes;
          periodic_probes = [];
          min_period = int_max;
        })
        fits
        (record {
          same = refl;
          kept = refl;
          running = refl;
          idle = refl;
          step = inl (refl, refl, refl);
        }) in
    elim s.step [
      | inl (fresh, empty, need) ↦ (
        record c { min_period = 0 },
        ground (arith, e, fresh),
        s.same,
        s.kept,
        s.idle,
        inl (empty, refl, need),
      )
      | inr (pos, small, step, some_probe, need) ↦
          (c, ground (arith, e, small), s.same, s.kept, s.idle, inr (some_probe, pos, step, need))
    ]
