-- ===== src/DaemonRunner/Laws.antt =====
-- What a daemon has measured.
use lpowerprobe.Common.{
  ℕ, zero, suc, ◌+◌, ◌%◌, ◌^◌, ◌<◌, ◌≡◌, refl, ◌∙◌, ap, true, false, some, List, [], ◌∷◌, length,
  if◌then◌else◌, arith, ◌⊎◌, inl, inr,
}
use lpowerprobe.Double.{Double}
use lpowerprobe.Results.{Results}
use lpowerprobe.Results.Shape.{ResultsFit, Enough}
use lpowerprobe.Collector.{Collector, start, cancel}
use lpowerprobe.Collector.Laws.{start-cancel, stop_lem}
use lpowerprobe.DaemonRunner.{
  Turn, Course, course, left_at_loop, in_first_pause, left_at_pause, in_second_pause, cancelled,
  measured, Daemon, waits, ends, measure, daemon_turns, start_daemon,
}
use lpowerprobe.DaemonRunner.Signals.{
  Goes, course_lem, course-true, Ends, at_loop, at_pause, by_cancel, and_on, Waits, no_more,
  first_unanswered, second_unanswered, and_waits,
}

kept_idle :
    (c : Collector)
    → c.thread_collecting ≡ false
    → record c { thread_collecting = if c.need_thread then false else c.thread_collecting } ≡ c
kept_idle c idle = ground arith

module _ {W : Type 0} ⦃d : Double W⦄ where
  pub measure_lem :
      (c : Collector) (results : Results W) (raws : ℕ → List W)
      → c.thread_collecting ≡ false
      → ResultsFit c.probes results
      → Enough c.probes raws
      → results.nb_measurement + 1 < 2 ^ 32
      → (results' : Results W) × (measure c results raws ≡ some (c, results'))
        × ResultsFit c.probes results'
        × (results'.nb_measurement ≡ results.nb_measurement + 1)
  unfolding measure
  measure_lem c results raws idle fit enough small =
      let (results', e, fit', counted) = stop_lem c results raws fit enough small in
      (results', rw e (ap (λ x. some (x, results')) (kept_idle c idle)), fit', counted)

  -- `n` measurements on a collector at rest, from repetition `k` on, one after the other.
  abbrev pub Recorded : Collector → (ℕ → ℕ → List W) → ℕ → ℕ → Results W → Results W → Type 0
  Recorded c readings k zero r r' = r ≡ r'
  Recorded c readings k (suc n) r r' =
      (next : Results W) × (measure c r (readings k) ≡ some (c, next))
      × Recorded c readings (k + 1) n next r'

  record Measured (c : Collector) (readings : ℕ → ℕ → List W) (k n : ℕ) (s s' : Daemon W)
      : Type 0 where
    collector : s'.collector ≡ c
    overhead : s'.overhead ≡ s.overhead
    fit : ResultsFit c.probes s'.results
    counted : s'.results.nb_measurement ≡ s.results.nb_measurement + n
    recorded : Recorded c readings k n s.results s'.results

  -- What a daemon that has ended leaves.
  pub record IsMeasured (readings : ℕ → ℕ → List W) (idle : ℕ → List W) (n : ℕ) (s s' : Daemon W)
      : Type 0 where
    pub collector : s'.collector ≡ s.collector
    pub overhead : measure s.collector s.overhead idle ≡ some (s.collector, s'.overhead)
    pub overhead_counted : s'.overhead.nb_measurement ≡ s.overhead.nb_measurement + 1
    pub overhead_fit : ResultsFit s.collector.probes s'.overhead
    pub results : Recorded s.collector readings 0 n s.results s'.results
    pub results_counted : s'.results.nb_measurement ≡ s.results.nb_measurement + n
    pub results_fit : ResultsFit s.collector.probes s'.results

  told :
      (ts : List Turn) (k : ℕ) (readings : ℕ → ℕ → List W) (s : Daemon W)
      → daemon_turns ts true k readings s ≡ some (ends s)
  unfolding daemon_turns
  told [] k readings s = refl
  told (t ∷ ts) k readings s = rw (daemon_turns, course-true t) refl

  module _ (c : Collector) (idle : c.thread_collecting ≡ false) (readings : ℕ → ℕ → List W)
      (enough : (k : ℕ) → Enough c.probes (readings k)) where
    abbrev CameTo : List Turn → ℕ → Daemon W → Type 0
    CameTo ts k s =
        ((n : ℕ) × Ends ts n
          × ((s' : Daemon W) × (daemon_turns ts false k readings s ≡ some (ends s'))
              × Measured c readings k n s s'))
        ⊎ (Waits ts × ((s' : Daemon W) × (daemon_turns ts false k readings s ≡ some (waits s'))))

    turns_lem :
        (ts : List Turn) (k : ℕ) (s : Daemon W)
        → s.collector ≡ c
        → ResultsFit c.probes s.results
        → s.results.nb_measurement + length ts < 2 ^ 32
        → k + length ts < 2 ^ 32
        → CameTo ts k s
    unfolding daemon_turns
    turns_lem [] k s is fit small short = inr (no_more, (_, refl))
    turns_lem (t ∷ ts) k s is fit small short =
        go (course t false) refl (course_lem t)
          (λ s1 is' fit' small' short'. turns_lem ts (k + 1) s1 is' fit' small' short')
      where
        next : ℕ
        next = (k + 1) % 2 ^ 32

        go :
            (how : Course)
            → course t false ≡ how
            → Goes t how
            → ((s1 : Daemon W)
                → s1.collector ≡ c
                → ResultsFit c.probes s1.results
                → s1.results.nb_measurement + length ts < 2 ^ 32
                → k + 1 + length ts < 2 ^ 32
                → CameTo ts (k + 1) s1)
            → CameTo (t ∷ ts) k s
        go left_at_loop how goes again =
            rw (daemon_turns, how)
              (inl (
                0,
                at_loop goes,
                (
                  s,
                  refl,
                  record {
                    collector = is;
                    overhead = refl;
                    fit = fit;
                    counted = omega arith;
                    recorded = refl;
                  },
                ),
              ))
        go in_first_pause how goes again =
            rw (daemon_turns, how) (inr (first_unanswered goes, (_, refl)))
        go left_at_pause how goes again =
            rw (daemon_turns, how)
              (inl (
                0,
                at_pause goes,
                (
                  record s { nb_meta_repet = next },
                  refl,
                  record {
                    collector = is;
                    overhead = refl;
                    fit = fit;
                    counted = omega arith;
                    recorded = refl;
                  },
                ),
              ))
        go in_second_pause how goes again =
            rw (daemon_turns, how) (inr (second_unanswered goes, (_, refl)))
        go cancelled how goes again =
            let (x, y, z, back) = start-cancel c idle in
            let s1 : Daemon W = record s {
              nb_meta_repet = next;
              collector = (cancel (start s.collector).0).0;
            } in
            rw (daemon_turns, how)
              (inl (
                0,
                by_cancel goes,
                (
                  s1,
                  told ts next readings s1,
                  record {
                    collector = ap (λ (q : Collector). (cancel (start q).0).0) is ∙ back;
                    overhead = refl;
                    fit = fit;
                    counted = omega arith;
                    recorded = refl;
                  },
                ),
              ))
        go measured how goes again =
            let (results', e, fit', counted) =
              measure_lem c s.results (readings k) idle fit (enough k) (omega (arith, small)) in
            let s1 : Daemon W = record s {
              nb_meta_repet = next;
              collector = c;
              results = results';
            } in
            let taken : measure s.collector s.results (readings k) ≡ some (c, results') =
              ap (λ (q : Collector). measure q s.results (readings k)) is ∙ e in
            let same : next ≡ k + 1 = omega (arith, short) in
            elim (again s1 refl fit' (omega (arith, counted, small)) (omega (arith, short))) [
              | inl (n, ended, (s', ran, m)) ↦
                  let counted' = m.counted in
                  inl (
                    suc n,
                    and_on goes ended,
                    (
                      s',
                      rw (daemon_turns, how, taken, same) (rw same at ran),
                      record {
                        collector = m.collector;
                        overhead = m.overhead;
                        fit = m.fit;
                        counted = omega (arith, counted', counted);
                        recorded = (results', e, m.recorded);
                      },
                    ),
                  )
              | inr (pausing, (s', ran)) ↦ inr (
                and_waits goes pausing,
                (s', rw (daemon_turns, how, taken, same) (rw same at ran)),
              )
            ]

  pub start_daemon_lem :
      (s : Daemon W) (turns : List Turn) (idle_raws : ℕ → List W) (readings : ℕ → ℕ → List W)
      → s.collector.thread_collecting ≡ false
      → ResultsFit s.collector.probes s.overhead
      → ResultsFit s.collector.probes s.results
      → Enough s.collector.probes idle_raws
      → ((k : ℕ) → Enough s.collector.probes (readings k))
      → s.overhead.nb_measurement + 1 < 2 ^ 32
      → s.results.nb_measurement + length turns < 2 ^ 32
      → ((n : ℕ) × Ends turns n
          × ((s' : Daemon W) × (start_daemon turns idle_raws readings s ≡ some (ends s'))
              × IsMeasured readings idle_raws n s s'))
        ⊎ (Waits turns
            × ((s' : Daemon W) × (start_daemon turns idle_raws readings s ≡ some (waits s'))))
  unfolding start_daemon
  start_daemon_lem s turns idle_raws readings idle fit_overhead fit enough_idle enough small
        small' =
      let c = s.collector in
      let (overhead', e, fit', counted) =
        measure_lem c s.overhead idle_raws idle fit_overhead enough_idle small in
      elim (turns_lem c idle readings enough turns 0
        (record s { collector = c; overhead = overhead' }) refl fit small'
        (omega (arith, small'))) [
          | inl (n, ended, (s', e', m)) ↦
              let same : s'.overhead.nb_measurement ≡ overhead'.nb_measurement =
                ap (λ (r : Results W). r.nb_measurement) m.overhead in
              inl (
                n,
                ended,
                (
                  s',
                  rw e e',
                  record {
                    collector = m.collector;
                    overhead = rw m.overhead e;
                    overhead_counted = omega (arith, same, counted);
                    overhead_fit = rw m.overhead fit';
                    results = m.recorded;
                    results_counted = m.counted;
                    results_fit = m.fit;
                  },
                ),
              )
          | inr (pausing, (s', e')) ↦ inr (pausing, (s', rw e e'))
        ]
