-- ===== src/Collector/Laws.antt =====
-- The main thread's calls on the collector.
use mathlib.Core.List.{append-nil}
use lpowerprobe.Common.{
  ℕ, ◌+◌, ◌^◌, ◌<◌, ◌≡◌, false, some, List, [], ◌∷◌, ◌++◌, arith, if◌then◌else◌,
}
use lpowerprobe.Double.{Double}
use lpowerprobe.Results.{Results}
use lpowerprobe.Results.Shape.{ResultsFit, Enough}
use lpowerprobe.Results.Stop.{record_measurement_lem}
use lpowerprobe.Collector.{
  Collector, start_measure, stop_measure, cond_signal, kill_sigusr1, kill_sigalrm, each_probe,
  start, cancel, stop,
}

-- `start` measures every probe in order and then, only if some probe has a period, lets the thread
-- collect and signals it; a `cancel` after it stops every probe in order, and leaves a collector that
-- was not collecting as it was before the `start`.
pub start-cancel :
    (c : Collector)
    → c.thread_collecting ≡ false
    → ((start c).1
        ≡ each_probe start_measure c.probes ++ (if c.need_thread then cond_signal ∷ [] else []))
      × ((cancel (start c).0).1
          ≡ each_probe stop_measure c.probes ++ (if c.need_thread then kill_sigalrm ∷ [] else []))
      × ((start c).0.thread_collecting ≡ c.need_thread)
      × ((cancel (start c).0).0 ≡ c)
unfolding start cancel
start-cancel c idle = ground (
  arith,
  append-nil (each_probe start_measure c.probes),
  append-nil (each_probe stop_measure c.probes),
)

-- On well-formed results, with raw arrays as long as the probes say, at most 2^32 values for each
-- probe, and fewer than 2^32 - 1 measurements done, a `stop` after a `start` succeeds: the results
-- stay well formed and count one measurement more, every probe is stopped in order, and a thread, if
-- there is one, is told not to collect and is sent SIGUSR1.
pub stop_lem :
    {W : Type 0} ⦃d : Double W⦄ (c : Collector) (results : Results W) (raws : ℕ → List W)
    → ResultsFit c.probes results
    → Enough c.probes raws
    → results.nb_measurement + 1 < 2 ^ 32
    → (results' : Results W) × (stop (start c).0 results raws
        ≡ some (
          record c { thread_collecting = if c.need_thread then false else c.thread_collecting },
          results',
          each_probe stop_measure c.probes ++ (if c.need_thread then kill_sigusr1 ∷ [] else []),
        ))
      × ResultsFit c.probes results'
      × (results'.nb_measurement ≡ results.nb_measurement + 1)
unfolding start stop
stop_lem c results raws fit enough small =
    let (results', e, fit', counted, kept, run, at, rec) =
      record_measurement_lem c.probes raws results fit enough small in
    (results', ground (arith, e, append-nil (each_probe stop_measure c.probes)), fit', counted)
