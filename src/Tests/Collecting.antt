-- ===== src/Tests/Collecting.antt =====
-- src/ProbeDataCollector.cpp and src/ExperimentationResults.cpp at the measurements of a meter.
use lpowerprobe.Common.{
  ℕ, ◌+◌, ◌<◌, ◌≡◌, ◌≢◌, ◌⊎◌, refl, true, false, some, [], ◌∷◌, ◌++◌, get_elem?, All, arith,
}
use lpowerprobe.Double.{whole}
use lpowerprobe.Probe.{update}
use lpowerprobe.Probe.Laws.{IsReady}
use lpowerprobe.RunData.{RunData}
use lpowerprobe.Results.{Results, record_measurement}
use lpowerprobe.Results.Shape.{ResultsFit, Recorded}
use lpowerprobe.Results.Stop.{record_measurement_lem}
use lpowerprobe.Collector.{
  Collector, new_collector, gcd, start, stop, each_probe, stop_measure, kill_sigusr1,
}
use lpowerprobe.Collector.Gcd.{IsGcd, gcd_lem}
use lpowerprobe.Collector.Period.{IsStep, new_collector_lem}
use lpowerprobe.Collector.Thread.{Tick}
use lpowerprobe.Collector.Laws.{stop_lem}
use lpowerprobe.Tests.Sample.{meters, watts, one_result, one_result-ResultsFit, watts-Enough, idle}

record_measurement_lem_example :
    (r' : Results ℕ) × (record_measurement one_result meters watts ≡ some r')
    × ResultsFit meters r'
    × (r'.nb_measurement ≡ 1 + 1)
    × ((k : ℕ) → k < 1 → get_elem? r'.results k ≡ get_elem? one_result.results k)
    × (run : RunData ℕ) × (get_elem? r'.results 1 ≡ some run)
    × Recorded 1 watts run
record_measurement_lem_example =
    record_measurement_lem meters watts one_result one_result-ResultsFit watts-Enough (omega arith)

gcd_lem_example : (g : ℕ) × (gcd 12 18 ≡ some g) × IsGcd 12 18 g
gcd_lem_example = gcd_lem 12 18 (omega arith) (omega arith)

idle_made : new_collector meters ≡ some idle
unfolding new_collector
idle_made = refl

new_collector_lem_example :
    (c : Collector) × (new_collector meters ≡ some c)
    × (c.probes ≡ meters)
    × (c.periodic_probes ≡ meters)
    × (c.thread_collecting ≡ false)
    × (((meters ≡ []) × (c.min_period ≡ 0) × (c.need_thread ≡ false))
        ⊎ ((meters ≢ [])
            × (0 < c.min_period)
            × IsStep meters c.min_period
            × (c.need_thread ≡ true)))
new_collector_lem_example = new_collector_lem meters (omega arith, tt)

meters-IsReady : All IsReady meters
unfolding update
meters-IsReady = (record { initialized = refl; updatable = λ on. refl }, tt)

abbrev awake : Tick
awake = record { running_at_loop = true; running_after_wait = true; slept = true }

stop_lem_example :
    (results' : Results ℕ) × (stop (start idle).0 one_result watts
      ≡ some (idle, results', each_probe stop_measure meters ++ (kill_sigusr1 ∷ [])))
    × ResultsFit meters results'
    × (results'.nb_measurement ≡ 1 + 1)
stop_lem_example = stop_lem idle one_result watts one_result-ResultsFit watts-Enough (omega arith)
