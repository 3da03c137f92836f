-- ===== src/Tests/Whole.antt =====
-- src/Experimentation.cpp and src/DaemonExperimentation.cpp with a meter.
use lpowerprobe.Common.{ℕ, ◌≡◌, ◌⊎◌, refl, true, none, some, List, [], ◌∷◌, ◌++◌, arith}
use lpowerprobe.Double.{whole}
use lpowerprobe.ProbeData.{ProbeData}
use lpowerprobe.Probe.{done}
use lpowerprobe.Loader.{load_probes, try_load_probes, load_rounds, load_round, try_load_probe}
use lpowerprobe.Probe.{new_probe_v2}
use lpowerprobe.Results.{Results, new_results}
use lpowerprobe.Collector.{new_collector}
use lpowerprobe.DaemonRunner.{Turn, sigusr1, sigterm}
use lpowerprobe.DaemonRunner.Signals.{Ends, Waits}
use lpowerprobe.DaemonRunner.Laws.{Recorded}
use lpowerprobe.Writer.{file, write_header}
use lpowerprobe.Writer.Line.{table_text}
use lpowerprobe.Writer.Table.{IsTable}
use lpowerprobe.Experimentation.{Experimentation, new_experimentation, start_daemon_experimentation}
use lpowerprobe.Experimentation.Laws.{IsPrepared, new_experimentation-IsPrepared, daemon_table}
use lpowerprobe.Tests.Sample.{meters, watts, watts-Enough, idle, dlopen_meter}

abbrev prepared : Experimentation ℕ
prepared = record {
  probes = meters;
  overhead_results = new_results 1 meters;
  results = new_results 1 meters;
  probe_data_collector = idle;
}

prepared_made : new_experimentation dlopen_meter "/opt/" ("meter.so" ∷ []) 1 ≡ done prepared
unfolding new_experimentation load_probes try_load_probes load_rounds load_round try_load_probe
    new_probe_v2 new_collector
prepared_made = refl

prepared-IsPrepared : IsPrepared prepared
prepared-IsPrepared =
    new_experimentation-IsPrepared dlopen_meter "/opt/" ("meter.so" ∷ []) 1 (omega arith)
      (omega arith, tt) prepared_made

abbrev one_turn : List Turn
one_turn =
    record { before = []; first_pause = sigusr1 ∷ []; second_pause = sigusr1 ∷ [] }
    ∷ record { before = sigterm ∷ []; first_pause = []; second_pause = [] }
    ∷ []

daemon_table_example :
    ((n : ℕ) × Ends one_turn n
      × ((overhead : Results ℕ) × (results : Results ℕ) × (lines : List (List (ProbeData ℕ)))
          × (start_daemon_experimentation true prepared one_turn watts (λ k. watts)
              ≡ some (some (file, write_header meters [] ++ table_text lines)))
          × IsTable meters overhead results n lines
          × Recorded idle (λ k. watts) 0 n (new_results 1 meters) results
          × Recorded idle (λ k. watts) 0 1 (new_results 1 meters) overhead))
    ⊎ (Waits one_turn
        × (start_daemon_experimentation true prepared one_turn watts (λ k. watts) ≡ some none))
daemon_table_example =
    daemon_table true prepared one_turn watts (λ k. watts) prepared-IsPrepared watts-Enough
      (λ k. watts-Enough) (omega arith)
