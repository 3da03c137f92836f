-- ===== src/Experimentation.antt =====
-- src/Experimentation.cpp and src/DaemonExperimentation.cpp: the probes are loaded, and the results and
-- the collector are made for them. The paths are those of the options; what `dlopen` finds, what the
-- probes return and whether the output file opens are given.
pub mod Laws
pub mod Runs
pub mod Threads
pub mod Measured
pub mod Pinned
use Prim.Native.String.{String}
use lpowerprobe.Common.{ℕ, Bool, true, false, Option, none, some, List, [], ◌∷◌}
use lpowerprobe.Double.{Double}
use lpowerprobe.ProbeData.{Token}
use lpowerprobe.Probe.{Library, Probe, Outcome, done, loading_exception, stopped, ◌>>=◌}
use lpowerprobe.Loader.{new_loader, add_directory, load_probes}
use lpowerprobe.Results.{Results, new_results}
use lpowerprobe.Collector.{Collector, new_collector}
use lpowerprobe.Writer.{Destination, write}
use lpowerprobe.DaemonRunner.{Turn, Daemon, Run, waits, ends, start_daemon}

pub record Experimentation (W : Type 0) : Type 0 where
  pub probes : List Probe
  pub overhead_results : Results W
  pub results : Results W
  pub probe_data_collector : Collector

-- A fault stops the program.
abbrev pub or_stopped {ℓ} : {A : Type ℓ} → Option A → Outcome A
or_stopped none = stopped
or_stopped (some a) = done a

-- Without a probe there is nothing to do.
abbrev pub some_probes : List Probe → Outcome (List Probe)
some_probes [] = loading_exception
some_probes (p ∷ ps) = done (p ∷ ps)

module _ {W : Type 0} ⦃d : Double W⦄ where
  -- The result of the load is not looked at.
  unfoldable pub new_experimentation :
      (String → Option Library) → String → List String → ℕ → Outcome (Experimentation W)
  new_experimentation dlopen program_path probes_path nb_repet = do
    (loaded, all_loaded) ← load_probes dlopen (add_directory new_loader program_path) probes_path []
    probes ← some_probes loaded
    collector ← or_stopped (new_collector probes)
    done (record {
      probes = probes;
      overhead_results = new_results nb_repet probes;
      results = new_results nb_repet probes;
      probe_data_collector = collector;
    })

  -- `saveResults`, on the results that the runner has left.
  unfoldable pub save_results :
      Bool → List Probe → Results W → Results W → Option (Destination × List (Token W))
  save_results is_open probes overhead results = write is_open overhead results probes

  abbrev pub saved : Bool → List Probe → Run W → Option (Option (Destination × List (Token W)))
  saved is_open probes (waits s) = some none
  saved is_open probes (ends s) = elim (save_results is_open probes s.overhead s.results) [
    | none ↦ none
    | some written ↦ some (some written)
  ]

  -- `DaemonExperimentation::start`, with nothing saved as long as the daemon waits.
  unfoldable pub start_daemon_experimentation :
      Bool
      → Experimentation W
      → List Turn
      → (ℕ → List W)
      → (ℕ → ℕ → List W)
      → Option (Option (Destination × List (Token W)))
  unfolding save_results
  start_daemon_experimentation is_open e turns idle readings =
      elim (start_daemon turns idle readings (record {
        collector = e.probe_data_collector;
        overhead = e.overhead_results;
        results = e.results;
        nb_meta_repet = 1;
      })) [ none ↦ none | some run ↦ saved is_open e.probes run ]
