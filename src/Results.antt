-- ===== src/Results.antt =====
-- src/ExperimentationResults.hpp, src/ExperimentationResults.cpp: the storage for the measurements of
-- an experimentation, which `extend` doubles. `none` is a failed assertion or an access outside of
-- the vector.
pub mod Shape
pub mod Stop
use lpowerprobe.Common.{
  ℕ, zero, suc, ◌+◌, ◌%◌, ◌^◌, ◌≡◌, Bool, Option, none, some, List, ◌++◌, length, get_elem?, set,
  replicate, ◌>>=◌, ◌>>◌, assert, ltb, leb, if◌then◌else◌, for_range,
}
use lpowerprobe.Double.{Double}
use lpowerprobe.Probe.{Probe}
use lpowerprobe.RunData.{RunData, new_run_data, set_value, get_nb_probe_data}

pub record Results (W : Type 0) : Type 0 where
  pub results : List (RunData W)
  pub nb_measurement : ℕ  -- unsigned int

module _ {W : Type 0} where
  unfoldable pub is_full : Results W → Bool
  is_full r = leb (length r.results) r.nb_measurement

  -- `setProbeData`; a raw `none` is a null pointer.
  unfoldable pub set_probe_data : Results W → ℕ → Option (List W) → Option (Results W)
  unfolding get_nb_probe_data
  set_probe_data r probe_index raw = do
    p_data ← raw
    run ← get_elem? r.results r.nb_measurement
    assert (ltb probe_index (get_nb_probe_data run))
    run' ← set_value run probe_index p_data
    some (record r { results = set r.results r.nb_measurement run' })

  unfoldable pub measurement_done : Results W → Results W
  measurement_done r = record r { nb_measurement = (r.nb_measurement + 1) % 2 ^ 32 }

  unfoldable pub get_nb_results : Results W → ℕ
  get_nb_results r = r.nb_measurement

module _ {W : Type 0} ⦃d : Double W⦄ where
  unfoldable pub new_results : ℕ → List Probe → Results W
  new_results nb_meta_repeat probes = record {
    results = replicate nb_meta_repeat (new_run_data probes);
    nb_measurement = 0;
  }

  -- `push_back`, `res_sz` times; the size is taken as an `unsigned int`.
  unfoldable pub extend : Results W → List Probe → Results W
  extend r probes =
      let res_sz = length r.results % 2 ^ 32 in
      record r { results = r.results ++ replicate res_sz (new_run_data probes) }

  -- `ProbeDataCollector::stop` on the results: `raws i` is the array that `stopMeasure` of probe `i` returns.
  unfoldable pub record_measurement : Results W → List Probe → (ℕ → List W) → Option (Results W)
  record_measurement r probes raws = do
    let r' = if is_full r then extend r probes else r
    filled ← for_range (length probes) 0 (λ i s. set_probe_data s i (some (raws i))) r'
    some (measurement_done filled)
