-- ===== src/RunData.antt =====
-- src/RunData.hpp, src/RunData.cpp: the data of all probes for one run. `none` is a failed
-- assertion.
use lpowerprobe.Common.{
  ℕ, Option, some, List, map, length, get_elem?, set, ◌>>=◌, ◌>>◌, assert, ltb,
}
use lpowerprobe.Double.{Double}
use lpowerprobe.ProbeData.{ProbeData, new_probe_data, set_data}
use lpowerprobe.Probe.{Probe, get_nb_devices, get_nb_channels}

pub record RunData (W : Type 0) : Type 0 where
  pub data_of : List (ProbeData W)

module _ {W : Type 0} where
  unfoldable pub get_nb_probe_data : RunData W → ℕ
  get_nb_probe_data run = length run.data_of

  unfoldable pub get_probe_data : RunData W → ℕ → Option (ProbeData W)
  unfolding get_nb_probe_data
  get_probe_data run index = do
    assert (ltb index (get_nb_probe_data run))
    get_elem? run.data_of index

  unfoldable pub set_value : RunData W → ℕ → List W → Option (RunData W)
  unfolding get_nb_probe_data
  set_value run index raw = do
    assert (ltb index (get_nb_probe_data run))
    pd ← get_elem? run.data_of index
    pd' ← set_data pd raw
    some (record { data_of = set run.data_of index pd' })

module _ {W : Type 0} ⦃d : Double W⦄ where
  unfoldable pub new_run_data : List Probe → RunData W
  new_run_data probes = record {
    data_of = map (λ p. new_probe_data (get_nb_devices p) (get_nb_channels p)) probes;
  }
