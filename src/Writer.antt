-- ===== src/Writer.antt =====
-- src/ExperimentationResultsWriter.hpp, src/ExperimentationResultsWriter.cpp: the table of the
-- results, with the average overhead taken off. `none` is a failed assertion, an access outside of a
-- vector or through a null pointer.
pub mod Average
pub mod Overhead
pub mod Line
pub mod Table
use lpowerprobe.Common.{
  ℕ, zero, suc, ◌+◌, ◌-◌, ◌*◌, ◌%◌, ◌^◌, Bool, true, false, Option, none, some, List, [], ◌∷◌, ◌++◌,
  length, get_elem?, set, replicate, ◌>>=◌, ◌==◌, if◌then◌else◌, for_range,
}
use lpowerprobe.Double.{Double}
use lpowerprobe.ProbeData.{
  ProbeData, Token, label, semicolon, newline, new_probe_data, add_assign, div_assign, subtract,
  print,
}
use lpowerprobe.Probe.{Probe, get_label, get_nb_devices, get_nb_channels}
use lpowerprobe.RunData.{RunData, get_nb_probe_data, get_probe_data}
use lpowerprobe.Results.{Results, get_nb_results}

-- The file, or the console when the file could not be opened.
pub data Destination : Type 0 where
  file console : Destination

module _ {W : Type 0} where
  unfoldable pub write_header : List Probe → List (Token W) → List (Token W)
  write_header [] out = out ++ (newline ∷ [])
  write_header (p ∷ ps) out = write_header ps (
      (out ++ (label (get_label p) ∷ []))
      ++ replicate (get_nb_devices p * get_nb_channels p % 2 ^ 32) semicolon)

module _ {W : Type 0} ⦃d : Double W⦄ where
  -- `libsOverheadAvg[i]`, allocated at its first use.
  abbrev pub allocated : Option (ProbeData W) → ProbeData W → ProbeData W
  allocated none pd = new_probe_data pd.nb_devices pd.nb_channels
  allocated (some sum) pd = sum

  unfoldable pub add_run :
      RunData W → List (Option (ProbeData W)) → Option (List (Option (ProbeData W)))
  unfolding get_nb_probe_data
  add_run run = for_range (get_nb_probe_data run) 0 λ i sums. do
    pd ← get_probe_data run i
    slot ← get_elem? sums i
    sum ← add_assign (allocated slot pd) pd
    some (set sums i (some sum))

  -- The loop over the overhead results, which ends after `count` of them or at the end of the vector.
  unfoldable pub add_runs :
      ℕ → List (RunData W) → List (Option (ProbeData W)) → Option (List (Option (ProbeData W)))
  unfolding add_run
  add_runs zero runs sums = some sums
  add_runs (suc count) [] sums = some sums
  add_runs (suc count) (run ∷ runs) sums = add_run run sums >>= add_runs count runs

  unfoldable pub divide_all : ℕ → List (Option (ProbeData W)) → Option (List (ProbeData W))
  divide_all quot [] = some []
  divide_all quot (none ∷ sums) = none
  divide_all quot (some sum ∷ sums) = do
    avg ← div_assign sum quot
    avgs ← divide_all quot sums
    some (avg ∷ avgs)

  unfoldable pub overhead_average : Results W → List Probe → Option (List (ProbeData W))
  unfolding add_runs divide_all
  overhead_average overhead probes = do
    sums ← add_runs (get_nb_results overhead) overhead.results (replicate (length probes) none)
    divide_all (get_nb_results overhead) sums

  unfoldable pub write_row :
      List (ProbeData W) → RunData W → List (Token W) → Option (List (Token W))
  write_row avgs run = for_range (get_nb_probe_data run) 0 λ i out. do
    raw ← get_probe_data run i
    avg ← get_elem? avgs i
    difference ← subtract raw avg
    out' ← print out difference
    some (if i == get_nb_probe_data run - 1 then out' ++ (newline ∷ []) else out')

  unfoldable pub write_rows :
      List (ProbeData W) → Results W → List (Token W) → Option (List (Token W))
  unfolding write_row
  write_rows avgs results =
      for_range (get_nb_results results) 0
        λ m out. do run ← get_elem? results.results m; write_row avgs run out

  unfoldable pub write :
      Bool → Results W → Results W → List Probe → Option (Destination × List (Token W))
  unfolding overhead_average write_header write_rows
  write is_open overhead results probes = do
    avgs ← overhead_average overhead probes
    out ← write_rows avgs results (write_header probes [])
    some (if is_open then file else console, out)
