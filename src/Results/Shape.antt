-- ===== src/Results/Shape.antt =====
-- The invariant of the results for a list of probes: every run has, for each probe, a `ProbeData`
-- with the probe's counts and of that shape.
use mathlib.Core.Path.{subst}
use lpowerprobe.Common.{
  ℕ, ◌+◌, ◌*◌, ◌<◌, ◌≤◌, ◌^◌, ◌≡◌, inl, inr, lt→ltb, get_elem?-set_cases, refl, ◌∙◌, sym, some,
  List, length, get_elem?, set, All, arith, get_elem?-map, length-map, length-set, get_elem?_of_lt,
}
use lpowerprobe.Double.{Double}
use lpowerprobe.ProbeData.{ProbeData, IsValid, get_cell, new_probe_data, set_data}
use lpowerprobe.ProbeData.Laws.{new_probe_data-IsValid, set_data_lem, HasCells}
use lpowerprobe.Probe.{Probe, get_nb_devices, get_nb_channels}
use lpowerprobe.RunData.{RunData, new_run_data, set_value}
use lpowerprobe.Results.{Results}

module _ {W : Type 0} where
  pub record Fits (p : Probe) (pd : ProbeData W) : Type 0 where
    pub devices : pd.nb_devices ≡ get_nb_devices p
    pub channels : pd.nb_channels ≡ get_nb_channels p
    pub valid : IsValid pd

  pub record RunFits (probes : List Probe) (run : RunData W) : Type 0 where
    pub size : length run.data_of ≡ length probes
    pub each :
        (i : ℕ) (p : Probe) (pd : ProbeData W)
        → get_elem? probes i ≡ some p
        → get_elem? run.data_of i ≡ some pd
        → Fits p pd

  pub record ResultsFit (probes : List Probe) (r : Results W) : Type 0 where
    pub nonempty : 0 < length r.results
    pub counted : r.nb_measurement ≤ length r.results
    pub runs : All (RunFits probes) r.results

  -- The probes return arrays that are long enough, and index them within an `unsigned int`.
  pub record Enough (probes : List Probe) (raws : ℕ → List W) : Type 0 where
    pub long :
        (i : ℕ) (p : Probe)
        → get_elem? probes i ≡ some p
        → get_nb_devices p * get_nb_channels p ≤ length (raws i)
    pub small :
        (i : ℕ) (p : Probe)
        → get_elem? probes i ≡ some p
        → get_nb_devices p * get_nb_channels p ≤ 2 ^ 32

  -- The data of the first `n` probes are the raw values, in device order.
  abbrev pub Recorded : ℕ → (ℕ → List W) → RunData W → Type 0
  Recorded n raws run =
      (i : ℕ) (pd : ProbeData W)
      → i < n
      → get_elem? run.data_of i ≡ some pd
      → HasCells pd (λ device channel. get_elem? (raws i) (device * pd.nb_channels + channel))

  -- Setting the data of probe `n` in a run.
  module _ (probes : List Probe) (raws : ℕ → List W) (n : ℕ) (run : RunData W)
      (enough : Enough probes raws) (fits : RunFits probes run) (rec : Recorded n raws run) where
    set_value_at :
        (p : Probe) (pd : ProbeData W)
        → get_elem? probes n ≡ some p
        → get_elem? run.data_of n ≡ some pd
        → (pd' : ProbeData W) × (set_data pd (raws n) ≡ some pd')
          × Fits p pd'
          × HasCells pd' (λ i j. get_elem? (raws n) (i * pd'.nb_channels + j))
    set_value_at p pd at is =
        let f = fits.each n p pd at is in
        let (pd', ran, same, valid, cells) =
          set_data_lem pd (raws n) f.valid (rw (f.devices, f.channels) (enough.long n p at))
            (rw (f.devices, f.channels) (enough.small n p at)) in
        (
          pd',
          ran,
          record {
            devices = same.devices ∙ f.devices;
            channels = same.channels ∙ f.channels;
            valid = valid;
          },
          λ i j hi hj.
              subst (λ k. get_cell pd'.values i j ≡ get_elem? (raws n) (i * k + j))
                (sym same.channels) (cells i j hi hj),
        )

    pub set_value_lem :
        n < length probes
        → (run' : RunData W) × (set_value run n (raws n) ≡ some run')
          × RunFits probes run'
          × Recorded (n + 1) raws run'
    unfolding set_value
    set_value_lem h =
        let (p, at) = get_elem?_of_lt probes n h in
        let (pd, is) = get_elem?_of_lt run.data_of n (omega (arith, fits.size)) in
        let (pd', ran, f, cells) = set_value_at p pd at is in
        let n_lt : n < length run.data_of = omega (arith, fits.size) in
        (
          record { data_of = set run.data_of n pd' },
          rw (lt→ltb n _ n_lt, is, ran),
          record {
            size = length-set run.data_of n pd' ∙ fits.size;
            each = λ i q x at' is'. elim (get_elem?-set_cases run.data_of n i pd' n_lt is') [
              | inl (e, same) ↦ let e' : q ≡ p = cc in rw (e', same) f
              | inr (other, old) ↦ fits.each i q x at' old
            ];
          },
          λ i x lt is'. elim (get_elem?-set_cases run.data_of n i pd' n_lt is') [
            | inl (e, same) ↦ rw (e, same) cells
            | inr (other, old) ↦ rec i x (omega arith) old
          ],
        )

module _ {W : Type 0} ⦃d : Double W⦄ where
  pub new_run_data-RunFits : (probes : List Probe) → RunFits {W = W} probes (new_run_data probes)
  unfolding new_run_data new_probe_data
  new_run_data-RunFits probes = record {
    size = length-map _ probes;
    each = λ i p pd at is.
        let e : pd ≡ new_probe_data (get_nb_devices p) (get_nb_channels p) = cc (
          get_elem?-map (λ p. new_probe_data {W = W} (get_nb_devices p) (get_nb_channels p)) probes
            i at) in
        rw e (record { devices = refl; channels = refl; valid = new_probe_data-IsValid _ _ });
  }
