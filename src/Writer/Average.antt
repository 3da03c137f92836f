-- ===== src/Writer/Average.antt =====
-- The average overhead: each value is the sum over the overhead runs, in order, divided by their
-- number.
use lpowerprobe.Common.{
  ℕ, ◌+◌, ◌≤◌, ◌<◌, ◌≡◌, refl, ◌∙◌, sym, Option, none, some, List, [], ◌∷◌, ◌++◌, length, get_elem?,
  set, arith, ◌>>=◌, for_range_inv, get_elem?_of_lt, get_elem?-set_cases, length-set, inl, inr,
  lt→ltb, Option-cases, lt_of_get_elem?,
}
use lpowerprobe.Double.{Double}
use lpowerprobe.ProbeData.{ProbeData, get_cell, new_probe_data, add_assign}
use lpowerprobe.ProbeData.Laws.{
  HasCells, new_probe_data-IsValid, new_probe_data-HasCells, add_assign_lem,
}
use lpowerprobe.Probe.{Probe}
use lpowerprobe.RunData.{RunData, get_nb_probe_data, get_probe_data}
use lpowerprobe.Results.Shape.{Fits, RunFits}
use lpowerprobe.Writer.{allocated, add_run}

module _ {W : Type 0} where
  -- The value of probe `i` in a run.
  abbrev pub cell_of : ℕ → ℕ → ℕ → RunData W → Option W
  cell_of i device channel run = do pd ← get_elem? run.data_of i; get_cell pd.values device channel

module _ {W : Type 0} ⦃d : Double W⦄ where
  -- The sum over some runs of the value of a cell, from the left.
  abbrev pub sum_from : W → ℕ → ℕ → ℕ → List (RunData W) → Option W
  sum_from acc i device channel [] = some acc
  sum_from acc i device channel (run ∷ runs) = do
    x ← cell_of i device channel run
    sum_from (d.add acc x) i device channel runs

  sum_from-snoc :
      (acc : W) (i device channel : ℕ) (runs : List (RunData W)) (run : RunData W)
      → sum_from acc i device channel (runs ++ (run ∷ [])) ≡ (do
        s ← sum_from acc i device channel runs
        x ← cell_of i device channel run
        some (d.add s x))
  sum_from-snoc acc i device channel [] run = refl
  sum_from-snoc acc i device channel (r ∷ runs) run =
      elim (Option-cases (cell_of i device channel r)) [
        | inl missing ↦ rw missing
        | inr (x, found) ↦ rw found (sum_from-snoc (d.add acc x) i device channel runs run)
      ]

  -- The sum of probe `i`, after some runs; before the first it is not allocated.
  pub record SumsUp (p : Probe) (i : ℕ) (runs : List (RunData W)) (sum : ProbeData W) : Type 0 where
    pub fits : Fits p sum
    pub cells : HasCells sum (λ device channel. sum_from d.nought i device channel runs)

  abbrev pub IsSum : Probe → ℕ → List (RunData W) → Option (ProbeData W) → Type 0
  IsSum p i runs none = runs ≡ []
  IsSum p i runs (some sum) = SumsUp p i runs sum

  allocated_lem :
      (p : Probe) (i : ℕ) (runs : List (RunData W)) (slot : Option (ProbeData W)) (pd : ProbeData W)
      → IsSum p i runs slot
      → Fits p pd
      → SumsUp p i runs (allocated slot pd)
  unfolding new_probe_data
  allocated_lem p i runs none pd is fits = record {
    fits = record {
      devices = fits.devices;
      channels = fits.channels;
      valid = new_probe_data-IsValid pd.nb_devices pd.nb_channels;
    };
    cells = rw is (new_probe_data-HasCells pd.nb_devices pd.nb_channels);
  }
  allocated_lem p i runs (some sum) pd is fits = is

  -- One addition of a run.
  pub add_to_sum :
      (p : Probe) (i : ℕ) (runs : List (RunData W)) (old : ProbeData W) (run : RunData W)
      (pd : ProbeData W)
      → SumsUp p i runs old
      → get_elem? run.data_of i ≡ some pd
      → Fits p pd
      → (sum : ProbeData W) × (add_assign old pd ≡ some sum) × SumsUp p i (runs ++ (run ∷ [])) sum
  add_to_sum p i runs old run pd is at fits =
      let (sum, e, same, valid, cells) =
        add_assign_lem old pd
          (record {
            devices = is.fits.devices ∙ sym fits.devices;
            channels = is.fits.channels ∙ sym fits.channels;
          })
          is.fits.valid fits.valid in
      (
        sum,
        e,
        record {
          fits = record {
            devices = same.devices ∙ is.fits.devices;
            channels = same.channels ∙ is.fits.channels;
            valid = valid;
          };
          cells = λ a b ha hb.
              cells a b ha hb
              ∙ rw (
                is.cells a b (omega (arith, same.devices)) (omega (arith, same.channels)),
                sum_from-snoc d.nought i a b runs run,
                at,
              );
        },
      )

  -- The sums of the first `k` probes include the run `run`, those of the others do not yet.
  record Adding (probes : List Probe) (runs : List (RunData W)) (run : RunData W) (k : ℕ)
      (sums : List (Option (ProbeData W))) : Type 0 where
    size : length sums ≡ length probes
    added :
        (i : ℕ) (p : Probe) (slot : Option (ProbeData W))
        → i < k
        → get_elem? probes i ≡ some p
        → get_elem? sums i ≡ some slot
        → IsSum p i (runs ++ (run ∷ [])) slot
    waiting :
        (i : ℕ) (p : Probe) (slot : Option (ProbeData W))
        → k ≤ i
        → get_elem? probes i ≡ some p
        → get_elem? sums i ≡ some slot
        → IsSum p i runs slot

  pub record Summed (probes : List Probe) (runs : List (RunData W))
      (sums : List (Option (ProbeData W))) : Type 0 where
    pub size : length sums ≡ length probes
    pub each :
        (i : ℕ) (p : Probe) (slot : Option (ProbeData W))
        → get_elem? probes i ≡ some p
        → get_elem? sums i ≡ some slot
        → IsSum p i runs slot

  module _ (probes : List Probe) (runs : List (RunData W)) (run : RunData W)
      (fit : RunFits probes run) where
    add_round :
        (i : ℕ) (sums : List (Option (ProbeData W)))
        → i < length probes
        → Adding probes runs run i sums
        → (sums' : List (Option (ProbeData W))) × ((do
          pd ← get_probe_data run i
          slot ← get_elem? sums i
          sum ← add_assign (allocated slot pd) pd
          some (set sums i (some sum)))
            ≡ some sums')
          × Adding probes runs run (i + 1) sums'
    unfolding get_probe_data get_nb_probe_data
    add_round i sums h a =
        let (p, at) = get_elem?_of_lt probes i h in
        let (pd, is) = get_elem?_of_lt run.data_of i (omega (arith, fit.size)) in
        let (slot, old) = get_elem?_of_lt sums i (omega (arith, a.size)) in
        let fits = fit.each i p pd at is in
        let s = allocated_lem p i runs slot pd (a.waiting i p slot (omega arith) at old) fits in
        let (sum, e, sums_up) = add_to_sum p i runs (allocated slot pd) run pd s is fits in
        let in_sums : i < length sums = omega (arith, a.size) in
        let in_run : i < length run.data_of = omega (arith, fit.size) in
        (
          set sums i (some sum),
          rw (lt→ltb _ _ in_run, is, old, e),
          record {
            size = length-set sums i (some sum) ∙ a.size;
            added = λ j q x lt at' is'. elim (get_elem?-set_cases sums i j (some sum) in_sums is') [
              | inl (same, x_is) ↦ let q_is : q ≡ p = cc in rw (same, q_is, x_is) sums_up
              | inr (other, before) ↦ a.added j q x (omega arith) at' before
            ];
            waiting = λ j q x le at' is'.
                elim (get_elem?-set_cases sums i j (some sum) in_sums is') [
                  | inl (same, x_is) ↦ absurd (omega arith)
                  | inr (other, before) ↦ a.waiting j q x (omega arith) at' before
                ];
          },
        )

    pub add_run_lem :
        (sums : List (Option (ProbeData W)))
        → Summed probes runs sums
        → (sums' : List (Option (ProbeData W))) × (add_run run sums ≡ some sums')
          × Summed probes (runs ++ (run ∷ [])) sums'
    unfolding add_run get_nb_probe_data
    add_run_lem sums s =
        let n = length run.data_of in
        let (sums', e, a) =
          for_range_inv (Adding probes runs run) _ n 0 n sums
            (λ i t h a. add_round i t (omega (arith, fit.size)) a) (omega arith)
            (record {
              size = s.size;
              added = λ i p slot lt. absurd (omega arith);
              waiting = λ i p slot le. s.each i p slot;
            }) in
        (
          sums',
          e,
          record {
            size = a.size;
            each = λ i p slot at is.
                a.added i p slot (omega (arith, fit.size, lt_of_get_elem? probes i at)) at is;
          },
        )
