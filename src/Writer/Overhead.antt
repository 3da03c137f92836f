-- ===== src/Writer/Overhead.antt =====
-- The whole of the overhead: all runs summed, every sum divided.
use mathlib.Core.List.{append_assoc, append-nil}
use mathlib.Core.Path.{subst}
use lpowerprobe.Common.{
  ℕ, zero, suc, ◌<◌, ◌≡◌, ◌≢◌, refl, ◌∙◌, ap, Option, none, some, List, [], ◌∷◌, ◌++◌, length,
  get_elem?, take, replicate, All, arith, ◌>>=◌, get_elem?_of_lt, get_elem?-replicate,
  length-replicate, lt_of_get_elem?,
}
use lpowerprobe.Double.{Double}
use lpowerprobe.ProbeData.{ProbeData, IsValid, div_assign}
use lpowerprobe.ProbeData.Laws.{HasCells, div_assign_lem}
use lpowerprobe.Probe.{Probe}
use lpowerprobe.RunData.{RunData}
use lpowerprobe.Results.{Results, get_nb_results}
use lpowerprobe.Results.Shape.{Fits, RunFits, ResultsFit}
use lpowerprobe.Writer.{add_runs, divide_all, overhead_average}
use lpowerprobe.Writer.Average.{sum_from, SumsUp, IsSum, Summed, add_run_lem}

module _ {W : Type 0} ⦃d : Double W⦄ where
  add_runs_lem :
      (probes : List Probe) (count : ℕ) (seen rest : List (RunData W))
      (sums : List (Option (ProbeData W)))
      → All (RunFits probes) rest
      → Summed probes seen sums
      → (sums' : List (Option (ProbeData W))) × (add_runs count rest sums ≡ some sums')
        × Summed probes (seen ++ take count rest) sums'
  unfolding add_runs
  add_runs_lem probes zero seen rest sums fit s = (sums, refl, rw (append-nil seen) s)
  add_runs_lem probes (suc count) seen [] sums fit s = (sums, refl, rw (append-nil seen) s)
  add_runs_lem probes (suc count) seen (run ∷ rest) sums fit s =
      let (sums', e, s') = add_run_lem probes seen run fit.0 sums s in
      let (sums'', e', s'') = add_runs_lem probes count (seen ++ (run ∷ [])) rest sums' fit.1 s' in
      (
        sums'',
        rw e e',
        subst (λ runs. Summed probes runs sums'') (append_assoc seen (run ∷ []) (take count rest))
            s'',
      )

  -- Each sum is there, and is divided.
  divide_all_lem :
      (quot : ℕ) (sums : List (Option (ProbeData W)))
      → ((i : ℕ) (slot : Option (ProbeData W))
          → get_elem? sums i ≡ some slot
          → (sum : ProbeData W) × (slot ≡ some sum) × IsValid sum)
      → (avgs : List (ProbeData W)) × (divide_all quot sums ≡ some avgs)
        × (length avgs ≡ length sums)
        × ((i : ℕ) (avg : ProbeData W)
            → get_elem? avgs i ≡ some avg
            → (sum : ProbeData W) × (get_elem? sums i ≡ some (some sum))
              × (div_assign sum quot ≡ some avg))
  unfolding divide_all
  divide_all_lem quot [] there = ([], refl, refl, λ i avg e. absurd (cc))
  divide_all_lem quot (none ∷ sums) there = let (sum, e, v) = there 0 none refl in absurd (cc)
  divide_all_lem quot (some sum ∷ sums) there =
      let (sum', same, v) = there 0 (some sum) refl in
      let is : sum ≡ sum' = cc in
      let (avg, e, counts, valid, cells) = div_assign_lem sum quot (rw is v) in
      let (avgs, e', l, back) = divide_all_lem quot sums (λ i slot at. there (suc i) slot at) in
      (
        avg ∷ avgs,
        rw (e, e'),
        ap suc l,
        elim [ zero ↦ λ x at. (sum, refl, e ∙ at) | suc i ↦ λ x at. back i x at ],
      )

  IsSum-some :
      (p : Probe) (i : ℕ) (runs : List (RunData W)) (slot : Option (ProbeData W))
      → runs ≢ []
      → IsSum p i runs slot
      → (sum : ProbeData W) × (slot ≡ some sum) × SumsUp p i runs sum
  IsSum-some p i runs none some_run is = absurd (some_run is)
  IsSum-some p i runs (some sum) some_run is = (sum, refl, is)

  -- The average of the overhead of a probe.
  pub record IsAverage (p : Probe) (i : ℕ) (overhead : Results W) (avg : ProbeData W) : Type 0 where
    pub fits : Fits p avg
    pub cells : HasCells avg (λ device channel. do
      sum ← sum_from d.nought i device channel (take overhead.nb_measurement overhead.results)
      some (d.div sum (d.of_size overhead.nb_measurement)))

  IsAverage-of :
      (p : Probe) (i : ℕ) (overhead : Results W) (sum avg : ProbeData W)
      → SumsUp p i (take overhead.nb_measurement overhead.results) sum
      → div_assign sum overhead.nb_measurement ≡ some avg
      → IsAverage p i overhead avg
  IsAverage-of p i overhead sum avg up divided =
      let (avg', e, same, valid, cells) =
        div_assign_lem sum overhead.nb_measurement up.fits.valid in
      let is : avg ≡ avg' = cc in
      rw is (record {
        fits = record {
          devices = same.devices ∙ up.fits.devices;
          channels = same.channels ∙ up.fits.channels;
          valid = valid;
        };
        cells = λ a b ha hb.
            cells a b ha hb
            ∙ rw (up.cells a b (omega (arith, same.devices)) (omega (arith, same.channels)));
      })

  take_ne : (n : ℕ) (xs : List (RunData W)) → 0 < n → 0 < length xs → take n xs ≢ []
  take_ne zero xs h l e = absurd (omega arith)
  take_ne (suc n) [] h l e = absurd (omega arith)
  take_ne (suc n) (x ∷ xs) h l e = cc

  -- On well-formed results with at least one measurement the average of the overhead is computed
  -- without a fault, for each probe: every value is the sum over the measured runs, from the left,
  -- divided by their number.
  pub overhead_average_lem :
      (probes : List Probe) (overhead : Results W)
      → ResultsFit probes overhead
      → 0 < overhead.nb_measurement
      → (avgs : List (ProbeData W)) × (overhead_average overhead probes ≡ some avgs)
        × (length avgs ≡ length probes)
        × ((i : ℕ) (p : Probe) (avg : ProbeData W)
            → get_elem? probes i ≡ some p
            → get_elem? avgs i ≡ some avg
            → IsAverage p i overhead avg)
  unfolding overhead_average get_nb_results
  overhead_average_lem probes overhead fit some_run =
      let runs = take overhead.nb_measurement overhead.results in
      let measured : runs ≢ [] =
        take_ne overhead.nb_measurement overhead.results some_run fit.nonempty in
      let (sums, e, s) =
        add_runs_lem probes overhead.nb_measurement [] overhead.results
          (replicate (length probes) none) fit.runs
          (record {
            size = length-replicate (length probes) none;
            each = λ i p slot at is.
                let absent : none ≡ slot = cc (
                  get_elem?-replicate {A = Option (ProbeData W)} (length probes) i none
                    (lt_of_get_elem? probes i at)) in
                subst (IsSum p i []) absent refl;
          }) in
      let (avgs, e', l, back) = divide_all_lem overhead.nb_measurement sums (λ i slot is.
        let (p, at) = get_elem?_of_lt probes i (omega (arith, lt_of_get_elem? sums i is, s.size)) in
        let (sum, same, up) = IsSum-some p i runs slot measured (s.each i p slot at is) in
        (sum, same, up.fits.valid)) in
      (
        avgs,
        rw e e',
        l ∙ s.size,
        λ i p avg at is.
            let (sum, is_sum, divided) = back i avg is in
            let up : SumsUp p i runs sum = s.each i p (some sum) at is_sum in
            IsAverage-of p i overhead sum avg up divided,
      )
