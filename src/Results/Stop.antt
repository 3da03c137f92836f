-- ===== src/Results/Stop.antt =====
-- One call of `stop` on the results: the measurement is appended to those already done, and the
-- storage doubles when it is full.
use lpowerprobe.Common.{
  ℕ, ◌+◌, ◌%◌, ◌^◌, ◌<◌, ◌≡◌, ◌≢◌, refl, ◌∙◌, sym, ap, Bool-cases, inl, inr, none, some, List, [],
  ◌∷◌, length, get_elem?, set, replicate, All, arith, lt_of_get_elem?, get_elem?_of_lt,
  get_elem?-set_self, get_elem?-set_ne, get_elem?-append_left, length-set, length-append,
  length-replicate, All-get_elem?, All-set, All-append, All-replicate, lt→ltb, for_range,
  for_range_inv, if◌then◌else◌, leb,
}
use lpowerprobe.Double.{Double}
use lpowerprobe.Probe.{Probe}
use lpowerprobe.RunData.{RunData, new_run_data}
use lpowerprobe.Results.{
  Results, is_full, extend, new_results, set_probe_data, measurement_done, record_measurement,
}
use lpowerprobe.Results.Shape.{
  RunFits, ResultsFit, Enough, Recorded, set_value_lem, new_run_data-RunFits,
}

-- The measurement that the counter points at is recorded for the first `i` probes; the others are
-- as in `r`.
record Filling {W : Type 0} (probes : List Probe) (raws : ℕ → List W) (r : Results W) (i : ℕ)
    (s : Results W) : Type 0 where
  counter : s.nb_measurement ≡ r.nb_measurement
  size : length s.results ≡ length r.results
  kept : (k : ℕ) → r.nb_measurement ≢ k → get_elem? s.results k ≡ get_elem? r.results k
  runs : All (RunFits probes) s.results
  current : RunData W
  is_current : get_elem? s.results r.nb_measurement ≡ some current
  recorded : Recorded i raws current

module _ {W : Type 0} (probes : List Probe) (raws : ℕ → List W) (enough : Enough probes raws)
    (r : Results W) where
  set_probe_data_lem :
      (i : ℕ) (s : Results W)
      → i < length probes
      → Filling probes raws r i s
      → (s' : Results W) × (set_probe_data s i (some (raws i)) ≡ some s')
        × Filling probes raws r (i + 1) s'
  unfolding set_probe_data
  set_probe_data_lem i s h f =
      let fits = All-get_elem? (RunFits probes) s.results r.nb_measurement f.runs f.is_current in
      let (run, ran, fits', rec) = set_value_lem probes raws i f.current enough fits f.recorded h in
      let lt : r.nb_measurement < length s.results =
        lt_of_get_elem? s.results r.nb_measurement f.is_current in
      let at : get_elem? s.results s.nb_measurement ≡ some f.current = rw f.counter f.is_current in
      let in_run : i < length f.current.data_of = omega (arith, fits.size) in
      (
        record s { results = set s.results s.nb_measurement run },
        rw (at, lt→ltb _ _ in_run, ran),
        record {
          counter = f.counter;
          size = length-set s.results s.nb_measurement run ∙ f.size;
          kept = λ k other.
              rw f.counter
                (get_elem?-set_ne s.results r.nb_measurement k run other ∙ f.kept k other);
          runs = All-set (RunFits probes) s.results s.nb_measurement run f.runs fits';
          current = run;
          is_current = rw f.counter (get_elem?-set_self s.results r.nb_measurement run lt);
          recorded = rec;
        },
      )

module _ {W : Type 0} ⦃d : Double W⦄ (probes : List Probe) where
  -- The storage before the loop: there is room, and nothing that was recorded has moved.
  record HasRoom (r s : Results W) : Type 0 where
    counter : s.nb_measurement ≡ r.nb_measurement
    room : r.nb_measurement < length s.results
    kept : (k : ℕ) → k < length r.results → get_elem? s.results k ≡ get_elem? r.results k
    runs : All (RunFits probes) s.results

  extend_if_full :
      (r : Results W)
      → ResultsFit probes r
      → r.nb_measurement + 1 < 2 ^ 32
      → HasRoom r (if is_full r then extend r probes else r)
  unfolding is_full extend
  extend_if_full r fit small = elim (Bool-cases (leb (length r.results) r.nb_measurement)) [
    | inl full ↦ rw full (record {
      counter = refl;
      room = ground (
        arith,
        length-append r.results
            (replicate (length r.results % 2 ^ 32) (new_run_data {W = W} probes)),
        length-replicate (length r.results % 2 ^ 32) (new_run_data {W = W} probes),
      );
      kept = λ k h. get_elem?-append_left r.results _ k h;
      runs =
          All-append (RunFits probes) r.results _ fit.runs
            (All-replicate (RunFits probes) _ (new_run_data probes) (new_run_data-RunFits probes));
    })
    | inr free ↦
        rw free
          (record { counter = refl; room = ground arith; kept = λ k h. refl; runs = fit.runs })
  ]

  -- Storage for at least one measurement is well formed from the start.
  pub new_results-ResultsFit :
      (nb_meta_repeat : ℕ)
      → 0 < nb_meta_repeat
      → ResultsFit {W = W} probes (new_results nb_meta_repeat probes)
  unfolding new_results
  new_results-ResultsFit n h = record {
    nonempty = omega (arith, length-replicate n (new_run_data {W = W} probes));
    counted = omega arith;
    runs = All-replicate (RunFits probes) n _ (new_run_data-RunFits probes);
  }

  -- On well-formed results, with raw arrays as long as the probes say, at most 2^32 values for each probe, and fewer than 2^32 - 1
  -- measurements done, a `stop` succeeds and keeps the results well formed; one more measurement is
  -- done, it holds the raw values of every probe, and the earlier ones are unchanged.
  pub record_measurement_lem :
      (raws : ℕ → List W) (r : Results W)
      → ResultsFit probes r
      → Enough probes raws
      → r.nb_measurement + 1 < 2 ^ 32
      → (r' : Results W) × (record_measurement r probes raws ≡ some r')
        × ResultsFit probes r'
        × (r'.nb_measurement ≡ r.nb_measurement + 1)
        × ((k : ℕ) → k < r.nb_measurement → get_elem? r'.results k ≡ get_elem? r.results k)
        × (run : RunData W) × (get_elem? r'.results r.nb_measurement ≡ some run)
        × Recorded (length probes) raws run
  unfolding record_measurement measurement_done
  record_measurement_lem raws r fit enough small =
      let start : Results W = if is_full r then extend r probes else r in
      let room : HasRoom r start = extend_if_full r fit small in
      let (run, is) =
        get_elem?_of_lt start.results start.nb_measurement
          (omega (arith, room.room, room.counter)) in
      let (s, ran, f) =
        for_range_inv (Filling probes raws start) _ (length probes) 0 (length probes) start
          (λ i t h f. set_probe_data_lem probes raws enough start i t h f) (omega arith)
          (record {
            counter = refl;
            size = refl;
            kept = λ k other. refl;
            runs = room.runs;
            current = run;
            is_current = is;
            recorded = λ i pd lt. absurd (omega arith);
          }) in
      let counted : (s.nb_measurement + 1) % 2 ^ 32 ≡ r.nb_measurement + 1 =
        omega (arith, f.counter, room.counter) in
      (
        measurement_done s,
        rw ran,
        record {
          nonempty = omega (arith, f.size, room.room);
          counted = omega (arith, counted, f.size, room.room);
          runs = f.runs;
        },
        counted,
        λ k lt. f.kept k (omega (arith, room.counter)) ∙ room.kept k (omega (arith, fit.counted)),
        f.current,
        ap (get_elem? s.results) (sym room.counter) ∙ f.is_current,
        f.recorded,
      )

-- Results for no repetition have no room, and doubling gives none: the first `stop` of any probe
-- accesses a run that is not there.
pub no_repetition_faults :
    {W : Type 0} ⦃d : Double W⦄ (probes : List Probe) (raws : ℕ → List W)
    → 0 < length probes
    → record_measurement (new_results 0 probes) probes raws ≡ none
unfolding record_measurement is_full extend new_results set_probe_data for_range
no_repetition_faults [] raws h = absurd (omega arith)
no_repetition_faults (p ∷ probes) raws h = refl
