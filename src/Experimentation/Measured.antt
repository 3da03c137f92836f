-- ===== src/Experimentation/Measured.antt =====
-- What a program leaves in its file.
use mathlib.Core.Path.{subst}
use lpowerprobe.Common.{
  ℕ, zero, suc, ◌+◌, ◌<◌, ◌≤◌, ◌^◌, ◌≡◌, refl, Bool, true, false, ◌&&◌, Option, none, some, List,
  [], ◌∷◌, ◌++◌, length, get_elem?_of_lt, arith, if◌then◌else◌, ◌⊎◌, inl, inr,
}
use lpowerprobe.Double.{Double}
use lpowerprobe.Probe.{done}
use lpowerprobe.ProbeData.{ProbeData, Token}
use lpowerprobe.Results.{Results}
use lpowerprobe.Results.Shape.{ResultsFit, Enough}
use lpowerprobe.Collector.{Collector}
use lpowerprobe.DaemonRunner.Laws.{Recorded, measure_lem}
use lpowerprobe.Writer.{Destination, file, console, write_header, write}
use lpowerprobe.Writer.Line.{table_text}
use lpowerprobe.Writer.Table.{IsTable, write_lem}
use lpowerprobe.Options.{Options}
use lpowerprobe.Options.Settings.{PinsAll}
use lpowerprobe.Experimentation.{Experimentation, save_results}
use lpowerprobe.Experimentation.Laws.{IsPrepared}
use lpowerprobe.Experimentation.Runs.{pinned_cpu, pin_threads, repeat_measure, run_threads}
use lpowerprobe.Experimentation.Threads.{create_threads, start_program_experimentation}

-- The numbers from `process` on.
abbrev numbers_from : ℕ → ℕ → List ℕ
numbers_from zero process = []
numbers_from (suc count) process = process ∷ numbers_from count (process + 1)

all_created :
    (attr_init create : ℕ → Bool) (count process : ℕ)
    → ((k : ℕ) → k < process + count → attr_init k && create k ≡ true)
    → create_threads attr_init create count process ≡ done (numbers_from count process)
unfolding create_threads
all_created attr_init create zero process ok = refl
all_created attr_init create (suc count) process ok =
    rw
      (
        ok process (omega arith),
        all_created attr_init create count (process + 1) (λ k lt. ok k (omega (arith, lt))),
      )
      refl

-- A thread finds its CPU.
pub cpu_found :
    (o : Options) (k : ℕ)
    → PinsAll o false
    → k < o.nb_process
    → (cpu : Option ℕ) × (pinned_cpu o.pinning k ≡ some cpu)
unfolding pinned_cpu
cpu_found o k pins lt = found o.pinning pins
  where
    found :
        (pinning : List ℕ)
        → (o.nb_process ≡ 1) ⊎ (length pinning ≡ o.nb_process)
        → (cpu : Option ℕ) × (pinned_cpu pinning k ≡ some cpu)
    found [] either = (none, refl)
    found (c ∷ cs) (inl one) =
        let (cpu, at) = get_elem?_of_lt (c ∷ cs) k (omega (arith, one, lt)) in
        (some cpu, rw at refl)
    found (c ∷ cs) (inr all) =
        let (cpu, at) = get_elem?_of_lt (c ∷ cs) k (omega (arith, all, lt)) in
        (some cpu, rw at refl)

all_pinned :
    (o : Options) (count process : ℕ)
    → PinsAll o false
    → process + count ≤ o.nb_process
    → (cpus : List (Option ℕ)) × (pin_threads o.pinning (numbers_from count process) ≡ some cpus)
unfolding pin_threads
all_pinned o zero process pins le = ([], refl)
all_pinned o (suc count) process pins le =
    let (cpu, found) = cpu_found o process pins (omega (arith, le)) in
    let (cpus, rest) = all_pinned o count (process + 1) pins (omega (arith, le)) in
    (cpu ∷ cpus, rw (found, rest) refl)

module _ {W : Type 0} ⦃d : Double W⦄ where
  repeat_measure_lem :
      (count k : ℕ) (outcomes : ℕ → Option (ℕ → List W)) (readings : ℕ → ℕ → List W) (c : Collector)
      (results : Results W)
      → ((j : ℕ) → j < k + count → outcomes j ≡ some (readings j))
      → c.thread_collecting ≡ false
      → ResultsFit c.probes results
      → ((k : ℕ) → Enough c.probes (readings k))
      → results.nb_measurement + count < 2 ^ 32
      → (results' : Results W) × (repeat_measure count k outcomes c results ≡ some (c, results'))
        × Recorded c readings k count results results'
        × ResultsFit c.probes results'
        × (results'.nb_measurement ≡ results.nb_measurement + count)
  unfolding repeat_measure
  repeat_measure_lem zero k outcomes readings c results ran idle fit enough small =
      (results, refl, refl, fit, omega arith)
  repeat_measure_lem (suc count) k outcomes readings c results ran idle fit enough small =
      let (results1, ran1, fit1, counted1) =
        measure_lem c results (readings k) idle fit (enough k) (omega (arith, small)) in
      let (results2, ran2, recorded, fit2, counted2) =
        repeat_measure_lem count (k + 1) outcomes readings c results1
          (λ j lt. ran j (omega (arith, lt))) idle fit1 enough (omega (arith, small, counted1)) in
      (
        results2,
        rw (ran k (omega arith), ran1, ran2) refl,
        (results1, ran1, recorded),
        fit2,
        omega (arith, counted1, counted2),
      )

  run_threads_lem :
      (e : Experimentation W) (n count : ℕ) (idle_runs runs : ℕ → Option (ℕ → List W))
      (idle readings : ℕ → ℕ → List W)
      → ((k : ℕ) → k < n → idle_runs k ≡ some (idle k))
      → ((k : ℕ) → k < n → runs k ≡ some (readings k))
      → IsPrepared e
      → 0 < count
      → ((k : ℕ) → Enough e.probes (idle k))
      → ((k : ℕ) → Enough e.probes (readings k))
      → n < 2 ^ 32
      → (overhead : Results W) × (results : Results W) × (run_threads n
            (numbers_from count 0)
            e
            idle_runs
            runs
          ≡ some (overhead, results))
        × Recorded e.probe_data_collector idle 0 n e.overhead_results overhead
        × Recorded e.probe_data_collector readings 0 n e.results results
        × ResultsFit e.probes overhead
        × ResultsFit e.probes results
        × (overhead.nb_measurement ≡ n)
        × (results.nb_measurement ≡ n)
  unfolding run_threads
  run_threads_lem e n zero idle_runs runs idle readings ran_idle ran_test ready pos enough_idle
        enough small =
      absurd (omega (arith, pos))
  run_threads_lem e n (suc count) idle_runs runs idle readings ran_idle ran_test ready pos
        enough_idle enough small =
      let c = e.probe_data_collector in
      let (overhead, ran, recorded, fit, counted) =
        repeat_measure_lem n 0 idle_runs idle c e.overhead_results
          (λ k lt. ran_idle k (omega (arith, lt))) ready.at_rest (rw ready.same ready.overhead)
          (λ k. rw ready.same (enough_idle k)) (omega (arith, ready.unmeasured.0, small)) in
      let (results, ran', recorded', fit', counted') =
        repeat_measure_lem n 0 runs readings c e.results (λ k lt. ran_test k (omega (arith, lt)))
          ready.at_rest (rw ready.same ready.results) (λ k. rw ready.same (enough k))
          (omega (arith, ready.unmeasured.1, small)) in
      (
        overhead,
        results,
        rw (ran, ran') refl,
        recorded,
        recorded',
        rw (← ready.same) fit,
        rw (← ready.same) fit',
        omega (arith, counted, ready.unmeasured.0),
        omega (arith, counted', ready.unmeasured.1),
      )

  started_lem :
      (is_open : Bool) (e : Experimentation W) (o : Options) (attr_init create : ℕ → Bool)
      (idle readings : ℕ → Option (ℕ → List W)) (threads : List ℕ) (cpus : List (Option ℕ))
      (overhead results : Results W) {out : Destination × List (Token W)}
      → create_threads attr_init create o.nb_process 0 ≡ done threads
      → pin_threads o.pinning threads ≡ some cpus
      → run_threads o.nb_repet threads e idle readings ≡ some (overhead, results)
      → write is_open overhead results e.probes ≡ some out
      → start_program_experimentation is_open e o attr_init create idle readings ≡ done out
  unfolding start_program_experimentation save_results
  started_lem is_open e o attr_init create idle readings threads cpus overhead results made pinned
        ran wrote =
      rw (start_program_experimentation, made, pinned, ran, wrote) refl

  -- With a prepared experimentation, probes that always return arrays that are long enough and have at
  -- most 2^32 values, settled options (a process and fewer than 2^32 repetitions at least, and a CPU
  -- for each process where more than one is pinned) and threads that can all be created, the
  -- experimentation with a program in which every evaluation returns, so that no fork fails and no child
  -- is killed, does not fault. It measures the
  -- overhead once for each repetition, with the readings of the idle runs in their order, then the
  -- program as often, with those of its runs, and writes the header and one line for each repetition:
  -- the values of these results less the average of this overhead.
  pub program_table :
      (is_open : Bool) (e : Experimentation W) (o : Options) (attr_init create : ℕ → Bool)
      (idle_runs runs : ℕ → Option (ℕ → List W)) (idle readings : ℕ → ℕ → List W)
      → ((k : ℕ) → k < o.nb_repet → idle_runs k ≡ some (idle k))
      → ((k : ℕ) → k < o.nb_repet → runs k ≡ some (readings k))
      → IsPrepared e
      → 0 < o.nb_process
      → PinsAll o false
      → 0 < o.nb_repet
      → o.nb_repet < 2 ^ 32
      → ((k : ℕ) → k < o.nb_process → attr_init k && create k ≡ true)
      → ((k : ℕ) → Enough e.probes (idle k))
      → ((k : ℕ) → Enough e.probes (readings k))
      → (overhead : Results W) × (results : Results W) × (lines : List (List (ProbeData W)))
        × (start_program_experimentation is_open e o attr_init create idle_runs runs
            ≡ done
                (if is_open then file else console, write_header e.probes [] ++ table_text lines))
        × IsTable e.probes overhead results o.nb_repet lines
        × Recorded e.probe_data_collector idle 0 o.nb_repet e.overhead_results overhead
        × Recorded e.probe_data_collector readings 0 o.nb_repet e.results results
        × (overhead.nb_measurement ≡ o.nb_repet)
  program_table is_open e o attr_init create idle_runs runs idle readings ran_idle ran_test ready
        pos pins some_repet small ok enough_idle enough =
      let made = all_created attr_init create o.nb_process 0 (λ k lt. ok k (omega (arith, lt))) in
      let (cpus, pinned) = all_pinned o o.nb_process 0 pins (omega arith) in
      let (overhead, results, ran, recorded, recorded', fit, fit', counted, counted') =
        run_threads_lem e o.nb_repet o.nb_process idle_runs runs idle readings ran_idle ran_test
          ready pos enough_idle enough small in
      let (lines, wrote, table) =
        write_lem is_open e.probes overhead results ready.nonempty fit fit'
          (omega (arith, counted, some_repet)) in
      (
        overhead,
        results,
        lines,
        started_lem is_open e o attr_init create idle_runs runs (numbers_from o.nb_process 0) cpus
            overhead results made pinned ran wrote,
        subst (λ n. IsTable e.probes overhead results n lines) counted' table,
        recorded,
        recorded',
        counted,
      )
