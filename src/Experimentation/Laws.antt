-- ===== src/Experimentation/Laws.antt =====
-- What an experimentation starts with, and what a daemon leaves in its file.
use Prim.Native.String.{String}
use mathlib.Core.Path.{subst}
use lpowerprobe.Common.{
  ℕ, ◌<◌, ◌^◌, ◌≡◌, refl, ap, Bool, false, Option, none, some, List, [], ◌∷◌, ◌++◌, length, arith,
  if◌then◌else◌, ◌⊎◌, inl, inr,
}
use lpowerprobe.Double.{Double}
use lpowerprobe.Probe.{Library, Probe, done}
use lpowerprobe.Probe.Laws.{>>=-eq-done}
use lpowerprobe.ProbeData.{ProbeData, Token}
use lpowerprobe.Loader.{new_loader, add_directory, load_probes}
use lpowerprobe.Results.{Results, new_results}
use lpowerprobe.Results.Shape.{ResultsFit, Enough}
use lpowerprobe.Results.Stop.{new_results-ResultsFit}
use lpowerprobe.Collector.{Collector, new_collector}
use lpowerprobe.Collector.Period.{HasIntPeriods, new_collector_lem}
use lpowerprobe.DaemonRunner.{Turn, Daemon, ends}
use lpowerprobe.DaemonRunner.Signals.{Ends, Waits}
use lpowerprobe.DaemonRunner.Laws.{Recorded, start_daemon_lem}
use lpowerprobe.Writer.{Destination, file, console, write_header, write}
use lpowerprobe.Writer.Line.{table_text}
use lpowerprobe.Writer.Table.{IsTable, write_lem}
use lpowerprobe.Experimentation.{
  Experimentation, or_stopped, some_probes, new_experimentation, save_results, saved,
  start_daemon_experimentation,
}

some_probes_lem :
    (loaded : List Probe) {probes : List Probe}
    → some_probes loaded ≡ done probes
    → 0 < length probes
some_probes_lem [] h = absurd (cc)
some_probes_lem (p ∷ ps) {probes} h = let is : probes ≡ p ∷ ps = cc in rw is (omega arith)

or_stopped_lem {ℓ} : {A : Type ℓ} (o : Option A) {a : A} → or_stopped o ≡ done a → o ≡ some a
or_stopped_lem none h = absurd (cc)
or_stopped_lem (some x) h = cc

some_same {ℓ} : {A : Type ℓ} (o : Option A) {x y : A} → o ≡ some x → o ≡ some y → x ≡ y
some_same o h k = cc

collected_lem :
    (probes : List Probe) {c : Collector}
    → HasIntPeriods probes
    → or_stopped (new_collector probes) ≡ done c
    → (c.probes ≡ probes) × (c.thread_collecting ≡ false)
collected_lem probes {c} ints collected =
    let (c', made, same, periodic_ones, resting, step) = new_collector_lem probes ints in
    let one : c ≡ c' =
      some_same (new_collector probes) (or_stopped_lem (new_collector probes) collected) made in
    (rw one same, rw one resting)

module _ {W : Type 0} ⦃d : Double W⦄ where
  -- What the constructor of an experimentation leaves.
  pub record IsPrepared (e : Experimentation W) : Type 0 where
    pub nonempty : 0 < length e.probes
    pub overhead : ResultsFit e.probes e.overhead_results
    pub results : ResultsFit e.probes e.results
    pub unmeasured : (e.overhead_results.nb_measurement ≡ 0) × (e.results.nb_measurement ≡ 0)
    pub same : e.probe_data_collector.probes ≡ e.probes
    pub at_rest : e.probe_data_collector.thread_collecting ≡ false

  -- For at least one repetition, an experimentation whose constructor returns, with probes whose
  -- periods are below INT_MAX, has a probe, well-formed results without a measurement, and a
  -- collector of these probes that is at rest.
  pub new_experimentation-IsPrepared :
      (dlopen : String → Option Library) (program_path : String) (probes_path : List String)
      (nb_repet : ℕ) {e : Experimentation W}
      → 0 < nb_repet
      → HasIntPeriods e.probes
      → new_experimentation dlopen program_path probes_path nb_repet ≡ done e
      → IsPrepared e
  unfolding new_experimentation new_results
  new_experimentation-IsPrepared dlopen program_path probes_path n {e} some_repet ints made =
      let (loaded, ran, rest) =
        >>=-eq-done (load_probes dlopen (add_directory new_loader program_path) probes_path []) _
          made in
      let (probes, kept, rest') = >>=-eq-done (some_probes loaded.0) _ rest in
      let (c, collected, last) = >>=-eq-done (or_stopped (new_collector probes)) _ rest' in
      let is : e ≡ record {
        probes = probes;
        overhead_results = new_results n probes;
        results = new_results n probes;
        probe_data_collector = c;
      } =
        cc in
      let ints' : HasIntPeriods probes =
        subst HasIntPeriods (ap (λ (x : Experimentation W). x.probes) is) ints in
      let (same, resting) = collected_lem probes ints' collected in
      rw is (record {
        nonempty = some_probes_lem loaded.0 kept;
        overhead = new_results-ResultsFit probes n some_repet;
        results = new_results-ResultsFit probes n some_repet;
        unmeasured = (refl, refl);
        same = same;
        at_rest = resting;
      })

  saved-ends :
      (is_open : Bool) (probes : List Probe) (s : Daemon W) {out : Destination × List (Token W)}
      → write is_open s.overhead s.results probes ≡ some out
      → saved is_open probes (ends s) ≡ some (some out)
  unfolding save_results
  saved-ends is_open probes s wrote = rw (saved, wrote) refl

  -- A daemon with a prepared experimentation, whose probes always return arrays that are long enough
  -- and have at most 2^32 values, does not fault in fewer than 2^32 turns, whatever signals come. If
  -- SIGTERM or SIGINT ends it behind `n` turns with a signal in each pause, it writes the header and one line
  -- for each of these turns: the values of the results, measured with the readings of repetitions 0 to
  -- n - 1 in their order, less the average of the overhead, which was measured once, with the idle
  -- readings. If the signals leave it in a pause, nothing is written.
  pub daemon_table :
      (is_open : Bool) (e : Experimentation W) (turns : List Turn) (idle : ℕ → List W)
      (readings : ℕ → ℕ → List W)
      → IsPrepared e
      → Enough e.probes idle
      → ((k : ℕ) → Enough e.probes (readings k))
      → length turns < 2 ^ 32
      → ((n : ℕ) × Ends turns n
          × ((overhead : Results W) × (results : Results W) × (lines : List (List (ProbeData W)))
              × (start_daemon_experimentation is_open e turns idle readings
                  ≡ some (
                      some (
                        if is_open then file else console,
                        write_header e.probes [] ++ table_text lines,
                      )))
              × IsTable e.probes overhead results n lines
              × Recorded e.probe_data_collector readings 0 n e.results results
              × Recorded e.probe_data_collector (λ k. idle) 0 1 e.overhead_results overhead))
        ⊎ (Waits turns × (start_daemon_experimentation is_open e turns idle readings ≡ some none))
  unfolding start_daemon_experimentation save_results
  daemon_table is_open e turns idle readings ready enough_idle enough short =
      let c = e.probe_data_collector in
      let s : Daemon W = record {
        collector = c;
        overhead = e.overhead_results;
        results = e.results;
        nb_meta_repet = 1;
      } in
      elim (start_daemon_lem s turns idle readings ready.at_rest (rw ready.same ready.overhead)
        (rw ready.same ready.results) (rw ready.same enough_idle) (λ k. rw ready.same (enough k))
        (omega (arith, ready.unmeasured.0)) (omega (arith, ready.unmeasured.1))) [
          | inr (pausing, (s', ran)) ↦ inr (pausing, rw (start_daemon_experimentation, ran) refl)
          | inl (n, ended, (s', ran, m)) ↦
              let overhead_counted = m.overhead_counted in
              let counted = m.results_counted in
              let one : s'.overhead.nb_measurement ≡ 1 =
                omega (arith, overhead_counted, ready.unmeasured.0) in
              let all : s'.results.nb_measurement ≡ n =
                omega (arith, counted, ready.unmeasured.1) in
              let (lines, wrote, table) =
                write_lem is_open e.probes s'.overhead s'.results ready.nonempty
                  (rw (← ready.same) m.overhead_fit) (rw (← ready.same) m.results_fit)
                  (omega (arith, one)) in
              inl (
                n,
                ended,
                (
                  s'.overhead,
                  s'.results,
                  lines,
                  rw (start_daemon_experimentation, ran) (saved-ends is_open e.probes s' wrote),
                  subst (λ k. IsTable e.probes s'.overhead s'.results k lines) all table,
                  m.results,
                  (s'.overhead, m.overhead, refl),
                ),
              )
        ]
