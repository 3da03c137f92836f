-- ===== src/Writer/Table.antt =====
-- The whole table: the header, and a line for each measurement.
use mathlib.Core.List.{append_assoc, append-nil}
use lpowerprobe.Common.{
  ℕ, zero, suc, ◌+◌, ◌*◌, ◌%◌, ◌^◌, ◌<◌, ◌≡◌, refl, ◌∙◌, sym, ap, Bool, none, some, List, [], ◌∷◌,
  ◌++◌, length, get_elem?, replicate, All, arith, if◌then◌else◌, inl, inr, for_range_inv,
  get_elem?_of_lt, get_elem?-snoc_cases, length-append, All-get_elem?,
}
use lpowerprobe.Double.{Double}
use lpowerprobe.ProbeData.{ProbeData, Token, label, semicolon, newline}
use lpowerprobe.ProbeData.Print.{matrix_text, semicolons, semicolons-append, semicolons-matrix_text}
use lpowerprobe.Probe.{Probe, get_label, get_nb_devices, get_nb_channels}
use lpowerprobe.RunData.{RunData}
use lpowerprobe.Results.{Results, get_nb_results}
use lpowerprobe.Results.Shape.{Fits, ResultsFit, RunFits}
use lpowerprobe.Writer.{
  file, console, write_header, write_rows, write, overhead_average, add_runs, divide_all,
}
use lpowerprobe.Writer.Overhead.{IsAverage, overhead_average_lem}
use lpowerprobe.Writer.Line.{line_text, table_text, table_text-snoc, IsLine, write_row_lem}

module _ {W : Type 0} ⦃d : Double W⦄ where
  -- The lines are those of the measurements, in order.
  pub record IsTable (probes : List Probe) (overhead results : Results W) (n : ℕ)
      (lines : List (List (ProbeData W))) : Type 0 where
    pub size : length lines ≡ n
    pub each :
        (m : ℕ) (line : List (ProbeData W))
        → get_elem? lines m ≡ some line
        → (run : RunData W) × (get_elem? results.results m ≡ some run)
          × IsLine probes overhead run line

  record Rows (probes : List Probe) (overhead results : Results W) (out : List (Token W)) (n : ℕ)
      (text : List (Token W)) : Type 0 where
    lines : List (List (ProbeData W))
    table : IsTable probes overhead results n lines
    written : text ≡ out ++ table_text lines

  Rows-next :
      (probes : List Probe) (overhead results : Results W) (out text : List (Token W)) (m : ℕ)
      (run : RunData W) (line : List (ProbeData W))
      → Rows probes overhead results out m text
      → get_elem? results.results m ≡ some run
      → IsLine probes overhead run line
      → Rows probes overhead results out (m + 1) (text ++ (line_text line ++ (newline ∷ [])))
  Rows-next probes overhead results out text m run line r is good = record {
    lines = r.lines ++ (line ∷ []);
    table = record {
      size = omega (arith, length-append r.lines (line ∷ []), r.table.size);
      each = λ k x at. elim (get_elem?-snoc_cases r.lines line k at) [
        | inl (last, same) ↦
            let here : k ≡ m = omega (arith, r.table.size) in (run, rw here is, rw same good)
        | inr before ↦ r.table.each k x before
      ];
    };
    written =
        rw (r.written, table_text-snoc r.lines line)
          (append_assoc out (table_text r.lines) (line_text line ++ (newline ∷ [])));
  }

  write_rows_lem :
      (probes : List Probe) (overhead results : Results W) (avgs : List (ProbeData W))
      (out : List (Token W))
      → 0 < length probes
      → ResultsFit probes results
      → length avgs ≡ length probes
      → ((i : ℕ) (p : Probe) (avg : ProbeData W)
          → get_elem? probes i ≡ some p
          → get_elem? avgs i ≡ some avg
          → IsAverage p i overhead avg)
      → (text : List (Token W)) × (write_rows avgs results out ≡ some text)
        × Rows probes overhead results out results.nb_measurement text
  unfolding write_rows get_nb_results
  write_rows_lem probes overhead results avgs out some_probe fit as_many average =
      for_range_inv (Rows probes overhead results out) _ results.nb_measurement 0
        results.nb_measurement out
        (λ m text h r.
          let (run, is) = get_elem?_of_lt results.results m (omega (arith, fit.counted)) in
          let (line, e, good) =
            write_row_lem probes overhead avgs as_many average run text some_probe
              (All-get_elem? (RunFits probes) results.results m fit.runs is) in
          (
            text ++ (line_text line ++ (newline ∷ [])),
            rw is e,
            Rows-next probes overhead results out text m run line r is good,
          ))
        (omega arith)
        (record {
          lines = [];
          table = record { size = refl; each = λ m line at. absurd (cc) };
          written = sym (append-nil out);
        })

  -- For at least one probe, well-formed results and at least one measured overhead, the writer does
  -- not fault. It writes the header and then a line for each measurement, in order, with a value for
  -- every device and channel of every probe: the measured one less the average of the overhead. It
  -- writes to the file if that is open, and to the console otherwise.
  pub write_lem :
      (is_open : Bool) (probes : List Probe) (overhead results : Results W)
      → 0 < length probes
      → ResultsFit probes overhead
      → ResultsFit probes results
      → 0 < overhead.nb_measurement
      → (lines : List (List (ProbeData W))) × (write is_open overhead results probes
          ≡ some (if is_open then file else console, write_header probes [] ++ table_text lines))
        × IsTable probes overhead results results.nb_measurement lines
  unfolding write
  write_lem is_open probes overhead results some_probe fit_overhead fit some_run =
      let (avgs, e, as_many, average) =
        overhead_average_lem probes overhead fit_overhead some_run in
      let (text, e', rows) =
        write_rows_lem probes overhead results avgs (write_header probes []) some_probe fit as_many
          average in
      (rows.lines, rw (e, e', rows.written), rows.table)

  -- Without a measured overhead the averages are null pointers, and the writer faults.
  pub write_without_overhead :
      (is_open : Bool) (probes : List Probe) (overhead results : Results W)
      → 0 < length probes
      → overhead.nb_measurement ≡ 0
      → write is_open overhead results probes ≡ none
  unfolding write overhead_average add_runs divide_all get_nb_results
  write_without_overhead is_open [] overhead results h z = absurd (omega arith)
  write_without_overhead is_open (p ∷ probes) overhead results h z = rw z refl

-- The columns of the table.
abbrev pub columns : List Probe → ℕ
columns [] = 0
columns (p ∷ ps) = get_nb_devices p * get_nb_channels p + columns ps

semicolons-replicate : (W : Type 0) (n : ℕ) → semicolons {W = W} (replicate n semicolon) ≡ n
semicolons-replicate W zero = refl
semicolons-replicate W (suc n) = ap suc (semicolons-replicate W n)

module _ {W : Type 0} where
  semicolons-write_header :
      (probes : List Probe) (out : List (Token W))
      → All (λ p. get_nb_devices p * get_nb_channels p < 2 ^ 32) probes
      → semicolons (write_header probes out) ≡ semicolons out + columns probes
  unfolding write_header
  semicolons-write_header [] out small = omega (arith, semicolons-append out (newline ∷ []))
  semicolons-write_header (p ∷ ps) out small =
      let n = get_nb_devices p * get_nb_channels p % 2 ^ 32 in
      let with_label = out ++ (label (get_label p) ∷ []) in
      omega (
        arith,
        small.0,
        semicolons-write_header ps (with_label ++ replicate n semicolon) small.1,
        semicolons-append with_label (replicate n semicolon),
        semicolons-append out (label (get_label p) ∷ []),
        semicolons-replicate W n,
      )

  semicolons-line_text :
      (probes : List Probe) (line : List (ProbeData W))
      → length line ≡ length probes
      → ((i : ℕ) (p : Probe) (pd : ProbeData W)
          → get_elem? probes i ≡ some p
          → get_elem? line i ≡ some pd
          → Fits p pd)
      → semicolons (line_text line) ≡ columns probes
  semicolons-line_text [] [] l fits = refl
  semicolons-line_text [] (pd ∷ line) l fits = absurd (omega arith)
  semicolons-line_text (p ∷ ps) [] l fits = absurd (omega arith)
  semicolons-line_text (p ∷ ps) (pd ∷ line) l fits =
      let f : Fits p pd = fits 0 p pd refl refl in
      let values : semicolons (matrix_text pd.values) ≡ get_nb_devices p * get_nb_channels p =
        semicolons-matrix_text pd.nb_channels pd.values f.valid.columns
        ∙ rw (f.valid.rows, f.devices, f.channels) refl in
      omega (
        arith,
        values,
        semicolons-append (matrix_text pd.values) (line_text line),
        semicolons-line_text ps line (omega arith) (λ i q x a b. fits (suc i) q x a b),
      )

module _ {W : Type 0} ⦃d : Double W⦄ where
  -- The header and every line of the table open the same number of columns, if no probe has 2^32
  -- values or more.
  pub columns_align :
      (probes : List Probe) (overhead results : Results W) (n m : ℕ)
      (lines : List (List (ProbeData W))) {line : List (ProbeData W)}
      → All (λ p. get_nb_devices p * get_nb_channels p < 2 ^ 32) probes
      → IsTable probes overhead results n lines
      → get_elem? lines m ≡ some line
      → semicolons (line_text line) ≡ semicolons {W = W} (write_header probes [])
  columns_align probes overhead results n m lines {line} small table at =
      let (run, is, good) = table.each m line at in
      omega (
        arith,
        semicolons-line_text probes line good.size (λ i p pd a b. (good.each i p pd a b).fits),
        semicolons-write_header {W = W} probes [] small,
      )
