-- ===== src/Writer/Line.antt =====
-- The text of one line of the table: the values of a measurement, less the average overhead.
use mathlib.Core.List.{append_assoc, append-nil}
use lpowerprobe.Common.{
  ℕ, ◌+◌, ◌-◌, ◌<◌, ◌≡◌, refl, ◌∙◌, sym, ap, true, false, some, List, [], ◌∷◌, ◌++◌, length,
  get_elem?, take, arith, ==-refl, ◌>>=◌, ◌==◌, if◌then◌else◌, Bool-cases, Option-cases, inl, inr,
  lt→ltb, for_range_inv, get_elem?_of_lt, get_elem?-snoc_cases, length-append,
}
use lpowerprobe.Double.{Double}
use lpowerprobe.ProbeData.{ProbeData, Token, newline, get_cell, subtract, print}
use lpowerprobe.ProbeData.Laws.{HasCells, subtract_lem}
use lpowerprobe.ProbeData.Print.{matrix_text, print_lem}
use lpowerprobe.Probe.{Probe}
use lpowerprobe.RunData.{RunData, get_nb_probe_data, get_probe_data}
use lpowerprobe.Results.{Results}
use lpowerprobe.Results.Shape.{Fits, RunFits}
use lpowerprobe.Writer.{write_row}
use lpowerprobe.Writer.Average.{cell_of, sum_from}
use lpowerprobe.Writer.Overhead.{IsAverage}

module _ {W : Type 0} where
  abbrev pub line_text : List (ProbeData W) → List (Token W)
  line_text [] = []
  line_text (pd ∷ pds) = matrix_text pd.values ++ line_text pds

  abbrev pub table_text : List (List (ProbeData W)) → List (Token W)
  table_text [] = []
  table_text (line ∷ lines) = (line_text line ++ (newline ∷ [])) ++ table_text lines

  line_text-snoc :
      (pds : List (ProbeData W)) (pd : ProbeData W)
      → line_text (pds ++ (pd ∷ [])) ≡ line_text pds ++ matrix_text pd.values
  line_text-snoc [] pd = append-nil (matrix_text pd.values)
  line_text-snoc (x ∷ pds) pd =
      rw (line_text-snoc pds pd)
        (sym (append_assoc (matrix_text x.values) (line_text pds) (matrix_text pd.values)))

  pub table_text-snoc :
      (lines : List (List (ProbeData W))) (line : List (ProbeData W))
      → table_text (lines ++ (line ∷ [])) ≡ table_text lines ++ (line_text line ++ (newline ∷ []))
  table_text-snoc [] line = append-nil (line_text line ++ (newline ∷ []))
  table_text-snoc (x ∷ lines) line = rw (table_text-snoc lines line) (
      sym (
        append_assoc (line_text x ++ (newline ∷ [])) (table_text lines)
          (line_text line ++ (newline ∷ []))))

module _ {W : Type 0} ⦃d : Double W⦄ (probes : List Probe) (overhead : Results W) where
  -- The values of probe `i` in a line: those of the run, less the average overhead.
  pub record IsEntry (run : RunData W) (i : ℕ) (p : Probe) (pd : ProbeData W) : Type 0 where
    pub fits : Fits p pd
    pub cells : HasCells pd (λ device channel. do
      x ← cell_of i device channel run
      sum ← sum_from d.nought i device channel (take overhead.nb_measurement overhead.results)
      some (d.sub x (d.div sum (d.of_size overhead.nb_measurement))))

  pub record IsLine (run : RunData W) (line : List (ProbeData W)) : Type 0 where
    pub size : length line ≡ length probes
    pub each :
        (i : ℕ) (p : Probe) (pd : ProbeData W)
        → get_elem? probes i ≡ some p
        → get_elem? line i ≡ some pd
        → IsEntry run i p pd

  module _ (avgs : List (ProbeData W)) (as_many : length avgs ≡ length probes)
      (average : (i : ℕ) (p : Probe) (avg : ProbeData W)
        → get_elem? probes i ≡ some p
        → get_elem? avgs i ≡ some avg
        → IsAverage p i overhead avg) where
    record Writing (run : RunData W) (out : List (Token W)) (k : ℕ) (text : List (Token W))
        : Type 0 where
      line : List (ProbeData W)
      size : length line ≡ k
      each :
          (i : ℕ) (p : Probe) (pd : ProbeData W)
          → get_elem? probes i ≡ some p
          → get_elem? line i ≡ some pd
          → IsEntry run i p pd
      written :
          text ≡ (out ++ line_text line) ++ (if k == length run.data_of then newline ∷ [] else [])

    overhead_off :
        (run : RunData W) (i : ℕ) (raw avg : ProbeData W) (x y : ℕ)
        → get_elem? run.data_of i ≡ some raw
        → get_cell avg.values x y ≡ (do
          sum ← sum_from d.nought i x y (take overhead.nb_measurement overhead.results)
          some (d.div sum (d.of_size overhead.nb_measurement)))
        → (do u ← get_cell raw.values x y; v ← get_cell avg.values x y; some (d.sub u v)) ≡ (do
          u ← cell_of i x y run
          sum ← sum_from d.nought i x y (take overhead.nb_measurement overhead.results)
          some (d.sub u (d.div sum (d.of_size overhead.nb_measurement))))
    overhead_off run i raw avg x y is a =
        elim (Option-cases
          (sum_from d.nought i x y (take overhead.nb_measurement overhead.results))) [
            | inl missing ↦ rw (is, a, missing)
            | inr (sum, found) ↦ rw (is, a, found)
          ]

    entry_lem :
        (run : RunData W) (i : ℕ) (p : Probe) (raw avg : ProbeData W)
        → get_elem? run.data_of i ≡ some raw
        → Fits p raw
        → IsAverage p i overhead avg
        → (pd : ProbeData W) × (subtract raw avg ≡ some pd) × IsEntry run i p pd
    entry_lem run i p raw avg is fits a =
        let (pd, e, same, valid, cells) =
          subtract_lem raw avg
            (record {
              devices = fits.devices ∙ sym a.fits.devices;
              channels = fits.channels ∙ sym a.fits.channels;
            })
            fits.valid a.fits.valid in
        (
          pd,
          e,
          record {
            fits = record {
              devices = same.devices ∙ fits.devices;
              channels = same.channels ∙ fits.channels;
              valid = valid;
            };
            cells = λ x y hx hy.
                cells x y hx hy
                ∙ overhead_off run i raw avg x y is (
                    a.cells x y (omega (arith, same.devices, fits.devices, a.fits.devices))
                      (omega (arith, same.channels, fits.channels, a.fits.channels)));
          },
        )

    text_next :
        (data_of : List (ProbeData W)) (i : ℕ) (out text : List (Token W))
        (line : List (ProbeData W)) (pd : ProbeData W)
        → i < length data_of
        → text ≡ (out ++ line_text line) ++ (if i == length data_of then newline ∷ [] else [])
        → (if i == length data_of - 1
            then (text ++ matrix_text pd.values) ++ (newline ∷ [])
            else text ++ matrix_text pd.values)
          ≡ (out ++ line_text (line ++ (pd ∷ [])))
            ++ (if i + 1 == length data_of then newline ∷ [] else [])
    text_next data_of i out text line pd h w =
        let inside : (i == length data_of) ≡ false = ground arith in
        let text_is : text ≡ out ++ line_text line =
          w ∙ rw inside (append-nil (out ++ line_text line)) in
        let grown : text ++ matrix_text pd.values ≡ out ++ line_text (line ++ (pd ∷ [])) =
          rw (text_is, line_text-snoc line pd)
            (append_assoc out (line_text line) (matrix_text pd.values)) in
        elim (Bool-cases (i == length data_of - 1)) [
          | inl last ↦
              let full : (i + 1 == length data_of) ≡ true = ground arith in
              rw (last, full) (ap (λ t. t ++ (newline ∷ [])) grown)
          | inr more ↦
              let open_line : (i + 1 == length data_of) ≡ false = ground arith in
              rw (more, open_line) (grown ∙ sym (append-nil (out ++ line_text (line ++ (pd ∷ [])))))
        ]

    write_round :
        (run : RunData W) (out : List (Token W)) (fit : RunFits probes run) (i : ℕ)
        (text : List (Token W))
        → i < length run.data_of
        → Writing run out i text
        → (text' : List (Token W)) × ((do
          raw ← get_probe_data run i
          avg ← get_elem? avgs i
          difference ← subtract raw avg
          out' ← print text difference
          some (if i == get_nb_probe_data run - 1 then out' ++ (newline ∷ []) else out'))
            ≡ some text')
          × Writing run out (i + 1) text'
    unfolding get_probe_data get_nb_probe_data
    write_round run out fit i text h w =
        let (p, at) = get_elem?_of_lt probes i (omega (arith, fit.size)) in
        let (raw, is) = get_elem?_of_lt run.data_of i h in
        let (avg, is_avg) = get_elem?_of_lt avgs i (omega (arith, as_many, fit.size)) in
        let (pd, e, entry) =
          entry_lem run i p raw avg is (fit.each i p raw at is) (average i p avg at is_avg) in
        let text' : List (Token W) = text ++ matrix_text pd.values in
        (
          (if i == length run.data_of - 1 then text' ++ (newline ∷ []) else text'),
          rw (lt→ltb _ _ h, is, is_avg, e, print_lem text pd entry.fits.valid),
          record {
            line = w.line ++ (pd ∷ []);
            size = omega (arith, length-append w.line (pd ∷ []), w.size);
            each = λ j q x at' is'. elim (get_elem?-snoc_cases w.line pd j is') [
              | inl (last, same) ↦
                  let here : j ≡ i = omega (arith, w.size) in
                  let q_is : q ≡ p = cc in rw (here, q_is, same) entry
              | inr before ↦ w.each j q x at' before
            ];
            written = text_next run.data_of i out text w.line pd h w.written;
          },
        )

    first_text :
        (n : ℕ) (out : List (Token W))
        → 0 < n
        → out ≡ (out ++ []) ++ (if 0 == n then newline ∷ [] else [])
    first_text n out h =
        let some_value : (0 == n) ≡ false = ground arith in
        rw some_value (sym (append-nil (out ++ []) ∙ append-nil out))

    last_text :
        (n : ℕ) (out text : List (Token W)) (line : List (ProbeData W))
        → text ≡ (out ++ line_text line) ++ (if n == n then newline ∷ [] else [])
        → text ≡ out ++ (line_text line ++ (newline ∷ []))
    last_text n out text line w =
        w ∙ rw (==-refl n) (append_assoc out (line_text line) (newline ∷ []))

    pub write_row_lem :
        (run : RunData W) (out : List (Token W))
        → 0 < length probes
        → RunFits probes run
        → (line : List (ProbeData W)) × (write_row avgs run out
            ≡ some (out ++ (line_text line ++ (newline ∷ []))))
          × IsLine run line
    unfolding write_row get_nb_probe_data
    write_row_lem run out some_probe fit =
        let n = length run.data_of in
        let (text, e, w) =
          for_range_inv (Writing run out) _ n 0 n out (λ i t h w. write_round run out fit i t h w)
            (omega arith)
            (record {
              line = [];
              size = refl;
              each = λ i p pd at is. absurd (cc);
              written = first_text n out (omega (arith, fit.size));
            }) in
        (
          w.line,
          e ∙ ap some (last_text n out text w.line w.written),
          record { size = w.size ∙ fit.size; each = w.each },
        )
