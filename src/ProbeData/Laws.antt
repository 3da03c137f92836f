-- ===== src/ProbeData/Laws.antt =====
-- What the operations of `ProbeData` do to each value, and when they stop.
use mathlib.Core.Path.{subst}
use lpowerprobe.Common.{
  ℕ, ◌+◌, ◌*◌, ◌≤◌, ◌<◌, ◌^◌, ◌%◌, ◌≡◌, refl, sym, ◌∙◌, Option, none, some, List, length, get_elem?,
  All, All-replicate, length-replicate, get_elem?_of_lt, get_elem?-replicate, ◌>>=◌, ltb,
  if◌then◌else◌, arith,
}
use lpowerprobe.Double.{Double}
use lpowerprobe.ProbeData.{
  ProbeData, IsValid, get_cell, get_value, set_data, new_probe_data, add_assign, div_assign,
  subtract, raw_cell, added_cell, divided_cell, difference_cell,
}
use lpowerprobe.ProbeData.Cells.{each_cell_lem, cell_of_shape}

-- Two `ProbeData` for the same number of devices and of channels.
pub record SameCounts {W : Type 0} (pd1 pd2 : ProbeData W) : Type 0 where
  pub devices : pd1.nb_devices ≡ pd2.nb_devices
  pub channels : pd1.nb_channels ≡ pd2.nb_channels

-- The cells that `pd` has are those of `g`.
abbrev pub HasCells : {W : Type 0} → ProbeData W → (ℕ → ℕ → Option W) → Type 0
HasCells pd g = (i j : ℕ) → i < pd.nb_devices → j < pd.nb_channels → get_cell pd.values i j ≡ g i j

index_lt : (i j nd nc : ℕ) → i < nd → j < nc → i * nc + j < nd * nc
index_lt i j nd nc p q = grind arith

module _ {W : Type 0} where
  -- On a valid `ProbeData`, and a raw array of at least devices * channels values with at most 2^32
  -- of them used, `setData` succeeds, keeps the counts and the shape, and the cell of a device and a
  -- channel becomes the raw value at device * channels + channel.
  pub set_data_lem :
      (pd : ProbeData W) (raw : List W)
      → IsValid pd
      → pd.nb_devices * pd.nb_channels ≤ length raw
      → pd.nb_devices * pd.nb_channels ≤ 2 ^ 32
      → (pd' : ProbeData W) × (set_data pd raw ≡ some pd')
        × SameCounts pd' pd
        × IsValid pd'
        × HasCells pd' (λ i j. get_elem? raw (i * pd.nb_channels + j))
  unfolding set_data
  set_data_lem pd raw v enough small =
      let (m, e, s, cells) =
        each_cell_lem (raw_cell pd raw) (λ i j. get_elem? raw (i * pd.nb_channels + j)) pd.values
          (λ i j old hi hj o.
            let k : i * pd.nb_channels + j < pd.nb_devices * pd.nb_channels =
              index_lt i j pd.nb_devices pd.nb_channels hi hj in
            let (x, at) = get_elem?_of_lt raw (i * pd.nb_channels + j) (omega arith) in
            let wrap : (i * pd.nb_channels + j) % 2 ^ 32 ≡ i * pd.nb_channels + j = omega arith in
            (x, rw wrap at, at))
          v in
      (record pd { values = m }, rw e, record { devices = refl; channels = refl }, s, cells)

  -- `getValue` checks the channel against the number of devices: a channel from there on is
  -- refused, whether the probe has it or not, and only below does it return the cell.
  pub get_value_lem :
      (pd : ProbeData W) (device channel : ℕ)
      → IsValid pd
      → device < pd.nb_devices
      → get_value pd device channel
        ≡ (if ltb channel pd.nb_devices then get_cell pd.values device channel else none)
  unfolding get_value
  get_value_lem pd device channel v h = ground arith

module _ {W : Type 0} ⦃d : Double W⦄ where
  -- A new `ProbeData` has the shape that was asked for, and 0 in each cell.
  pub new_probe_data-IsValid : (nd nc : ℕ) → IsValid {W = W} (new_probe_data nd nc)
  unfolding new_probe_data
  new_probe_data-IsValid nd nc = record {
    rows = length-replicate nd _;
    columns = All-replicate _ nd _ (length-replicate nc _);
  }

  pub new_probe_data-HasCells :
      (nd nc : ℕ) → HasCells {W = W} (new_probe_data nd nc) (λ i j. some d.nought)
  unfolding new_probe_data get_cell
  new_probe_data-HasCells nd nc i j hi hj =
      rw (get_elem?-replicate nd i _ hi) (get_elem?-replicate nc j d.nought hj)

  -- On two valid `ProbeData` with the same counts `+=` succeeds, keeps counts and shape, and adds
  -- cell by cell.
  pub add_assign_lem :
      (this pd : ProbeData W)
      → SameCounts this pd
      → IsValid this
      → IsValid pd
      → (sum : ProbeData W) × (add_assign this pd ≡ some sum)
        × SameCounts sum this
        × IsValid sum
        × HasCells sum
            (λ i j. do x ← get_cell this.values i j; y ← get_cell pd.values i j; some (d.add x y))
  unfolding add_assign
  add_assign_lem this pd c v w =
      let (m, e, s, cells) =
        each_cell_lem (added_cell pd)
          (λ i j. do x ← get_cell this.values i j; y ← get_cell pd.values i j; some (d.add x y))
          this.values
          (λ i j old hi hj o.
            let (y, at) = cell_of_shape w i j (omega arith) (omega arith) in
            (d.add old y, rw at, rw (o, at)))
          v in
      (
        record this { values = m },
        ground (arith, e),
        record { devices = refl; channels = refl },
        s,
        cells,
      )

  -- On a valid `ProbeData` `/=` succeeds, keeps counts and shape, and divides each cell.
  pub div_assign_lem :
      (this : ProbeData W) (quot : ℕ)
      → IsValid this
      → (avg : ProbeData W) × (div_assign this quot ≡ some avg)
        × SameCounts avg this
        × IsValid avg
        × HasCells avg (λ i j. do x ← get_cell this.values i j; some (d.div x (d.of_size quot)))
  unfolding div_assign
  div_assign_lem this quot v =
      let (m, e, s, cells) =
        each_cell_lem (divided_cell quot)
          (λ i j. do x ← get_cell this.values i j; some (d.div x (d.of_size quot))) this.values
          (λ i j old hi hj o. (d.div old (d.of_size quot), refl, rw o)) v in
      (record this { values = m }, rw e, record { devices = refl; channels = refl }, s, cells)

  -- On two valid `ProbeData` with the same counts `-` succeeds, and its cells are the differences.
  pub subtract_lem :
      (pd1 pd2 : ProbeData W)
      → SameCounts pd1 pd2
      → IsValid pd1
      → IsValid pd2
      → (diff : ProbeData W) × (subtract pd1 pd2 ≡ some diff)
        × SameCounts diff pd1
        × IsValid diff
        × HasCells diff
            (λ i j. do x ← get_cell pd1.values i j; y ← get_cell pd2.values i j; some (d.sub x y))
  unfolding subtract
  subtract_lem pd1 pd2 c v w =
      let (m, e, s, cells) =
        each_cell_lem (difference_cell pd1 pd2)
          (λ i j. do x ← get_cell pd1.values i j; y ← get_cell pd2.values i j; some (d.sub x y))
          (new_probe_data {W = W} pd1.nb_devices pd2.nb_channels).values
          (λ i j old hi hj o.
            let (x, from) = cell_of_shape v i j hi hj in
            let (y, at) = cell_of_shape w i j (omega arith) (omega arith) in
            (d.sub x y, rw (from, at), rw (from, at)))
          (record {
            rows = length-replicate pd1.nb_devices _;
            columns =
                All-replicate _ pd1.nb_devices _
                  (length-replicate pd2.nb_channels d.nought ∙ sym c.channels);
          }) in
      (
        record { nb_devices = pd1.nb_devices; nb_channels = pd2.nb_channels; values = m },
        ground (arith, e),
        record { devices = refl; channels = sym c.channels },
        record {
          rows = s.rows;
          columns = subst (λ k. All (λ row. length row ≡ k) m) c.channels s.columns;
        },
        λ i j hi hj. cells i j hi (omega arith),
      )

  -- `+=` and `-` refuse operands with different counts: an assertion fails.
  pub mismatch_refused :
      (pd1 pd2 : ProbeData W)
      → ¬ (SameCounts pd1 pd2)
      → (add_assign pd1 pd2 ≡ none) × (subtract pd1 pd2 ≡ none)
  unfolding add_assign subtract
  mismatch_refused pd1 pd2 h = ground (
    arith,
    λ (p : pd1.nb_devices ≡ pd2.nb_devices) (q : pd1.nb_channels ≡ pd2.nb_channels).
        h (record { devices = p; channels = q }),
  )
