-- ===== src/ProbeData.antt =====
-- src/ProbeData.hpp and src/ProbeData.cpp: the values of one probe, device by device and channel by
-- channel. `none` is a failed assertion or an access outside of a vector, which has no defined
-- result.
pub mod Cells
pub mod Laws
pub mod Print
use Prim.Native.String.{String}
use lpowerprobe.Common.{
  ℕ, ◌+◌, ◌*◌, ◌%◌, ◌^◌, ◌≡◌, Option, none, some, List, [], ◌∷◌, ◌++◌, length, get_elem?, set,
  replicate, All, ◌>>=◌, ◌>>◌, assert, ltb, ◌==◌, for_range,
}
use lpowerprobe.Double.{Double}

pub record ProbeData (W : Type 0) : Type 0 where
  pub nb_devices : ℕ  -- unsigned int
  pub nb_channels : ℕ  -- unsigned int
  pub values : List (List W)

-- What is written to a stream.
pub data Token (W : Type 0) : Type 0 where
  value : W → Token W
  label : String → Token W
  semicolon : Token W
  newline : Token W

module _ {W : Type 0} where
  -- `m[device][channel]`, read and written.
  unfoldable pub get_cell : List (List W) → ℕ → ℕ → Option W
  get_cell m device channel = do row ← get_elem? m device; get_elem? row channel

  pub set_cell : List (List W) → ℕ → ℕ → W → Option (List (List W))
  set_cell m device channel v = do
    row ← get_elem? m device
    old ← get_elem? row channel
    some (set m device (set row channel v))

  -- The two nested loops of `setData`, `+=`, `/=` and `-`, which assign each cell once.
  pub each_cell : ℕ → ℕ → (ℕ → ℕ → W → Option W) → List (List W) → Option (List (List W))
  each_cell nb_devices nb_channels new = for_range nb_devices 0 λ device.
      for_range nb_channels 0 λ channel m. do
        old ← get_cell m device channel
        v ← new device channel old
        set_cell m device channel v

  abbrev with_values : ProbeData W → List (List W) → ProbeData W
  with_values pd m = record pd { values = m }

  -- The second assertion compares the channel with the number of devices, as the code does.
  pub get_value : ProbeData W → ℕ → ℕ → Option W
  get_value pd device channel = do
    assert (ltb device pd.nb_devices)
    assert (ltb channel pd.nb_devices)
    get_cell pd.values device channel

  -- `raw` is the memory that `pData` points to; the index is computed in `unsigned int`.
  abbrev raw_cell : ProbeData W → List W → ℕ → ℕ → W → Option W
  raw_cell pd raw device channel old = get_elem? raw ((device * pd.nb_channels + channel) % 2 ^ 32)

  pub set_data : ProbeData W → List W → Option (ProbeData W)
  set_data pd raw = do
    m ← each_cell pd.nb_devices pd.nb_channels (raw_cell pd raw) pd.values
    some (with_values pd m)

  pub print : List (Token W) → ProbeData W → Option (List (Token W))
  print stream pd =
      for_range pd.nb_devices 0
        (λ device. for_range pd.nb_channels 0 λ channel out. do
          v ← get_cell pd.values device channel
          some (out ++ (value v ∷ semicolon ∷ [])))
        stream

module _ {W : Type 0} ⦃d : Double W⦄ where
  unfoldable pub new_probe_data : ℕ → ℕ → ProbeData W
  new_probe_data nb_devices nb_channels = record {
    nb_devices = nb_devices;
    nb_channels = nb_channels;
    values = replicate nb_devices (replicate nb_channels d.nought);
  }

  abbrev added_cell : ProbeData W → ℕ → ℕ → W → Option W
  added_cell pd device channel old = do x ← get_cell pd.values device channel; some (d.add old x)

  pub add_assign : ProbeData W → ProbeData W → Option (ProbeData W)
  add_assign this pd = do
    assert (this.nb_devices == pd.nb_devices)
    assert (this.nb_channels == pd.nb_channels)
    m ← each_cell pd.nb_devices pd.nb_channels (added_cell pd) this.values
    some (with_values this m)

  abbrev divided_cell : ℕ → ℕ → ℕ → W → Option W
  divided_cell quot device channel old = some (d.div old (d.of_size quot))

  pub div_assign : ProbeData W → ℕ → Option (ProbeData W)
  div_assign this quot = do
    m ← each_cell this.nb_devices this.nb_channels (divided_cell quot) this.values
    some (with_values this m)

  abbrev difference_cell : ProbeData W → ProbeData W → ℕ → ℕ → W → Option W
  difference_cell pd1 pd2 device channel old = do
    x ← get_cell pd1.values device channel
    y ← get_cell pd2.values device channel
    some (d.sub x y)

  pub subtract : ProbeData W → ProbeData W → Option (ProbeData W)
  unfolding new_probe_data
  subtract pd1 pd2 = do
    assert (pd1.nb_devices == pd2.nb_devices)
    assert (pd1.nb_channels == pd2.nb_channels)
    let difference = new_probe_data pd1.nb_devices pd2.nb_channels
    m ← each_cell pd1.nb_devices pd1.nb_channels (difference_cell pd1 pd2) difference.values
    some (with_values difference m)

-- Each vector has the length that the counts say.
pub record IsShaped {W : Type 0} (nb_devices nb_channels : ℕ) (m : List (List W)) : Type 0 where
  pub rows : length m ≡ nb_devices
  pub columns : All (λ row. length row ≡ nb_channels) m

abbrev pub IsValid : {W : Type 0} → ProbeData W → Type 0
IsValid pd = IsShaped pd.nb_devices pd.nb_channels pd.values
