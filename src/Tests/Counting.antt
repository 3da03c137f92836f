-- ===== src/Tests/Counting.antt =====
-- probes/pfmcounters/pfmcounters.c with two counters on two cores.
use lpowerprobe.Common.{
  ℕ, ◌+◌, ◌-◌, ◌*◌, ◌^◌, ◌<◌, ◌≡◌, refl, true, false, some, List, [], ◌∷◌, get_elem?, arith, leb,
  if◌then◌else◌,
}
use lpowerprobe.Text.{Text}
use lpowerprobe.PfmCounters.{Tally, Context, Pfm, counters_key, nb_cores_key, Reads, start, stop}
use lpowerprobe.PfmCounters.Cells.{Allocated, stop-start}

instance abbrev whole_tally : Tally ℕ
whole_tally = record {
  nought = 0;
  of_u64 = λ n. n;
  less_eq = leb;
  add = λ a b. a + b;
  sub = λ a b. a - b;
  scaled = λ raw enabled running. raw;
}

-- `A;B`, and 2.
abbrev two_names : Text
two_names = 65 ∷ 59 ∷ 66 ∷ []

abbrev settings : List (Text × Text)
settings = (counters_key, two_names) ∷ (nb_cores_key, 50 ∷ []) ∷ []

abbrev four_cells : Context ℕ
four_cells = record {
  is_open = false;
  pfm_fds = 0 ∷ 0 ∷ 0 ∷ 0 ∷ [];
  cores = 0 ∷ 1 ∷ [];
  nb_cores = 2;
  counter_names = some (65 ∷ []) ∷ some (66 ∷ []) ∷ [];
  nb_counters = 2;
  values = 0 ∷ 0 ∷ 0 ∷ 0 ∷ [];
}

four_cells-Allocated : Allocated four_cells
four_cells-Allocated = record { small = omega arith; fds = refl; cells = refl }

abbrev is_A : Text → ℕ
is_A [] = 1
is_A (c ∷ text) = c - 65

abbrev a_pfm : Pfm
a_pfm = record {
  initializes = true;
  encodes = λ name. true;
  perf_event_open = λ name core. some (core * 2 + is_A name + 3);
  enables = λ fd. true;
}

-- The descriptors show their number, and later ten more.
abbrev shown : ℕ → Reads
shown more fd = (fd + more, 1, 1)

stop-start_example :
    (started stopped : Context ℕ) × (start (shown 0) (some four_cells) ≡ some (some started))
    × (stop (shown 10) (some started) ≡ some stopped)
    × ((core cnt fd : ℕ)
        → core < 2
        → cnt < 2
        → get_elem? four_cells.pfm_fds (core * 2 + cnt) ≡ some fd
        → get_elem? stopped.values (core * 2 + cnt)
          ≡ some (
              if leb (fd + 0) (fd + 10)
              then fd + 10 - (fd + 0)
              else 2 ^ 64 - 1 - (fd + 0) + (fd + 10)))
stop-start_example = stop-start (shown 0) (shown 10) four_cells four_cells-Allocated (omega arith)
