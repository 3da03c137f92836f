-- ===== src/PfmCounters/Open.antt =====
-- init of probes/pfmcounters/pfmcounters.c: its loops over the counters of every core.
use lpowerprobe.Common.{ℕ, ◌+◌, ◌*◌, ◌<◌, ◌≡◌, true, some, List, length, get_elem?}
use lpowerprobe.Text.{Text}
use lpowerprobe.PfmCounters.{Context, Pfm}
use lpowerprobe.PfmCounters.Cells.{Allocated}

-- libpfm knows every counter by its name, and each can be opened on each core and enabled: `fd` gives
-- the descriptors.
pub record CanOpen {W : Type 0} (pfm : Pfm) (ctx : Context W) (fd : ℕ → ℕ) : Type 0 where
  pub initializes : pfm.initializes ≡ true
  pub core_ids : (core : ℕ) → core < ctx.nb_cores → get_elem? ctx.cores core ≡ some core
  pub names :
      (cnt : ℕ)
      → cnt < ctx.nb_counters
      → (name : Text) × (get_elem? ctx.counter_names cnt ≡ some (some name))
        × (pfm.encodes name ≡ true)
        × ((core : ℕ)
            → core < ctx.nb_cores
            → pfm.perf_event_open name core ≡ some (fd (core * ctx.nb_counters + cnt)))
  pub enables : (k : ℕ) → k < ctx.nb_cores * ctx.nb_counters → pfm.enables (fd k) ≡ true

module _ {W : Type 0} (pfm : Pfm) (ctx : Context W) (fd : ℕ → ℕ) (a : Allocated ctx)
    (can : CanOpen pfm ctx fd) where
  -- The descriptors, the first `k` of them open.
  abbrev Opened : ℕ → List ℕ → Type 0
  Opened k fds =
      (length fds ≡ ctx.nb_cores * ctx.nb_counters)
      × ((j : ℕ) → j < k → get_elem? fds j ≡ some (fd j))
