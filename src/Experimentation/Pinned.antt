-- ===== src/Experimentation/Pinned.antt =====
-- The options that main goes on with pin every thread.
use mathlib.Core.Path.{subst}
use lpowerprobe.Common.{
  some_injective, ℕ, ◌<◌, ◌^◌, ◌≡◌, ◌≢◌, ◌∙◌, Bool, false, Option, some, length, sym,
}
use lpowerprobe.Options.{Options, settle}
use lpowerprobe.Options.Settings.{PinsAll}
use lpowerprobe.Options.Laws.{settle_lem}
use lpowerprobe.Experimentation.Runs.{pinned_cpu}
use lpowerprobe.Experimentation.Measured.{cpu_found}

pins_of : (p q : Options × Bool) → p ≡ q → PinsAll p.0 p.1 → PinsAll q.0 q.1
pins_of p q same pins = subst (λ (p : Options × Bool). PinsAll p.0 p.1) same pins

-- When `main` settles the options and does not end with the usage, for an executable whose name is not
-- a single byte and is shorter than 2^64 bytes, every thread of the processes asked for finds its CPU
-- inside of the pinning, or there is no pinning.
pub pinned_cpu-settle :
    (o o' : Options) (k : ℕ)
    → length o.exec_name ≢ 1
    → length o.exec_name < 2 ^ 64
    → settle o ≡ some (o', false)
    → k < o'.nb_process
    → (cpu : Option ℕ) × (pinned_cpu o'.pinning k ≡ some cpu)
pinned_cpu-settle o o' k name short settled lt =
    let (o1, missing, kind, ran, made, good, pins) = settle_lem o name short in
    cpu_found o' k (pins_of (o1, missing) (o', false) (some_injective (sym ran ∙ settled)) pins) lt
