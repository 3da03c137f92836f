-- ===== src/Options/Laws.antt =====
-- What the options hold when the experimentation is created.
use lpowerprobe.Common.{
  map, ◌+◌, ℕ, ◌^◌, ◌<◌, ◌≡◌, ◌≢◌, inl, inr, ap, ◌∙◌, Bool, true, false, ◌&&◌, some, List, ◌++◌,
  All, length, ◌==◌, ltb, if◌then◌else◌, arith, Bool-cases,
}
use lpowerprobe.Text.{Text, is_empty}
use lpowerprobe.Text.Words.{IsWord, joined, words-joined}
use lpowerprobe.Text.Numbers.Laws.{IsNumeral, decimal, numbers-joined, length-joined}
use lpowerprobe.Options.{
  set_pinning, Options, set_probes_path, default_output_file, names_kernel, is_exec_kernel,
  is_daemon, set_default_values, drop_ignored, has_missing_options, settle, create_experimentation,
  Kind, daemon_experimentation, kernel_experimentation, program_experimentation,
}
use lpowerprobe.Options.Settings.{
  Settled, PinsAll, settled, lacks_pins, names_kernel_total, lacks_pins_lem, settled-Settled,
}

one_repetition :
    (n : ℕ) → (if ltb 1 (if n == 0 then 5 else n) then 1 else (if n == 0 then 5 else n)) ≡ 1
one_repetition n = ground arith

Settles : Options → Kind → Type 0
Settles o kind =
    (settle o ≡ some (settled kind o, lacks_pins (settled kind o)))
    × (create_experimentation (settled kind o) ≡ some kind)

settle_daemon :
    (o : Options)
    → is_empty o.exec_name ≡ true
    → names_kernel o.exec_name ≡ some false
    → Settles o daemon_experimentation
unfolding Settles settle set_default_values has_missing_options drop_ignored is_exec_kernel
    is_daemon create_experimentation
settle_daemon o empty named = (rw (named, empty, one_repetition o.nb_repet), rw empty)

-- The settings of an executable that do not apply.
drop_ignored_lem :
    (o : Options) (kernel : Bool)
    → is_empty o.exec_name ≡ false
    → names_kernel o.exec_name ≡ some kernel
    → drop_ignored o
      ≡ some (record o {
        iteration_memory_size = if kernel then o.iteration_memory_size else 0;
        nb_kernel_iteration = if kernel then o.nb_kernel_iteration else 0;
      })
unfolding drop_ignored is_daemon is_exec_kernel
drop_ignored_lem o kernel full named = rw full (rw named)

made_lem :
    (o : Options) (kernel : Bool)
    → is_empty o.exec_name ≡ false
    → names_kernel o.exec_name ≡ some kernel
    → create_experimentation o
      ≡ some (if kernel then kernel_experimentation else program_experimentation)
unfolding create_experimentation is_daemon is_exec_kernel
made_lem o kernel full named = rw full (rw named)

-- The options after the default values.
abbrev defaulted : Bool → Options → Options
defaulted kernel o = record o {
  nb_process = if o.nb_process == 0 then 1 else o.nb_process;
  nb_repet = if o.nb_repet == 0 then 5 else o.nb_repet;
  nb_kernel_iteration =
      if kernel && (o.iteration_memory_size == 0) then 1000 else o.nb_kernel_iteration;
  output_file = if is_empty o.output_file then default_output_file else o.output_file;
}

settle_kernel :
    (o : Options)
    → is_empty o.exec_name ≡ false
    → names_kernel o.exec_name ≡ some true
    → Settles o kernel_experimentation
unfolding Settles settle set_default_values has_missing_options is_exec_kernel
settle_kernel o full named = (
  rw (named, drop_ignored_lem (defaulted true o) true full named),
  made_lem (settled kernel_experimentation o) true full named,
)

settle_program :
    (o : Options)
    → is_empty o.exec_name ≡ false
    → names_kernel o.exec_name ≡ some false
    → Settles o program_experimentation
unfolding Settles settle set_default_values has_missing_options is_exec_kernel
settle_program o full named = (
  rw (named, drop_ignored_lem (defaulted false o) false full named),
  made_lem (settled program_experimentation o) false full named,
)

names_kernel_empty : (name : Text) → is_empty name ≡ true → names_kernel name ≡ some false
unfolding names_kernel
names_kernel_empty name empty = rw empty

settle_some :
    (o : Options)
    → length o.exec_name ≢ 1
    → length o.exec_name < 2 ^ 64
    → (kind : Kind) × Settles o kind
settle_some o h small = elim (Bool-cases (is_empty o.exec_name)) [
  | inl empty ↦
      (daemon_experimentation, settle_daemon o empty (names_kernel_empty o.exec_name empty))
  | inr full ↦
      let (kernel, named) = names_kernel_total o.exec_name h small in
      elim (Bool-cases kernel) [
        | inl yes_kernel ↦
            (kernel_experimentation, settle_kernel o full (named ∙ ap some yes_kernel))
        | inr no_kernel ↦
            (program_experimentation, settle_program o full (named ∙ ap some no_kernel))
      ]
]

-- For an executable whose name is not a single byte, and is shorter than 2^64 bytes, `main` settles
-- the options without a fault, for the kind of experimentation that the name asks for. A daemon gets
-- one process and one repetition. A kernel or a program gets the processes and repetitions of the
-- user, or 1 and 5 if these are 0. A kernel gets the memory size of the user, and 1000 iterations if
-- that is 0 (whatever number the user gave), else the user's number. The others get neither. The
-- processes and the repetitions are not 0, the output file has a name, and the executable, the
-- pinning and the arguments are the user's. If `main` ends with the usage, there is not one process
-- and the CPUs pinned are not as many as the processes; if not, one of the two holds.
pub settle_lem :
    (o : Options)
    → length o.exec_name ≢ 1
    → length o.exec_name < 2 ^ 64
    → (o' : Options) × (missing : Bool) × (kind : Kind) × (settle o ≡ some (o', missing))
      × (create_experimentation o' ≡ some kind)
      × Settled kind o o'
      × PinsAll o' missing
unfolding Settles
settle_lem o h small =
    let (kind, settles) = settle_some o h small in
    let good = settled-Settled o kind in
    (
      settled kind o,
      lacks_pins (settled kind o),
      kind,
      settles.0,
      settles.1,
      good,
      lacks_pins_lem (settled kind o) good.processes,
    )

-- Paths without spaces and semicolons, each with a semicolon behind it, are added to the probes of the
-- options in their order, and nothing is reported.
pub set_probes_path_lem :
    (o : Options) (paths : List Text)
    → All IsWord paths
    → set_probes_path o (joined paths) ≡ (record o { probes_path = o.probes_path ++ paths }, true)
unfolding set_probes_path
set_probes_path_lem o paths solid = rw (words-joined paths solid)

-- Decimal numbers below 2^32, each with a semicolon behind it, are added to the pinning in their
-- order, and the argument is accepted.
pub set_pinning_lem :
    (o : Options) (cpus : List Text)
    → All (IsNumeral 32) cpus
    → set_pinning o (joined cpus) ≡ (record o { pinning = o.pinning ++ map (decimal 0) cpus }, true)
unfolding set_pinning
set_pinning_lem o cpus good = rw (
    numbers-joined 32 (length (joined cpus) + 1) cpus good
      (omega (arith, length-joined 32 cpus good)))
