-- ===== src/Main.antt =====
-- src/main.cpp: the options of the command line. `getopt_long` is a library: the options that it finds,
-- in order, and the arguments behind them are given. What the code only prints is left out, `none` is
-- an exit, and a fault is left to Options.
pub mod Laws
use lpowerprobe.Common.{
  ℕ, Bool, true, false, Option, none, some, List, [], ◌∷◌, ◌>>=◌, if◌then◌else◌,
}
use lpowerprobe.Text.{Text}
use lpowerprobe.Text.Numbers.{from_string}
use lpowerprobe.Options.{
  Options, new_options, set_program_path, set_nb_process, set_nb_repetition,
  set_iteration_memory_size, set_nb_kernel_iteration, set_output_file, set_probes_path, set_pinning,
  set_exec_name, add_arg,
}

-- What `getopt_long` returns, with `optarg`.
pub data Found : Type 0 where
  repetition process pinning output memsize kerneliter probes : Text → Found
  help version unknown : Found

-- `usage` ends the program.
abbrev pub usage : Option Options
usage = none

abbrev pub with_number : ℕ → Text → (ℕ → Options) → Option Options
with_number width optarg set = elim (from_string width optarg) [
  | some n ↦ some (set n)
  | none ↦ usage
]

abbrev pub if_accepted : Options × Bool → Option Options
if_accepted (o, true) = some o
if_accepted (o, false) = usage

-- One round of the loop.
unfoldable pub read_option : Found → Options → Option Options
read_option (repetition optarg) o = with_number 32 optarg (set_nb_repetition o)
read_option (process optarg) o = with_number 32 optarg (set_nb_process o)
read_option (pinning optarg) o = if_accepted (set_pinning o optarg)
read_option (output optarg) o = some (set_output_file o optarg)
read_option (memsize optarg) o = with_number 64 optarg (set_iteration_memory_size o)
read_option (kerneliter optarg) o = with_number 64 optarg (set_nb_kernel_iteration o)
read_option (probes optarg) o = if_accepted (set_probes_path o optarg)
read_option help o = usage
read_option version o = none
read_option unknown o = some o

unfoldable pub read_options : List Found → Options → Option Options
unfolding read_option
read_options [] o = some o
read_options (f ∷ fs) o = read_option f o >>= read_options fs

unfoldable pub add_args : List Text → Options → Options
add_args [] o = o
add_args (arg ∷ args) o = add_args args (add_arg o arg)

-- The arguments from `optind` on: the executable and its arguments.
unfoldable pub read_program : List Text → Options → Options
unfolding add_args
read_program [] o = o
read_program (name ∷ args) o = add_args args (set_exec_name o name)

-- `main` up to `setDefaultValues`.
unfoldable pub read_command_line : Text → List Text → List Found → List Text → Option Options
unfolding read_options read_program
read_command_line argv0 envp found program = do
  o ← read_options found (set_program_path (new_options envp) argv0)
  some (read_program program o)
