-- ===== src/Options.antt =====
-- src/Options.hpp, src/Options.cpp and src/ExperimentationFactory.cpp: the settings of the user, their
-- defaults, and the kind of experimentation that they ask for. What the code only prints is left
-- out. `none` is an access outside of a string.
pub mod Settings
pub mod Laws
use lpowerprobe.Common.{
  ℕ, ◌+◌, ◌-◌, ◌%◌, ◌^◌, Bool, true, false, not, ◌&&◌, ◌||◌, Option, none, some, List, [], ◌∷◌,
  ◌++◌, length, get_elem?, take, ◌>>=◌, ltb, ◌==◌, if◌then◌else◌,
}
use lpowerprobe.Text.Numbers.{numbers}
use lpowerprobe.Text.{Text, is_empty, slash, find_last_slash, open_up, words}

pub record Options : Type 0 where
  pub program_path : Text
  pub program_env : List Text
  pub nb_process : ℕ  -- unsigned int
  pub pinning : List ℕ
  pub probes_path : List Text
  pub nb_repet : ℕ  -- unsigned int
  pub iteration_memory_size : ℕ  -- size_t
  pub nb_kernel_iteration : ℕ  -- unsigned long int
  pub exec_name : Text
  pub args : List Text
  pub output_file : Text

abbrev pub default_number_process : ℕ
default_number_process = 1

abbrev pub default_number_repet : ℕ
default_number_repet = 5

abbrev pub default_number_kerneliter : ℕ
default_number_kerneliter = 1000

-- "output.csv"
abbrev pub default_output_file : Text
default_output_file = 111 ∷ 117 ∷ 116 ∷ 112 ∷ 117 ∷ 116 ∷ 46 ∷ 99 ∷ 115 ∷ 118 ∷ []

abbrev pub new_options : List Text → Options
new_options env = record {
  program_path = [];
  program_env = env;
  nb_process = 0;
  pinning = [];
  probes_path = [];
  nb_repet = 0;
  iteration_memory_size = 0;
  nb_kernel_iteration = 0;
  exec_name = [];
  args = [];
  output_file = [];
}

-- `substr(0, found)` is the whole path when there is no slash.
unfoldable pub set_program_path : Options → Text → Options
unfolding find_last_slash
set_program_path o path =
    let directory : Text = elim (find_last_slash path) [
      | none ↦ path
      | some found ↦ take found path
    ] in
    record o { program_path = directory ++ (slash ∷ []) }

pub set_nb_process : Options → ℕ → Options
set_nb_process o n = record o { nb_process = n }

pub set_nb_repetition : Options → ℕ → Options
set_nb_repetition o n = record o { nb_repet = n }

pub set_iteration_memory_size : Options → ℕ → Options
set_iteration_memory_size o n = record o { iteration_memory_size = n }

pub set_nb_kernel_iteration : Options → ℕ → Options
set_nb_kernel_iteration o n = record o { nb_kernel_iteration = n }

pub set_output_file : Options → Text → Options
set_output_file o name = record o { output_file = name }

-- False when the reading stops before the end of the stream.
unfoldable pub set_pinning : Options → Text → Options × Bool
set_pinning o text =
    let (cpus, ended) = numbers 32 (length text + 1) (open_up text) in
    (record o { pinning = o.pinning ++ cpus }, ended)

-- Reading words fails only at the end of the stream, so the result is true.
unfoldable pub set_probes_path : Options → Text → Options × Bool
set_probes_path o paths = (record o { probes_path = o.probes_path ++ words (open_up paths) }, true)

-- The first word is the name, the others are arguments; without a word nothing changes.
unfoldable pub set_exec_name : Options → Text → Options
set_exec_name o name = elim (words name) [
  | [] ↦ o
  | token ∷ tokens ↦ record o { exec_name = token; args = o.args ++ tokens }
]

unfoldable pub add_arg : Options → Text → Options
add_arg o arg = record o { args = o.args ++ (arg ∷ []) }

unfoldable pub is_daemon : Options → Bool
is_daemon o = is_empty o.exec_name

-- Byte `length() - back` of the name.
abbrev pub from_end : Text → ℕ → Option ℕ
from_end name back = get_elem? name ((length name + 2 ^ 64 - back) % 2 ^ 64)

-- The name ends in ".s"; the last byte is read only if the one before is a dot.
unfoldable pub names_kernel : Text → Option Bool
names_kernel name = if is_empty name then some false else (do
  before ← from_end name 2
  if before == 46 then (do last ← from_end name 1; some (last == 115)) else some false)

unfoldable pub is_exec_kernel : Options → Option Bool
is_exec_kernel o = names_kernel o.exec_name

unfoldable pub set_default_values : Options → Option Options
unfolding is_exec_kernel
set_default_values o = do
  kernel ← is_exec_kernel o
  some (record o {
    nb_process = if o.nb_process == 0 then default_number_process else o.nb_process;
    nb_repet = if o.nb_repet == 0 then default_number_repet else o.nb_repet;
    nb_kernel_iteration =
        if kernel && (o.iteration_memory_size == 0)
        then default_number_kerneliter
        else o.nb_kernel_iteration;
    output_file = if is_empty o.output_file then default_output_file else o.output_file;
  })

-- The settings that do not apply are reset.
unfoldable pub drop_ignored : Options → Option Options
unfolding is_exec_kernel
drop_ignored o =
    if is_daemon o
    then some (record o {
      iteration_memory_size = 0;
      nb_kernel_iteration = 0;
      nb_process = 1;
      nb_repet = if ltb 1 o.nb_repet then 1 else o.nb_repet;
    })
    else (do
      kernel ← is_exec_kernel o
      some (record o {
        iteration_memory_size = if kernel then o.iteration_memory_size else 0;
        nb_kernel_iteration = if kernel then o.nb_kernel_iteration else 0;
      }))

unfoldable pub has_missing_options : Options → Option (Options × Bool)
unfolding drop_ignored
has_missing_options o = do
  o' ← drop_ignored o
  some (
    o',
    not (o'.nb_process == 1)
        && ((length o'.pinning == 0) || not (length o'.pinning == o'.nb_process)),
  )

-- The end of `main` before the experimentation is created: the options, and whether the program
-- ends with the usage.
unfoldable pub settle : Options → Option (Options × Bool)
unfolding set_default_values has_missing_options
settle o = set_default_values o >>= has_missing_options

pub data Kind : Type 0 where
  daemon_experimentation kernel_experimentation program_experimentation : Kind

unfoldable pub create_experimentation : Options → Option Kind
unfolding is_exec_kernel is_daemon
create_experimentation o = if is_daemon o then some daemon_experimentation else (do
  kernel ← is_exec_kernel o
  some (if kernel then kernel_experimentation else program_experimentation))
