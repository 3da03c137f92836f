-- ===== src/Experimentation/Threads.antt =====
-- src/ProgramExperimentation.cpp and src/KernelExperimentation.cpp: a thread is created for each process and
-- runs the program or the kernel; when all have ended, the results are saved. Which calls of
-- pthread_attr_init and pthread_create succeed is given.
use Prim.Native.String.{String}
use lpowerprobe.Common.{
  ℕ, zero, suc, ◌+◌, Bool, ◌&&◌, Option, none, some, List, [], ◌∷◌, if◌then◌else◌,
}
use lpowerprobe.Double.{Double}
use lpowerprobe.ProbeData.{Token}
use lpowerprobe.Probe.{Outcome, done, runtime_error, ◌>>=◌}
use lpowerprobe.Writer.{Destination}
use lpowerprobe.Options.{Options}
use lpowerprobe.KernelCompiler.{load_function}
use lpowerprobe.Experimentation.{Experimentation, or_stopped, save_results}
use lpowerprobe.Experimentation.Runs.{pin_threads, run_threads}

-- The loop that creates the threads, from number `process` on.
unfoldable pub create_threads : (ℕ → Bool) → (ℕ → Bool) → ℕ → ℕ → Outcome (List ℕ)
create_threads attr_init create zero process = done []
create_threads attr_init create (suc count) process =
    let rest = create_threads attr_init create count (process + 1) in
    if attr_init process && create process
    then rest >>= (λ threads. done (process ∷ threads))
    else runtime_error

module _ {W : Type 0} ⦃d : Double W⦄ where
  -- `ProgramExperimentation::start`.
  unfoldable pub start_program_experimentation :
      Bool
      → Experimentation W
      → Options
      → (ℕ → Bool)
      → (ℕ → Bool)
      → (ℕ → Option (ℕ → List W))
      → (ℕ → Option (ℕ → List W))
      → Outcome (Destination × List (Token W))
  unfolding create_threads pin_threads run_threads save_results
  start_program_experimentation is_open e o attr_init create idle readings = do
    threads ← create_threads attr_init create o.nb_process 0
    cpus ← or_stopped (pin_threads o.pinning threads)
    (overhead, results) ← or_stopped (run_threads o.nb_repet threads e idle readings)
    or_stopped (save_results is_open e.probes overhead results)

  -- `KernelExperimentation::start`: without an entry point nothing is run or saved. That of the dummy
  -- kernel is looked up in the kernel. Then the same loops follow.
  unfoldable pub start_kernel_experimentation :
      (String → String → Option ℕ)
      → String
      → Bool
      → Experimentation W
      → Options
      → (ℕ → Bool)
      → (ℕ → Bool)
      → (ℕ → Option (ℕ → List W))
      → (ℕ → Option (ℕ → List W))
      → Outcome (Option (Destination × List (Token W)))
  unfolding load_function start_program_experimentation
  start_kernel_experimentation dlsym exec_file is_open e o attr_init create idle readings =
      elim (load_function dlsym exec_file "entryPoint") [
        | none ↦ done none
        | some kernel_fct ↦ elim (load_function dlsym exec_file "entryPoint") [
          | none ↦ done none
          | some dummy_kernel_fct ↦
              start_program_experimentation is_open e o attr_init create idle readings
              >>= (λ saved. done (some saved))
        ]
      ]
