-- ===== src/Experimentation/Runs.antt =====
-- What the threads of src/ProgramExperimentation.cpp and src/KernelExperimentation.cpp do in `runStarter`: each
-- pins itself to its CPU, and the first one measures in `start` of src/ProgramRunner.cpp or
-- src/KernelRunner.cpp.
use lpowerprobe.Common.{ℕ, zero, suc, ◌+◌, Option, none, some, List, [], ◌∷◌, get_elem?, ◌>>=◌}
use lpowerprobe.Double.{Double}
use lpowerprobe.Results.{Results}
use lpowerprobe.Collector.{Collector}
use lpowerprobe.DaemonRunner.{measure}
use lpowerprobe.Experimentation.{Experimentation}

-- The CPU that a thread pins itself to, if there is a pinning; `none` where it reads outside of the
-- vector.
unfoldable pub pinned_cpu : List ℕ → ℕ → Option (Option ℕ)
pinned_cpu [] thread_number = some none
pinned_cpu (cpu ∷ cpus) thread_number = do c ← get_elem? (cpu ∷ cpus) thread_number; some (some c)

unfoldable pub pin_threads : List ℕ → List ℕ → Option (List (Option ℕ))
unfolding pinned_cpu
pin_threads pinning [] = some []
pin_threads pinning (thread ∷ threads) = do
  cpu ← pinned_cpu pinning thread
  cpus ← pin_threads pinning threads
  some (cpu ∷ cpus)

module _ {W : Type 0} ⦃d : Double W⦄ where
  -- A loop of `start` from repetition `meta_repet` on, `count` of them. `readings k` is what the probes
  -- return in repetition `k`, or `none` if that evaluation does not return: a fork fails or a child of
  -- the program does not end normally, which ends the program by `exit`, or the threads wait for ever.
  -- Nothing is saved then, as behind a fault.
  unfoldable pub repeat_measure :
      ℕ → ℕ → (ℕ → Option (ℕ → List W)) → Collector → Results W → Option (Collector × Results W)
  unfolding measure
  repeat_measure zero meta_repet readings c results = some (c, results)
  repeat_measure (suc count) meta_repet readings c results = do
    raws ← readings meta_repet
    (c', results') ← measure c results raws
    repeat_measure count (meta_repet + 1) readings c' results'

  -- `start`: the overhead is measured as often as the program or the kernel. Without a thread
  -- nothing is.
  unfoldable pub run_threads :
      ℕ
      → List ℕ
      → Experimentation W
      → (ℕ → Option (ℕ → List W))
      → (ℕ → Option (ℕ → List W))
      → Option (Results W × Results W)
  unfolding repeat_measure
  run_threads nb_meta_repet [] e idle readings = some (e.overhead_results, e.results)
  run_threads nb_meta_repet (thread ∷ threads) e idle readings = do
    (c', overhead) ← repeat_measure nb_meta_repet 0 idle e.probe_data_collector e.overhead_results
    (c'', results) ← repeat_measure nb_meta_repet 0 readings c' e.results
    some (overhead, results)
