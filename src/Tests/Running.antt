-- ===== src/Tests/Running.antt =====
-- src/Options.cpp and src/KernelRunner.cpp at a kernel that two threads run.
use lpowerprobe.Common.{
  ℕ, ◌≡◌, refl, Bool, Option, none, some, List, [], ◌∷◌, ◌++◌, ◌⊎◌, get_elem?, arith, All,
}
use lpowerprobe.Text.{Text}
use lpowerprobe.Text.Numbers.Laws.{IsNumeral}
use lpowerprobe.Options.{Options, new_options, settle, create_experimentation, Kind}
use lpowerprobe.Options.Settings.{Settled, PinsAll}
use lpowerprobe.Options.Laws.{settle_lem}
use lpowerprobe.KernelRunner.{
  State, Thread, Step, at_process_lock, in_kernel, at_end_lock, finished, killed, gathering,
  initial, run, Reachable, evaluations, rest, thread_step, thread_move, father_step, father_move,
}
use lpowerprobe.KernelRunner.Progress.{kernel_goes_on}
use lpowerprobe.KernelRunner.Safety.{
  HasPosted, kernel_in_step, Stranded, Stranded-forever, run-Steps,
}

-- "a.s", twice.
abbrev kernel_options : Options
kernel_options = record (new_options []) { exec_name = 97 ∷ 46 ∷ 115 ∷ []; nb_process = 2 }

settle_lem_example :
    (o' : Options) × (missing : Bool) × (kind : Kind) × (settle kernel_options ≡ some (o', missing))
    × (create_experimentation o' ≡ some kind)
    × Settled kind kernel_options o'
    × PinsAll o' missing
settle_lem_example = settle_lem kernel_options (λ e. absurd (omega (arith, e))) (omega arith)

-- Both threads post, the process releases them, and thread 0 enters the kernel.
abbrev entering : List (Option ℕ)
entering = some 0 ∷ some 1 ∷ none ∷ none ∷ none ∷ none ∷ none ∷ none ∷ some 0 ∷ []

-- From there to the head of the loops.
abbrev leaving : List (Option ℕ)
leaving = some 1 ∷ some 0 ∷ some 1 ∷ none ∷ none ∷ none ∷ []

abbrev inside : State
inside = record {
  threads =
      record { phase = in_kernel; evaluated = 0 }
      ∷ record { phase = at_process_lock; evaluated = 0 }
      ∷ [];
  father = gathering 0;
  father_lock = 0;
  process_lock = 1;
  process_end_lock = 0;
}

abbrev stuck : State
stuck = record {
  threads =
      record { phase = finished; evaluated = 2 }
      ∷ record { phase = at_end_lock; evaluated = 1 }
      ∷ [];
  father = killed;
  father_lock = 0;
  process_lock = 0;
  process_end_lock = 0;
}

abbrev to_stuck : List (Option ℕ)
to_stuck =
    entering
    ++ leaving
    ++ (none ∷ none ∷ none ∷ some 0 ∷ some 1 ∷ [])
    ++ entering
    ++ leaving
    ++ (none ∷ some 0 ∷ [])

inside-Reachable : Reachable 2 1 inside
unfolding run initial thread_step thread_move father_step father_move evaluations
inside-Reachable = run-Steps 2 (evaluations 1) entering (initial 2 2) (initial 2 2) rest refl

-- The process is killed by thread 0 before it has let thread 1 go.
stuck-Reachable : Reachable 2 1 stuck
unfolding run initial thread_step thread_move father_step father_move evaluations
stuck-Reachable = run-Steps 2 (evaluations 1) to_stuck (initial 2 2) (initial 2 2) rest refl

kernel_in_step_example : HasPosted at_process_lock × (◌≡◌ {A = ℕ} 0 0)
kernel_in_step_example = kernel_in_step 2 1 0 1 inside-Reachable refl refl refl

kernel_goes_on_example :
    ((k : ℕ) × (t : Thread) × (get_elem? inside.threads k ≡ some t) × (t.phase ≡ finished))
    ⊎ ((s' : State) × Step 2 (evaluations 1) inside s')
kernel_goes_on_example = kernel_goes_on 2 1 inside inside-Reachable (λ e. cc)

Stranded-forever_example : Stranded 1 (record { phase = at_end_lock; evaluated = 1 }) stuck
Stranded-forever_example =
    Stranded-forever 2 2 1 (record { phase = at_end_lock; evaluated = 1 }) refl
      (record { gone = refl; shut = refl; waits = refl }) rest

-- "0" and "12".
abbrev two_cpus : List Text
two_cpus = (48 ∷ []) ∷ (49 ∷ 50 ∷ []) ∷ []

two_cpus-IsNumeral : All (IsNumeral 32) two_cpus
two_cpus-IsNumeral = (
  record { nonempty = λ e. cc; digits = (refl, tt); fits = omega arith },
  (record { nonempty = λ e. cc; digits = (refl, (refl, tt)); fits = omega arith }, tt),
)
