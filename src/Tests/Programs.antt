-- ===== src/Tests/Programs.antt =====
-- src/ProgramRunner.cpp with two processes and one repetition.
use lpowerprobe.Common.{◌≡◌, ◌≤◌, refl, true, false, List, [], ◌∷◌, ◌++◌, All, ◌⊎◌}
use lpowerprobe.KernelRunner.{evaluations}
use lpowerprobe.ProgramRunner.{
  before_fork, at_process_lock, in_program, finished, through, exited, releasing, collecting,
  crashed, then_step, by_own, by_leader, State, Move, other, child, leads, initial, run, Reachable,
  first, other_step, other_move, own_step, own_move, leader_step, leader_move, wait_own,
  stop_measure,
}
use lpowerprobe.ProgramRunner.Safety.{
  own_runs, IsInStep, program-IsInStep, all_recorded, run-Reachable,
}
use lpowerprobe.ProgramRunner.Moving.{CanStep}
use lpowerprobe.ProgramRunner.Progress.{IsOver, IsStranded, never_deadlocked}
use lpowerprobe.ProgramRunner.Termination.{step_count, most_steps, step_count-le-most_steps}

-- Both fork, and the leader lets its child go.
abbrev to_inside : List Move
to_inside = leads ∷ child ∷ other 0 ∷ other 0 ∷ leads ∷ leads ∷ leads ∷ leads ∷ leads ∷ child ∷ []

abbrev inside : State
inside = record {
  leader = releasing 2;
  round = 0;
  own = in_program;
  others = record { phase = at_process_lock; evaluated = 0 } ∷ [];
  measuring = true;
  overheads = 0;
  results = 0;
  father_lock = 0;
  process_lock = 1;
  process_end_lock = 0;
}

-- The children end, and the leader lets the other process go.
abbrev to_end : List Move
to_end =
    leads
    ∷ other 0
    ∷ child
    ∷ other 0
    ∷ other 0
    ∷ leads
    ∷ leads
    ∷ leads
    ∷ leads
    ∷ leads
    ∷ other 0
    ∷ []

abbrev over : State
over = record {
  leader = through;
  round = 2;
  own = before_fork;
  others = record { phase = finished; evaluated = 2 } ∷ [];
  measuring = false;
  overheads = 1;
  results = 1;
  father_lock = 0;
  process_lock = 0;
  process_end_lock = 0;
}

inside-Reachable : Reachable 1 1 inside
unfolding run initial other_step other_move own_step own_move leader_step leader_move evaluations
inside-Reachable = run-Reachable 1 1 to_inside (initial 1 1) first refl

over-Reachable : Reachable 1 1 over
unfolding run initial other_step other_move own_step own_move leader_step leader_move wait_own
    stop_measure evaluations
over-Reachable =
    run-Reachable 1 1 (to_inside ++ to_end ++ to_inside ++ to_end) (initial 1 1) first refl

-- The only child is killed before its sem_post.
abbrev stranded : State
stranded = record {
  leader = collecting 0;
  round = 0;
  own = crashed;
  others = [];
  measuring = true;
  overheads = 0;
  results = 0;
  father_lock = 0;
  process_lock = 0;
  process_end_lock = 0;
}

stranded-Reachable : Reachable 1 0 stranded
unfolding initial own_step own_move leader_step leader_move evaluations
stranded-Reachable = then_step (then_step first (by_leader true refl)) (by_own false refl)

program-IsInStep_example :
    (inside.leader ≡ exited) ⊎ ((inside.measuring ≡ true) × All (IsInStep 0) inside.others)
program-IsInStep_example = program-IsInStep 1 1 inside-Reachable (own_runs refl)

never_deadlocked_example : CanStep 1 0 stranded ⊎ (IsOver stranded ⊎ IsStranded 0 stranded)
never_deadlocked_example = never_deadlocked 1 0 stranded-Reachable (λ e. cc)

all_recorded_example : (over.overheads ≡ 1) × (over.results ≡ 1) × (over.measuring ≡ false)
all_recorded_example = all_recorded 1 1 over-Reachable refl

step_count-le-most_steps_example : step_count over-Reachable ≤ most_steps 1 1
step_count-le-most_steps_example = step_count-le-most_steps 1 1 over-Reachable
