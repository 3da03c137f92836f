-- ===== src/ProgramRunner.antt =====
-- src/ProgramRunner.cpp: the threads that run a program together, each of which forks a child for every
-- evaluation. The first thread, the leader, measures and keeps the others in step with three
-- semaphores. A step is one fork, sem_post, sem_wait, waitpid or end of a child, with what its caller
-- does up to the next one; `exit` ends all threads, but no child.
pub mod Invariant
pub mod Safety
pub mod Moving
pub mod Progress
pub mod Measure
pub mod Termination
use lpowerprobe.Common.{
  ℕ, zero, suc, ◌+◌, ◌≡◌, Bool, true, false, Option, none, some, List, [], ◌∷◌, replicate, length,
  get_elem?, set, ◌>>=◌, ltb, if◌then◌else◌, ◌||◌,
}
use lpowerprobe.KernelRunner.{sem_wait, evaluations}

-- Where a thread and its child stand in `evaluation`: before the fork, the child before its sem_post,
-- at its wait for m_processLock, in the program, ended, and killed by a signal; then the thread at its
-- wait for m_processEndLock, or behind the loops of `start`.
pub data Phase : Type 0 where
  before_fork before_post at_process_lock in_program ended at_end_lock finished crashed : Phase

pub record Process : Type 0 where
  pub phase : Phase
  pub evaluated : ℕ  -- calls of `evaluation` that have returned

-- Where the leader stands: before the start of the collector and the fork, in one of its loops with
-- the rounds that are done, at waitpid, behind the loops of `start`, or ended by an `exit`.
pub data Leader : Type 0 where
  beginning waiting through exited : Leader
  collecting releasing gathering ending : ℕ → Leader

pub record State : Type 0 where
  pub leader : Leader
  pub round : ℕ  -- the leader's calls of `evaluation` that have returned
  pub own : Phase  -- of the leader's child
  pub others : List Process
  pub measuring : Bool  -- between start and stop of the collector
  pub overheads : ℕ  -- stops with the overhead's results
  pub results : ℕ  -- stops with the program's results
  pub father_lock : ℕ
  pub process_lock : ℕ
  pub process_end_lock : ℕ

abbrev pub at_loop : ℕ → ℕ → Phase
at_loop total evaluated = if ltb evaluated total then before_fork else finished

abbrev pub leader_at_loop : ℕ → ℕ → Leader
leader_at_loop total round = if ltb round total then beginning else through

-- `others` threads besides the leader.
unfoldable pub initial : ℕ → ℕ → State
unfolding evaluations
initial nb_meta_repet others = record {
  leader = leader_at_loop (evaluations nb_meta_repet) 0;
  round = 0;
  own = before_fork;
  others =
      replicate others (record { phase = at_loop (evaluations nb_meta_repet) 0; evaluated = 0 });
  measuring = false;
  overheads = 0;
  results = 0;
  father_lock = 0;
  process_lock = 0;
  process_end_lock = 0;
}

-- `exit (EXIT_FAILURE)` by any thread; the collector ends too.
abbrev pub exits : State → State
exits s = record s { leader = exited; measuring = false }

-- The step of thread `k` of the others, or of its child; `ok` is whether the fork succeeds, or the child
-- is not killed by a signal there.
unfoldable pub other_move : ℕ → ℕ → Bool → State → Phase → ℕ → Option State
other_move total k ok s before_fork e = some (
    if ok
    then record s { others = set s.others k (record { phase = before_post; evaluated = e }) }
    else exits s)
other_move total k ok s before_post e = some (
    if ok
    then record s {
      others = set s.others k (record { phase = at_process_lock; evaluated = e });
      father_lock = s.father_lock + 1;
    }
    else record s { others = set s.others k (record { phase = crashed; evaluated = e }) })
other_move total k ok s at_process_lock e =
    if ok
    then (do
      rest ← sem_wait s.process_lock
      some (record s {
        others = set s.others k (record { phase = in_program; evaluated = e });
        process_lock = rest;
      }))
    else some (record s { others = set s.others k (record { phase = crashed; evaluated = e }) })
other_move total k ok s in_program e = some (record s {
  others = set s.others k (record { phase = if ok then ended else crashed; evaluated = e });
})
other_move total k ok s ended e = some (record s {
  others = set s.others k (record { phase = at_end_lock; evaluated = e });
  father_lock = s.father_lock + 1;
})
other_move total k ok s at_end_lock e = do
  rest ← sem_wait s.process_end_lock
  some (record s {
    others = set s.others k (record { phase = at_loop total (e + 1); evaluated = e + 1 });
    process_end_lock = rest;
  })
other_move total k ok s finished e = none
other_move total k ok s crashed e = some (exits s)

abbrev pub is_alive : Leader → Bool
is_alive exited = false
is_alive _ = true

-- Phases in which the step is the child's.
abbrev pub is_of_child : Phase → Bool
is_of_child before_post = true
is_of_child at_process_lock = true
is_of_child in_program = true
is_of_child _ = false

-- A child goes on by itself; a thread, until the program exits.
abbrev pub acts : Leader → Phase → Bool
acts leader phase = is_alive leader || is_of_child phase

unfoldable pub other_step : ℕ → ℕ → Bool → State → Option State
unfolding other_move
other_step total k ok s = do
  process ← get_elem? s.others k
  (if acts s.leader process.phase
      then other_move total k ok s process.phase process.evaluated
      else none)

-- The step of the leader's child, while it has one.
unfoldable pub own_move : Bool → State → Phase → Option State
own_move ok s before_post = some (
    if ok
    then record s { own = at_process_lock; father_lock = s.father_lock + 1 }
    else record s { own = crashed })
own_move ok s at_process_lock =
    if ok
    then (do
      rest ← sem_wait s.process_lock
      some (record s { own = in_program; process_lock = rest }))
    else some (record s { own = crashed })
own_move ok s in_program = some (record s { own = if ok then ended else crashed })
own_move ok s _ = none

unfoldable pub own_step : Bool → State → Option State
unfolding own_move
own_step ok s = own_move ok s s.own

-- `waitpid` on the leader's child, and the `exit` when the child was killed.
unfoldable pub wait_own : State → Phase → Option State
wait_own s ended = some (record s { leader = gathering 0; own = before_fork })
wait_own s crashed = some (exits s)
wait_own s _ = none

-- The collector is stopped with the results of the evaluation that ends.
unfoldable pub stop_measure : ℕ → State → State
unfolding evaluations
stop_measure nb_meta_repet s = record s {
  leader = leader_at_loop (evaluations nb_meta_repet) (s.round + 1);
  round = s.round + 1;
  measuring = false;
  overheads = if ltb s.round nb_meta_repet then s.overheads + 1 else s.overheads;
  results = if ltb s.round nb_meta_repet then s.results else s.results + 1;
}

unfoldable pub leader_move : ℕ → ℕ → Bool → State → Leader → Option State
unfolding wait_own stop_measure
leader_move nb_meta_repet others ok s beginning = some (
    if ok then record s { leader = collecting 0; own = before_post; measuring = true } else exits s)
leader_move nb_meta_repet others ok s (collecting i) =
    if ltb i (others + 1)
    then (do
      rest ← sem_wait s.father_lock
      some (record s { leader = collecting (i + 1); father_lock = rest }))
    else some (record s { leader = releasing 0 })
leader_move nb_meta_repet others ok s (releasing i) =
    if ltb i (others + 1)
    then some (record s { leader = releasing (i + 1); process_lock = s.process_lock + 1 })
    else some (record s { leader = waiting })
leader_move nb_meta_repet others ok s waiting = wait_own s s.own
leader_move nb_meta_repet others ok s (gathering i) =
    if ltb i others
    then (do
      rest ← sem_wait s.father_lock
      some (record s { leader = gathering (i + 1); father_lock = rest }))
    else some (record s { leader = ending 0 })
leader_move nb_meta_repet others ok s (ending i) =
    if ltb i others
    then some (record s { leader = ending (i + 1); process_end_lock = s.process_end_lock + 1 })
    else some (stop_measure nb_meta_repet s)
leader_move nb_meta_repet others ok s through = none
leader_move nb_meta_repet others ok s exited = none

unfoldable pub leader_step : ℕ → ℕ → Bool → State → Option State
unfolding leader_move
leader_step nb_meta_repet others ok s = leader_move nb_meta_repet others ok s s.leader

-- Any thread or child goes on.
pub data Step (nb_meta_repet others : ℕ) (s s' : State) : Type 0 where
  by_other :
      (k : ℕ) (ok : Bool)
      → other_step (evaluations nb_meta_repet) k ok s ≡ some s'
      → Step nb_meta_repet others s s'
  by_own : (ok : Bool) → own_step ok s ≡ some s' → Step nb_meta_repet others s s'
  by_leader :
      (ok : Bool) → leader_step nb_meta_repet others ok s ≡ some s' → Step nb_meta_repet others s s'

-- The states of a run.
pub data Reachable (nb_meta_repet others : ℕ) : State → Type 0 where
  first : Reachable nb_meta_repet others (initial nb_meta_repet others)
  then_step :
      {s s' : State}
      → Reachable nb_meta_repet others s
      → Step nb_meta_repet others s s'
      → Reachable nb_meta_repet others s'

-- Who goes on next in a schedule.
pub data Move : Type 0 where
  other : ℕ → Move
  child leads : Move

-- A schedule, run, in which no fork and no program fails.
unfoldable pub run : ℕ → ℕ → List Move → State → Option State
unfolding other_step own_step leader_step evaluations
run nb_meta_repet others [] s = some s
run nb_meta_repet others (other k ∷ moves) s =
    other_step (evaluations nb_meta_repet) k true s >>= run nb_meta_repet others moves
run nb_meta_repet others (child ∷ moves) s = own_step true s >>= run nb_meta_repet others moves
run nb_meta_repet others (leads ∷ moves) s =
    leader_step nb_meta_repet others true s >>= run nb_meta_repet others moves
