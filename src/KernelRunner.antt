-- ===== src/KernelRunner.antt =====
-- src/KernelRunner.cpp: the threads that run a kernel together, and the process that keeps them in step
-- with three semaphores. A step is one call of sem_post or sem_wait, with what its caller does up to
-- the next one.
pub mod Memory
pub mod Flush
pub mod Weight
pub mod Invariant
pub mod Safety
pub mod Progress
use lpowerprobe.Common.{
  ℕ, zero, suc, ◌+◌, ◌≡◌, Bool, true, false, ◌&&◌, Option, none, some, List, [], ◌∷◌, replicate,
  length, get_elem?, set, ◌>>=◌, ltb, ◌==◌, if◌then◌else◌,
}

-- Where a thread stands in `evaluation`: at the first sem_post, at the wait for m_processLock, between
-- that and the second sem_post, at the wait for m_processEndLock, or behind the loops of `start`.
pub data Phase : Type 0 where
  before_post at_process_lock in_kernel at_end_lock finished : Phase

pub record Thread : Type 0 where
  pub phase : Phase
  pub evaluated : ℕ  -- calls of `evaluation` that have returned

-- Where `syncLoop` stands: the loop, and the rounds of it that are done.
pub data Father : Type 0 where
  collecting releasing gathering ending : ℕ → Father
  killed : Father

pub record State : Type 0 where
  pub threads : List Thread
  pub father : Father
  pub father_lock : ℕ
  pub process_lock : ℕ
  pub process_end_lock : ℕ

-- `sem_wait` on a semaphore: it blocks at 0.
abbrev pub sem_wait : ℕ → Option ℕ
sem_wait zero = none
sem_wait (suc n) = some n

-- Each thread evaluates the overhead `nb_meta_repet` times, and then the kernel as often.
unfoldable pub evaluations : ℕ → ℕ
evaluations nb_meta_repet = nb_meta_repet + nb_meta_repet

-- The phase at the head of the loops.
abbrev pub at_loop : ℕ → ℕ → Phase
at_loop total evaluated = if ltb evaluated total then before_post else finished

-- Without any evaluation thread 0 kills the process at once.
unfoldable pub initial : ℕ → ℕ → State
initial total nb_process = record {
  threads = replicate nb_process (record { phase = at_loop total 0; evaluated = 0 });
  father = if total == 0 then killed else collecting 0;
  father_lock = 0;
  process_lock = 0;
  process_end_lock = 0;
}

-- Thread 0 kills the process when it leaves its loops.
abbrev pub father_after : ℕ → ℕ → ℕ → Father → Father
father_after total k evaluated father = if (k == 0) && (evaluated == total) then killed else father

-- The step of thread `k`, which stands at a phase and has done some evaluations.
unfoldable pub thread_move : ℕ → ℕ → State → Phase → ℕ → Option State
thread_move total k s before_post evaluated = some (record s {
  threads = set s.threads k (record { phase = at_process_lock; evaluated = evaluated });
  father_lock = s.father_lock + 1;
})
thread_move total k s at_process_lock evaluated = do
  left ← sem_wait s.process_lock
  some (record s {
    threads = set s.threads k (record { phase = in_kernel; evaluated = evaluated });
    process_lock = left;
  })
thread_move total k s in_kernel evaluated = some (record s {
  threads = set s.threads k (record { phase = at_end_lock; evaluated = evaluated });
  father_lock = s.father_lock + 1;
})
thread_move total k s at_end_lock evaluated = do
  left ← sem_wait s.process_end_lock
  some (record s {
    threads =
        set s.threads k
          (record { phase = at_loop total (evaluated + 1); evaluated = evaluated + 1 });
    process_end_lock = left;
    father = father_after total k (evaluated + 1) s.father;
  })
thread_move total k s finished evaluated = none

unfoldable pub thread_step : ℕ → ℕ → State → Option State
unfolding thread_move
thread_step total k s = do t ← get_elem? s.threads k; thread_move total k s t.phase t.evaluated

-- The step of `syncLoop` for `nb_process` threads.
unfoldable pub father_move : ℕ → State → Father → Option State
father_move nb_process s (collecting i) =
    if ltb i nb_process
    then (do
      left ← sem_wait s.father_lock
      some (record s { father = collecting (i + 1); father_lock = left }))
    else some (record s { father = releasing 0 })
father_move nb_process s (releasing i) =
    if ltb i nb_process
    then some (record s { father = releasing (i + 1); process_lock = s.process_lock + 1 })
    else some (record s { father = gathering 0 })
father_move nb_process s (gathering i) =
    if ltb i nb_process
    then (do
      left ← sem_wait s.father_lock
      some (record s { father = gathering (i + 1); father_lock = left }))
    else some (record s { father = ending 0 })
father_move nb_process s (ending i) =
    if ltb i nb_process
    then some (record s { father = ending (i + 1); process_end_lock = s.process_end_lock + 1 })
    else some (record s { father = collecting 0 })
father_move nb_process s killed = none

unfoldable pub father_step : ℕ → State → Option State
unfolding father_move
father_step nb_process s = father_move nb_process s s.father

-- Any thread, or the process, goes on.
pub data Step (nb_process total : ℕ) (s s' : State) : Type 0 where
  by_thread : (k : ℕ) → thread_step total k s ≡ some s' → Step nb_process total s s'
  by_father : father_step nb_process s ≡ some s' → Step nb_process total s s'

pub data Steps (nb_process total : ℕ) : State → State → Type 0 where
  rest : {s : State} → Steps nb_process total s s
  then_step :
      {s s' s'' : State}
      → Steps nb_process total s s'
      → Step nb_process total s' s''
      → Steps nb_process total s s''

-- The states of a run with `nb_meta_repet` repetitions.
abbrev pub Reachable : ℕ → ℕ → State → Type 0
Reachable nb_process nb_meta_repet s =
    Steps nb_process (evaluations nb_meta_repet) (initial (evaluations nb_meta_repet) nb_process) s

-- A schedule, run: `some k` is thread `k`, `none` the process.
unfoldable pub run : ℕ → ℕ → List (Option ℕ) → State → Option State
unfolding thread_step father_step
run nb_process total [] s = some s
run nb_process total (some k ∷ moves) s = thread_step total k s >>= run nb_process total moves
run nb_process total (none ∷ moves) s = father_step nb_process s >>= run nb_process total moves
