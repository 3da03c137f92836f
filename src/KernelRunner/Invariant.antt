-- ===== src/KernelRunner/Invariant.antt =====
-- What holds of the threads and the semaphores, loop by loop of `syncLoop`, whatever the order of the
-- steps.
pub mod Moves
pub mod Leaving
pub mod Rounds
pub mod Kept
use lpowerprobe.Common.{ℕ, suc, ◌+◌, ◌≤◌, ◌≡◌, List, length, All}
use lpowerprobe.KernelRunner.{
  Phase, before_post, at_process_lock, in_kernel, at_end_lock, finished, Thread, Father, collecting,
  releasing, gathering, ending, killed, State,
}
use lpowerprobe.KernelRunner.Weight.{weight, at_lock, running, at_end}

-- Between the rounds: a thread is about to begin round `r`, or has not left the round before it, or
-- is through with all rounds. No thread runs the kernel.
abbrev EarlyAt : Phase → ℕ → ℕ → Type 0
EarlyAt before_post r evaluated = evaluated ≡ r
EarlyAt at_process_lock r evaluated = evaluated ≡ r
EarlyAt in_kernel r evaluated = ⊥
EarlyAt at_end_lock r evaluated = suc evaluated ≡ r
EarlyAt finished r evaluated = evaluated ≡ r

abbrev pub Early : ℕ → Thread → Type 0
Early r t = EarlyAt t.phase r t.evaluated

-- Within round `r`: every thread is ready for it, in the kernel, or behind it.
abbrev MidAt : Phase → ℕ → ℕ → Type 0
MidAt before_post r evaluated = ⊥
MidAt at_process_lock r evaluated = evaluated ≡ r
MidAt in_kernel r evaluated = evaluated ≡ r
MidAt at_end_lock r evaluated = evaluated ≡ r
MidAt finished r evaluated = ⊥

abbrev pub Mid : ℕ → Thread → Type 0
Mid r t = MidAt t.phase r t.evaluated

-- The semaphores m_fatherLock, m_processLock and m_processEndLock hold `fl`, `pl` and `el`.
abbrev pub Meets : ℕ → ℕ → Father → List Thread → ℕ → ℕ → ℕ → Type 0
Meets n r (collecting i) ts fl pl el =
    (i ≤ n) × All (Early r) ts × (pl ≡ 0) × (fl + i ≡ weight at_lock ts) × (weight at_end ts ≡ el)
Meets n r (releasing i) ts fl pl el =
    (i ≤ n)
    × All (Mid r) ts
    × (el ≡ 0)
    × (pl + (weight running ts + weight at_end ts) ≡ i)
    × (fl ≡ weight at_end ts)
Meets n r (gathering i) ts fl pl el =
    (i ≤ n)
    × All (Mid r) ts
    × (el ≡ 0)
    × (pl + (weight running ts + weight at_end ts) ≡ n)
    × (fl + i ≡ weight at_end ts)
Meets n r (ending i) ts fl pl el =
    (i ≤ n)
    × All (Early r) ts
    × (pl ≡ 0)
    × (fl ≡ weight at_lock ts)
    × (weight at_end ts + i ≡ n + el)
Meets n r killed ts fl pl el = All (Early r) ts × (pl ≡ 0)

pub record Inv (n : ℕ) (s : State) : Type 0 where
  pub size : length s.threads ≡ n
  pub round : ℕ
  pub meets : Meets n round s.father s.threads s.father_lock s.process_lock s.process_end_lock
