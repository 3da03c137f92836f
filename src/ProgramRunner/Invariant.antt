-- ===== src/ProgramRunner/Invariant.antt =====
-- What holds of the threads and the semaphores, loop by loop of the leader, whatever the order of the
-- steps.
pub mod Others
pub mod Rounds
pub mod Child
pub mod Leading
pub mod Kept
use lpowerprobe.Common.{
  ℕ, suc, ◌+◌, ◌-◌, ◌≤◌, ◌<◌, ◌≡◌, Bool, true, false, List, length, All, if◌then◌else◌, ltb,
}
use lpowerprobe.Common.Weight.{weight}
use lpowerprobe.KernelRunner.{evaluations}
use lpowerprobe.ProgramRunner.{
  Phase, before_fork, before_post, at_process_lock, in_program, ended, at_end_lock, finished,
  crashed, Process, Leader, beginning, waiting, through, exited, collecting, releasing, gathering,
  ending, State,
}

-- Phases of those that may have posted m_fatherLock.
abbrev pub lock_at : Phase → ℕ
lock_at at_process_lock = 1
lock_at crashed = 1
lock_at _ = 0

-- Phases of those that have taken their turn of m_processLock, less those that were killed.
abbrev pub turn_at : Phase → ℕ
turn_at in_program = 1
turn_at ended = 1
turn_at at_end_lock = 1
turn_at _ = 0

-- Phases of those that have posted m_fatherLock, less those that were killed.
abbrev pub post_at : Phase → ℕ
post_at at_process_lock = 1
post_at _ = 0

-- Phases of those that may have taken their turn of m_processLock.
abbrev pub may_at : Phase → ℕ
may_at in_program = 1
may_at ended = 1
may_at at_end_lock = 1
may_at crashed = 1
may_at _ = 0

abbrev pub end_at : Phase → ℕ
end_at at_end_lock = 1
end_at _ = 0

abbrev pub at_lock : Process → ℕ
at_lock process = lock_at process.phase

abbrev pub has_post : Process → ℕ
has_post process = post_at process.phase

abbrev pub may_turn : Process → ℕ
may_turn process = may_at process.phase

abbrev pub has_turn : Process → ℕ
has_turn process = turn_at process.phase

abbrev pub at_end : Process → ℕ
at_end process = end_at process.phase

-- Between the rounds: a thread is about to begin round `r`, or has not left the round before it, or
-- is through with all rounds. No child runs the program, but one may be killed before it.
abbrev EarlyAt : ℕ → ℕ → Phase → ℕ → Type 0
EarlyAt total r before_fork e = (e ≡ r) × (e < total)
EarlyAt total r before_post e = (e ≡ r) × (e < total)
EarlyAt total r at_process_lock e = (e ≡ r) × (e < total)
EarlyAt total r in_program e = ⊥
EarlyAt total r ended e = ⊥
EarlyAt total r at_end_lock e = suc e ≡ r
EarlyAt total r finished e = (e ≡ r) × (total ≤ e)
EarlyAt total r crashed e = (e ≡ r) × (e < total)

abbrev pub Early : ℕ → ℕ → Process → Type 0
Early total r process = EarlyAt total r process.phase process.evaluated

-- Within round `r`: every child is ready for it, in the program, or behind it, or was killed.
abbrev MidAt : ℕ → Phase → ℕ → Type 0
MidAt r before_fork e = ⊥
MidAt r before_post e = ⊥
MidAt r at_process_lock e = e ≡ r
MidAt r in_program e = e ≡ r
MidAt r ended e = e ≡ r
MidAt r at_end_lock e = e ≡ r
MidAt r finished e = ⊥
MidAt r crashed e = e ≡ r

abbrev pub Mid : ℕ → Process → Type 0
Mid r process = MidAt r process.phase process.evaluated

-- The leader's child, before and after it may be released.
abbrev pub IsForked : Phase → Type 0
IsForked before_post = Unit {0}
IsForked at_process_lock = Unit {0}
IsForked crashed = Unit {0}
IsForked _ = ⊥

abbrev pub IsReleased : Phase → Type 0
IsReleased at_process_lock = Unit {0}
IsReleased in_program = Unit {0}
IsReleased ended = Unit {0}
IsReleased crashed = Unit {0}
IsReleased _ = ⊥

-- m_fatherLock, m_processLock and m_processEndLock hold `fl`, `pl` and `el`; the leader has taken `got`
-- of the first and made `posted` of the `due` posts of the last.
pub record Calm (total r got posted due : ℕ) (own : Phase) (ts : List Process) (fl pl el : ℕ)
    : Type 0 where
  pub all : All (Early total r) ts
  pub shut : pl ≡ 0
  pub ready : fl + got ≤ weight at_lock ts + lock_at own
  pub by_posted : weight has_post ts + post_at own ≤ fl + got
  pub leaving : weight at_end ts + posted ≡ el + due

-- The leader has posted m_processLock `released` times for those counted here.
pub record Busy (r released got : ℕ) (own : Phase) (ts : List Process) (fl pl el : ℕ) : Type 0 where
  pub all : All (Mid r) ts
  pub shut : el ≡ 0
  pub turns : pl + (weight has_turn ts + turn_at own) ≤ released
  pub taken : released ≤ pl + (weight may_turn ts + may_at own)
  pub behind : fl + got ≡ weight at_end ts

-- `m` others.
abbrev pub Meets : ℕ → ℕ → ℕ → Leader → Phase → List Process → ℕ → ℕ → ℕ → Type 0
Meets total m r beginning own ts fl pl el =
    (own ≡ before_fork) × (r < total) × Calm total r 0 0 0 own ts fl pl el
Meets total m r (collecting i) own ts fl pl el =
    (i ≤ m + 1) × (r < total) × IsForked own × Calm total r i 0 0 own ts fl pl el
Meets total m r (releasing i) own ts fl pl el =
    (i ≤ m + 1) × IsReleased own × Busy r i 0 own ts fl pl el
Meets total m r waiting own ts fl pl el = IsReleased own × Busy r (m + 1) 0 own ts fl pl el
Meets total m r (gathering i) own ts fl pl el =
    (i ≤ m) × (own ≡ before_fork) × Busy r m i own ts fl pl el
Meets total m r (ending i) own ts fl pl el =
    (i ≤ m) × (own ≡ before_fork) × Calm total (r + 1) 0 i m own ts fl pl el
Meets total m r through own ts fl pl el =
    (own ≡ before_fork) × (total ≤ r) × Calm total r 0 0 0 own ts fl pl el
Meets total m r exited own ts fl pl el = Unit {0}

-- Whether the collector runs.
abbrev pub measures : Leader → Bool
measures beginning = false
measures through = false
measures exited = false
measures _ = true

-- What is exited of the leader's evaluations.
abbrev pub active : Leader → ℕ
active through = 0
active exited = 0
active _ = 1

pub record Inv (nb_meta_repet m : ℕ) (s : State) : Type 0 where
  pub size : length s.others ≡ m
  pub collector : s.measuring ≡ measures s.leader
  pub limit : s.round + active s.leader ≤ evaluations nb_meta_repet
  pub overheads : s.overheads ≡ (if ltb s.round nb_meta_repet then s.round else nb_meta_repet)
  pub results : s.results ≡ s.round - nb_meta_repet
  pub meets :
      Meets
        (evaluations nb_meta_repet)
        m
        s.round
        s.leader
        s.own
        s.others
        s.father_lock
        s.process_lock
        s.process_end_lock
