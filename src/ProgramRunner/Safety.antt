-- ===== src/ProgramRunner/Safety.antt =====
-- What is measured, and when the children run the program.
use lpowerprobe.Common.{
  ℕ, ◌+◌, ◌≤◌, ◌≡◌, ◌≢◌, refl, ◌∙◌, true, false, some, List, [], ◌∷◌, get_elem?, All, All-get_elem?,
  All-imp, Option-cases, arith, ◌⊎◌, inl, inr,
}
use lpowerprobe.KernelRunner.{evaluations}
use lpowerprobe.ProgramRunner.{
  Phase, before_fork, before_post, at_process_lock, in_program, ended, at_end_lock, finished,
  crashed, Process, Leader, beginning, waiting, through, exited, collecting, releasing, gathering,
  ending, State, Reachable, then_step, by_other, by_own, by_leader, Move, other, child, leads, run,
  other_step, own_step, leader_step,
}
use lpowerprobe.ProgramRunner.Invariant.{Early, Mid, Meets, measures, Inv}
use lpowerprobe.ProgramRunner.Invariant.Kept.{Reachable-Inv}

-- A child runs the program: the leader's, or that of one of the others.
pub data IsRunning (s : State) : Type 0 where
  own_runs : s.own ≡ in_program → IsRunning s
  other_runs :
      (k : ℕ) {t : Process} → get_elem? s.others k ≡ some t → t.phase ≡ in_program → IsRunning s

-- A thread whose child is ready for its evaluation, in the program, ended or killed, or which waits behind it.
pub data IsInStep (r : ℕ) : Process → Type 0 where
  ready : {e : ℕ} → e ≡ r → IsInStep r (record { phase = at_process_lock; evaluated = e })
  in_it : {e : ℕ} → e ≡ r → IsInStep r (record { phase = in_program; evaluated = e })
  done : {e : ℕ} → e ≡ r → IsInStep r (record { phase = ended; evaluated = e })
  behind : {e : ℕ} → e ≡ r → IsInStep r (record { phase = at_end_lock; evaluated = e })
  killed : {e : ℕ} → e ≡ r → IsInStep r (record { phase = crashed; evaluated = e })

Mid-IsInStep :
    (r : ℕ) (p : Phase) (e : ℕ)
    → Mid r (record { phase = p; evaluated = e })
    → IsInStep r (record { phase = p; evaluated = e })
Mid-IsInStep r before_fork e h = absurd h
Mid-IsInStep r before_post e h = absurd h
Mid-IsInStep r at_process_lock e h = ready h
Mid-IsInStep r in_program e h = in_it h
Mid-IsInStep r ended e h = done h
Mid-IsInStep r at_end_lock e h = behind h
Mid-IsInStep r finished e h = absurd h
Mid-IsInStep r crashed e h = killed h

Early-idle :
    (total r : ℕ) (p : Phase) (e : ℕ)
    → Early total r (record { phase = p; evaluated = e })
    → p ≢ in_program
Early-idle total r before_fork e h is = cc
Early-idle total r before_post e h is = cc
Early-idle total r at_process_lock e h is = cc
Early-idle total r in_program e h is = absurd h
Early-idle total r ended e h is = cc
Early-idle total r at_end_lock e h is = cc
Early-idle total r finished e h is = cc
Early-idle total r crashed e h is = cc

module _ (total m r : ℕ) (s : State) where
  calm_idle : (r' : ℕ) → All (Early total r') s.others → s.own ≢ in_program → IsRunning s → ⊥
  calm_idle r' all idle (own_runs is) = idle is
  calm_idle r' all idle (other_runs k {t} at is) =
      Early-idle total r' t.phase t.evaluated (All-get_elem? (Early total r') s.others k all at) is

  -- While a child runs, the leader has begun the round and has not ended it.
  running_Mid :
      (leader : Leader)
      → Meets total m r leader s.own s.others s.father_lock s.process_lock s.process_end_lock
      → IsRunning s
      → (leader ≡ exited) ⊎ ((measures leader ≡ true) × All (Mid r) s.others)
  running_Mid beginning (idle, more, c) some_run = absurd (calm_idle r c.all (λ is. cc) some_run)
  running_Mid (collecting i) (le, more, forked, c) some_run =
      absurd (calm_idle r c.all (λ is. rw is at forked) some_run)
  running_Mid (releasing i) (le, released, b) some_run = inr (refl, b.all)
  running_Mid waiting (released, b) some_run = inr (refl, b.all)
  running_Mid (gathering i) (le, idle, b) some_run = inr (refl, b.all)
  running_Mid (ending i) (le, idle, c) some_run =
      absurd (calm_idle (r + 1) c.all (λ is. cc) some_run)
  running_Mid through (idle, over, c) some_run = absurd (calm_idle r c.all (λ is. cc) some_run)
  running_Mid exited h some_run = inl refl

-- In every reachable state, whatever the order of the steps: while a child of any thread runs the
-- program, either a thread has ended the program by an `exit`, or the collector runs and every other
-- thread is in the leader's evaluation, with its child ready for the program, in it, ended or killed.
pub program-IsInStep :
    (nb_meta_repet others : ℕ) {s : State}
    → Reachable nb_meta_repet others s
    → IsRunning s
    → (s.leader ≡ exited) ⊎ ((s.measuring ≡ true) × All (IsInStep s.round) s.others)
program-IsInStep nb m {s} reached some_run =
    let inv : Inv nb m s = Reachable-Inv nb m reached in
    elim (running_Mid (evaluations nb) m s.round s s.leader inv.meets some_run) [
      | inl gone_leader ↦ inl gone_leader
      | inr (on, mid) ↦ inr (
        inv.collector ∙ on,
        All-imp (Mid s.round) (IsInStep s.round) s.others
            (λ u. Mid-IsInStep s.round u.phase u.evaluated) mid,
      )
    ]

through_over :
    (total m r : ℕ) (leader : Leader) (own : Phase) (ts : List Process) (fl pl el : ℕ)
    → Meets total m r leader own ts fl pl el
    → leader ≡ through
    → total ≤ r
through_over total m r through own ts fl pl el (idle, over, c) is = over
through_over total m r beginning own ts fl pl el h is = absurd (cc)
through_over total m r (collecting i) own ts fl pl el h is = absurd (cc)
through_over total m r (releasing i) own ts fl pl el h is = absurd (cc)
through_over total m r waiting own ts fl pl el h is = absurd (cc)
through_over total m r (gathering i) own ts fl pl el h is = absurd (cc)
through_over total m r (ending i) own ts fl pl el h is = absurd (cc)
through_over total m r exited own ts fl pl el h is = absurd (cc)

-- When the leader is behind its loops, the collector has been stopped with the overhead's results
-- nb_meta_repet times and with the program's results nb_meta_repet times, and does not run.
pub all_recorded :
    (nb_meta_repet others : ℕ) {s : State}
    → Reachable nb_meta_repet others s
    → s.leader ≡ through
    → (s.overheads ≡ nb_meta_repet) × (s.results ≡ nb_meta_repet) × (s.measuring ≡ false)
unfolding evaluations
all_recorded nb m {s} reached is =
    let inv : Inv nb m s = Reachable-Inv nb m reached in
    let over =
      through_over (evaluations nb) m s.round s.leader s.own s.others s.father_lock s.process_lock
        s.process_end_lock inv.meets is in
    let counted = inv.overheads in
    let measured = inv.results in
    let limit : s.round + 0 ≤ nb + nb = rw is at inv.limit in
    (
      ground (arith, counted, over, limit),
      omega (arith, measured, over, limit),
      rw is at inv.collector,
    )

-- A schedule that runs gives a state that is reached.
pub run-Reachable :
    (nb_meta_repet others : ℕ) (moves : List Move) (s : State) {s' : State}
    → Reachable nb_meta_repet others s
    → run nb_meta_repet others moves s ≡ some s'
    → Reachable nb_meta_repet others s'
unfolding run
run-Reachable nb m [] s {s'} before ran = let is : s' ≡ s = cc in rw is before
run-Reachable nb m (other k ∷ moves) s before ran =
    elim (Option-cases (other_step (evaluations nb) k true s)) [
      | inl blocked ↦ absurd (ground (arith, blocked, ran))
      | inr (mid, moved) ↦
          run-Reachable nb m moves mid (then_step before (by_other k true moved)) (rw moved at ran)
    ]
run-Reachable nb m (child ∷ moves) s before ran = elim (Option-cases (own_step true s)) [
  | inl blocked ↦ absurd (ground (arith, blocked, ran))
  | inr (mid, moved) ↦
      run-Reachable nb m moves mid (then_step before (by_own true moved)) (rw moved at ran)
]
run-Reachable nb m (leads ∷ moves) s before ran = elim (Option-cases (leader_step nb m true s)) [
  | inl blocked ↦ absurd (ground (arith, blocked, ran))
  | inr (mid, moved) ↦
      run-Reachable nb m moves mid (then_step before (by_leader true moved)) (rw moved at ran)
]
