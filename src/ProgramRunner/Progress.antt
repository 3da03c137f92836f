-- ===== src/ProgramRunner/Progress.antt =====
-- The threads never wait for each other for ever.
use lpowerprobe.Common.{
  ℕ, zero, suc, ◌+◌, ◌≤◌, ◌<◌, ◌≡◌, ◌≢◌, refl, some, length, get_elem?, All, All-get_elem?, arith,
  ◌⊎◌, inl, inr, Bool-cases, ltb, ltb→lt,
}
use lpowerprobe.Common.Weight.{weight-le, not_counted, elem-le-weight, weight-slack}
use lpowerprobe.KernelRunner.{evaluations}
use lpowerprobe.ProgramRunner.{
  Phase, before_fork, before_post, at_process_lock, in_program, ended, at_end_lock, finished,
  crashed, Process, Leader, beginning, waiting, through, exited, collecting, releasing, gathering,
  ending, State, own_move, wait_own, stop_measure, leader_move, Reachable,
}
use lpowerprobe.ProgramRunner.Invariant.{
  may_at, has_post, may_turn, at_end, Early, Mid, Calm, Meets, active, Inv,
}
use lpowerprobe.ProgramRunner.Invariant.Rounds.{end_at-le}
use lpowerprobe.ProgramRunner.Invariant.Kept.{Reachable-Inv}
use lpowerprobe.ProgramRunner.Moving.{
  CanStep, taken, Early-goes, Mid-goes, own_goes, leader_goes, reaped, may_at-le, post_at-le,
  no_post, all_or_one,
}

-- Every thread is behind its loops.
pub record IsOver (s : State) : Type 0 where
  pub leads : s.leader ≡ through
  pub others : All (λ (t : Process). t.phase ≡ finished) s.others

-- The leader waits for m_fatherLock, and its own child has been killed.
pub record IsStranded (m : ℕ) (s : State) : Type 0 where
  pub leader : (i : ℕ) × (s.leader ≡ collecting i) × (i < m + 1)
  pub own : s.own ≡ crashed
  pub locked : s.father_lock ≡ 0

module _ (nb_meta_repet m : ℕ) (s : State) (size : length s.others ≡ m)
    (alive : s.leader ≢ exited) where
  abbrev all_rounds : ℕ
  all_rounds = evaluations nb_meta_repet

  Calm-one :
      (r got : ℕ) (own : Phase) (k : ℕ) (t : Process)
      → Calm all_rounds r got 0 0 own s.others s.father_lock s.process_lock s.process_end_lock
      → get_elem? s.others k ≡ some t
      → has_post t ≡ 0
      → CanStep nb_meta_repet m s ⊎ ((t.phase ≡ finished) × (all_rounds ≤ r))
  Calm-one r got own k t c at free =
      let leaving = c.leaving in
      Early-goes nb_meta_repet m k s alive r t.phase t.evaluated at
        (All-get_elem? (Early all_rounds r) s.others k c.all at) free
        (omega (arith, leaving, elem-le-weight at_end s.others k at))

  -- The leader waits for one that is not ready, and that one goes on.
  collecting_goes :
      (r i : ℕ) (own : Phase)
      → i < m + 1
      → Meets all_rounds m r
          (collecting i)
          own
          s.others
          s.father_lock
          s.process_lock
          s.process_end_lock
      → s.own ≡ own
      → s.father_lock ≡ 0
      → CanStep nb_meta_repet m s ⊎ (s.own ≡ crashed)
  unfolding own_move
  collecting_goes r i before_post lt (le, more, forked, c) is blocked =
      inl (own_goes nb_meta_repet m s before_post is (_, refl))
  collecting_goes r i at_process_lock lt (le, more, forked, c) is blocked =
      let posted = c.by_posted in
      let (k, t, at, free) =
        not_counted has_post s.others (λ t. post_at-le t.phase)
          (omega (arith, posted, blocked, size, lt)) in
      elim (Calm-one r i at_process_lock k t c at free) [
        | inl goes ↦ inl goes
        | inr (over, last) ↦ absurd (omega (arith, last, more))
      ]
  collecting_goes r i before_fork lt (le, more, forked, c) is blocked = absurd forked
  collecting_goes r i in_program lt (le, more, forked, c) is blocked = absurd forked
  collecting_goes r i ended lt (le, more, forked, c) is blocked = absurd forked
  collecting_goes r i at_end_lock lt (le, more, forked, c) is blocked = absurd forked
  collecting_goes r i finished lt (le, more, forked, c) is blocked = absurd forked
  collecting_goes r i crashed lt (le, more, forked, c) is blocked = inr is

  -- The leader waits for its child, which goes on.
  waiting_goes :
      (r : ℕ) (own : Phase)
      → Meets all_rounds m r waiting own s.others s.father_lock s.process_lock s.process_end_lock
      → s.own ≡ own
      → s.leader ≡ waiting
      → CanStep nb_meta_repet m s
  unfolding own_move leader_move wait_own
  waiting_goes r at_process_lock (released, b) is at =
      let had = b.taken in
      let small = weight-le may_turn s.others (λ t. may_at-le t.phase) in
      own_goes nb_meta_repet m s at_process_lock is
        (taken s.process_lock _ (omega (arith, had, small, size)))
  waiting_goes r in_program (released, b) is at = own_goes nb_meta_repet m s in_program is (_, refl)
  waiting_goes r ended (released, b) is at =
      leader_goes nb_meta_repet m s waiting at (reaped s s.own ended is (_, refl))
  waiting_goes r crashed (released, b) is at =
      leader_goes nb_meta_repet m s waiting at (reaped s s.own crashed is (_, refl))
  waiting_goes r before_fork (released, b) is at = absurd released
  waiting_goes r before_post (released, b) is at = absurd released
  waiting_goes r at_end_lock (released, b) is at = absurd released
  waiting_goes r finished (released, b) is at = absurd released

  -- The leader waits for one that is not behind the program, and that one goes on.
  gathering_goes :
      (r i : ℕ)
      → i < m
      → Meets all_rounds m r
          (gathering i)
          s.own
          s.others
          s.father_lock
          s.process_lock
          s.process_end_lock
      → s.father_lock ≡ 0
      → CanStep nb_meta_repet m s
  gathering_goes r i lt (le, idle, b) blocked =
      let behind = b.behind in
      let had = b.taken in
      let no_own : may_at s.own ≡ 0 = rw idle refl in
      let (k, t, at, free) =
        not_counted at_end s.others (λ t. end_at-le t.phase)
          (omega (arith, behind, blocked, size, lt)) in
      let slack = weight-slack may_turn s.others k (λ t. may_at-le t.phase) at in
      Mid-goes nb_meta_repet m k s alive r t.phase t.evaluated at
        (All-get_elem? (Mid r) s.others k b.all at) free (omega (arith, had, no_own, slack, size))

  -- The leader takes m_fatherLock, or another goes on.
  lock_or_other : (P : Type 0) (n : ℕ) → (0 < n → P) → (n ≡ 0 → P) → P
  lock_or_other P zero f g = g refl
  lock_or_other P (suc n) f g = f (omega arith)

  go_on :
      (leader : Leader)
      → s.leader ≡ leader
      → s.round + active leader ≤ all_rounds
      → Meets all_rounds m s.round leader s.own s.others s.father_lock s.process_lock
          s.process_end_lock
      → CanStep nb_meta_repet m s ⊎ (IsOver s ⊎ IsStranded m s)
  unfolding leader_move
  go_on beginning is lim meets = inl (leader_goes nb_meta_repet m s beginning is (_, refl))
  go_on (collecting i) is lim meets = elim (Bool-cases (ltb i (m + 1))) [
    | inl more ↦
        lock_or_other (CanStep nb_meta_repet m s ⊎ (IsOver s ⊎ IsStranded m s)) s.father_lock
          (λ pos.
            let (s', ran) =
              taken s.father_lock
                (λ rest. record s { leader = collecting (i + 1); father_lock = rest }) pos in
            inl (leader_goes nb_meta_repet m s (collecting i) is (s', rw more ran)))
          (λ blocked.
            elim (collecting_goes s.round i s.own (ltb→lt i (m + 1) more) meets refl blocked) [
              | inl goes ↦ inl goes
              | inr killed ↦ inr (
                  inr (record {
                    leader = (i, is, ltb→lt i (m + 1) more);
                    own = killed;
                    locked = blocked;
                  }))
            ])
    | inr last ↦ inl (
        leader_goes nb_meta_repet m s (collecting i) is
          (record s { leader = releasing 0 }, rw last refl))
  ]
  go_on (releasing i) is lim meets = elim (Bool-cases (ltb i (m + 1))) [
    | inl more ↦ inl (
        leader_goes nb_meta_repet m s (releasing i) is (
          record s { leader = releasing (i + 1); process_lock = s.process_lock + 1 },
          rw more refl,
        ))
    | inr last ↦ inl (
        leader_goes nb_meta_repet m s (releasing i) is
          (record s { leader = waiting }, rw last refl))
  ]
  go_on waiting is lim meets = inl (waiting_goes s.round s.own meets refl is)
  go_on (gathering i) is lim meets = elim (Bool-cases (ltb i m)) [
    | inl more ↦ inl (
        lock_or_other (CanStep nb_meta_repet m s) s.father_lock
          (λ pos.
            let (s', ran) =
              taken s.father_lock
                (λ rest. record s { leader = gathering (i + 1); father_lock = rest }) pos in
            leader_goes nb_meta_repet m s (gathering i) is (s', rw more ran))
          (λ blocked. gathering_goes s.round i (ltb→lt i m more) meets blocked))
    | inr last ↦ inl (
        leader_goes nb_meta_repet m s (gathering i) is
          (record s { leader = ending 0 }, rw last refl))
  ]
  go_on (ending i) is lim meets = elim (Bool-cases (ltb i m)) [
    | inl more ↦ inl (
        leader_goes nb_meta_repet m s (ending i) is (
          record s { leader = ending (i + 1); process_end_lock = s.process_end_lock + 1 },
          rw more refl,
        ))
    | inr last ↦
        inl
          (leader_goes nb_meta_repet m s (ending i) is (stop_measure nb_meta_repet s, rw last refl))
  ]
  go_on through is lim (idle, over, c) =
      elim (all_or_one {C = CanStep nb_meta_repet m s} (λ (t : Process). t.phase ≡ finished)
        s.others
        (λ k t at.
          elim (Calm-one s.round 0 s.own k t c at (
            no_post all_rounds s.round t.phase t.evaluated
              (All-get_elem? (Early all_rounds s.round) s.others k c.all at) over)) [
                | inl goes ↦ inl goes
                | inr (done, _) ↦ inr done
              ])) [
                | inl goes ↦ inl goes
                | inr done ↦ inr (inl (record { leads = is; others = done }))
              ]
  go_on exited is lim meets = absurd (alive is)

-- In every reachable state in which no thread has ended the program by an `exit`, whatever the order of
-- the steps and whichever children are killed wherever: a step is possible, or every thread is behind
-- its loops, or the leader's own child has been killed and the leader waits in vain at m_fatherLock for
-- the children to be ready, with fewer posts taken than there are children.
pub never_deadlocked :
    (nb_meta_repet others : ℕ) {s : State}
    → Reachable nb_meta_repet others s
    → s.leader ≢ exited
    → CanStep nb_meta_repet others s ⊎ (IsOver s ⊎ IsStranded others s)
never_deadlocked nb m {s} reached alive =
    let inv : Inv nb m s = Reachable-Inv nb m reached in
    go_on nb m s inv.size alive s.leader refl inv.limit inv.meets
