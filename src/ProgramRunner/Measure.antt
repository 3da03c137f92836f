-- ===== src/ProgramRunner/Measure.antt =====
-- Each step goes on towards the end of the evaluations.
use lpowerprobe.Common.{
  some_injective, ◌≤◌, List, ◌||◌, true, false, ℕ, ◌+◌, ◌*◌, ◌<◌, ◌≡◌, refl, ap, Bool, some,
  get_elem?, set, arith, inl, inr, Bool-cases, Option-cases, ltb, if◌then◌else◌,
}
use lpowerprobe.Common.Weight.{weight, weight-set}
use lpowerprobe.KernelRunner.{evaluations}
use lpowerprobe.KernelRunner.Invariant.Kept.{sem_wait-some}
use lpowerprobe.ProgramRunner.{
  is_alive, acts, exits, Phase, before_fork, before_post, at_process_lock, in_program, ended,
  at_end_lock, finished, crashed, Process, Leader, beginning, waiting, through, exited, collecting,
  releasing, gathering, ending, State, at_loop, other_move, other_step, own_move, own_step,
  wait_own, stop_measure, leader_move, leader_step, Step, by_other, by_own, by_leader,
}
use lpowerprobe.ProgramRunner.Invariant.{Meets, Inv}
use lpowerprobe.ProgramRunner.Invariant.Others.{acted}

abbrev pub rank : Phase → ℕ
rank before_fork = 0
rank before_post = 1
rank at_process_lock = 2
rank in_program = 3
rank ended = 4
rank crashed = 4
rank at_end_lock = 5
rank finished = 0

-- How far a thread is.
abbrev pub way : Process → ℕ
way process = 6 * process.evaluated + rank process.phase

-- How far the leader is in an evaluation.
abbrev pub lead : ℕ → Leader → ℕ
lead m beginning = 0
lead m (collecting i) = 1 + i
lead m (releasing i) = m + 3 + i
lead m waiting = 2 * m + 5
lead m exited = 4 * m + 16
lead m (gathering i) = 2 * m + 10 + i
lead m (ending i) = 3 * m + 11 + i
lead m through = 0

abbrev pub measure : ℕ → State → ℕ
measure m s = s.round * (4 * m + 12) + lead m s.leader + rank s.own + weight way s.others

later :
    (m : ℕ) (s : State) (next : State) {s' : State}
    → measure m s < measure m next
    → some next ≡ some s'
    → measure m s < measure m s'
later m s next lt ran = omega (arith, lt, ap (measure m) (some_injective ran))

pub lead-le :
    (total m r : ℕ) (leader : Leader) (own : Phase) (ts : List Process) (fl pl el : ℕ)
    → Meets total m r leader own ts fl pl el
    → is_alive leader ≡ true
    → lead m leader ≤ 4 * m + 11
lead-le total m r beginning own ts fl pl el meets alive = omega arith
lead-le total m r (collecting i) own ts fl pl el (le, more, forked, c) alive = omega (arith, le)
lead-le total m r (releasing i) own ts fl pl el (le, released, b) alive = omega (arith, le)
lead-le total m r waiting own ts fl pl el meets alive = omega arith
lead-le total m r (gathering i) own ts fl pl el (le, idle, b) alive = omega (arith, le)
lead-le total m r (ending i) own ts fl pl el (le, idle, c) alive = omega (arith, le)
lead-le total m r through own ts fl pl el meets alive = omega arith
lead-le total m r exited own ts fl pl el meets alive = absurd (cc)

alive_or_child : (leader : Leader) → (is_alive leader || false) ≡ true → is_alive leader ≡ true
alive_or_child exited can = absurd (cc)
alive_or_child beginning can = refl
alive_or_child (collecting i) can = refl
alive_or_child (releasing i) can = refl
alive_or_child waiting can = refl
alive_or_child (gathering i) can = refl
alive_or_child (ending i) can = refl
alive_or_child through can = refl

module _ (m : ℕ) (s : State)
    (bounded : is_alive s.leader ≡ true → lead m s.leader ≤ 4 * m + 11) where
  on_other :
      (k : ℕ) (t t' : Process) (fl pl el : ℕ) {s' : State}
      → get_elem? s.others k ≡ some t
      → way t < way t'
      → some (record s {
        others = set s.others k t';
        father_lock = fl;
        process_lock = pl;
        process_end_lock = el;
      })
        ≡ some s'
      → measure m s < measure m s'
  on_other k t t' fl pl el at lt ran =
      later m s _ (omega (arith, lt, weight-set way s.others k t' at)) ran

  end_on : (ok : Bool) → 3 < rank (if ok then ended else crashed)
  end_on true = omega arith
  end_on false = omega arith

  leave_on : (total e : ℕ) → 6 * e + 5 < 6 * (e + 1) + rank (at_loop total (e + 1))
  leave_on total e = omega arith

  -- The end of the program comes behind everything that the leader does.
  exits_on :
      {s' : State}
      → is_alive s.leader ≡ true
      → some (exits s) ≡ some s'
      → measure m s < measure m s'
  exits_on alive ran = later m s (exits s) (omega (arith, bounded alive)) ran

  other_moves_on :
      (total k : ℕ) (ok : Bool) (p : Phase) (e : ℕ) {s' : State}
      → acts s.leader p ≡ true
      → get_elem? s.others k ≡ some (record { phase = p; evaluated = e })
      → other_move total k ok s p e ≡ some s'
      → measure m s < measure m s'
  unfolding other_move
  other_moves_on total k true before_fork e can at ran =
      on_other k _ _ s.father_lock s.process_lock s.process_end_lock at (omega arith) ran
  other_moves_on total k false before_fork e can at ran = exits_on (alive_or_child s.leader can) ran
  other_moves_on total k false before_post e can at ran =
      on_other k _ _ s.father_lock s.process_lock s.process_end_lock at (omega arith) ran
  other_moves_on total k true before_post e can at ran =
      on_other k _ _ (s.father_lock + 1) s.process_lock s.process_end_lock at (omega arith) ran
  other_moves_on total k false at_process_lock e can at ran =
      on_other k _ _ s.father_lock s.process_lock s.process_end_lock at (omega arith) ran
  other_moves_on total k true at_process_lock e can at ran =
      let (rest, open_lock, ran') = sem_wait-some s.process_lock _ ran in
      on_other k _ _ s.father_lock rest s.process_end_lock at (omega arith) ran'
  other_moves_on total k ok in_program e can at ran =
      on_other k _ _ s.father_lock s.process_lock s.process_end_lock at (omega (arith, end_on ok))
        ran
  other_moves_on total k ok ended e can at ran =
      on_other k _ _ (s.father_lock + 1) s.process_lock s.process_end_lock at (omega arith) ran
  other_moves_on total k ok at_end_lock e can at ran =
      let (rest, open_lock, ran') = sem_wait-some s.process_end_lock _ ran in
      on_other k _ _ s.father_lock s.process_lock rest at (leave_on total e) ran'
  other_moves_on total k ok finished e can at ran = absurd (cc)
  other_moves_on total k ok crashed e can at ran = exits_on (alive_or_child s.leader can) ran

  own_moves_on :
      (ok : Bool) (own : Phase) {s' : State}
      → s.own ≡ own
      → own_move ok s own ≡ some s'
      → measure m s < measure m s'
  unfolding own_move
  own_moves_on false before_post is ran =
      later m s (record s { own = crashed }) (omega (arith, ap rank is)) ran
  own_moves_on true before_post is ran =
      later m s (record s { own = at_process_lock; father_lock = s.father_lock + 1 })
        (omega (arith, ap rank is)) ran
  own_moves_on false at_process_lock is ran =
      later m s (record s { own = crashed }) (omega (arith, ap rank is)) ran
  own_moves_on true at_process_lock is ran =
      let (rest, open_lock, ran') = sem_wait-some s.process_lock _ ran in
      later m s (record s { own = in_program; process_lock = rest }) (omega (arith, ap rank is))
        ran'
  own_moves_on ok in_program is ran =
      later m s (record s { own = if ok then ended else crashed })
        (omega (arith, ap rank is, end_on ok)) ran
  own_moves_on ok before_fork is ran = absurd (cc)
  own_moves_on ok ended is ran = absurd (cc)
  own_moves_on ok at_end_lock is ran = absurd (cc)
  own_moves_on ok finished is ran = absurd (cc)
  own_moves_on ok crashed is ran = absurd (cc)

  waits_on :
      (own : Phase) {s' : State}
      → s.leader ≡ waiting
      → s.own ≡ own
      → wait_own s own ≡ some s'
      → measure m s < measure m s'
  unfolding wait_own
  waits_on ended at is ran =
      later m s (record s { leader = gathering 0; own = before_fork })
        (omega (arith, ap rank is, ap (lead m) at)) ran
  waits_on crashed at is ran = exits_on (rw at refl) ran
  waits_on before_fork at is ran = absurd (cc)
  waits_on before_post at is ran = absurd (cc)
  waits_on at_process_lock at is ran = absurd (cc)
  waits_on in_program at is ran = absurd (cc)
  waits_on at_end_lock at is ran = absurd (cc)
  waits_on finished at is ran = absurd (cc)

  leader_moves_on :
      (nb_meta_repet total r : ℕ) (ok : Bool) (leader : Leader) {s' : State}
      → s.leader ≡ leader
      → Meets total m r leader s.own s.others s.father_lock s.process_lock s.process_end_lock
      → leader_move nb_meta_repet m ok s leader ≡ some s'
      → measure m s < measure m s'
  unfolding leader_move stop_measure
  leader_moves_on nb total r true beginning is (idle, more, c) ran =
      later m s (record s { leader = collecting 0; own = before_post; measuring = true })
        (omega (arith, ap rank idle, ap (lead m) is)) ran
  leader_moves_on nb total r false beginning is meets ran = exits_on (rw is refl) ran
  leader_moves_on nb total r ok (collecting i) is (le, more', forked, c) ran =
      elim (Bool-cases (ltb i (m + 1))) [
        | inl more ↦
            let (rest, open_lock, ran') = sem_wait-some s.father_lock _ (rw more at ran) in
            later m s (record s { leader = collecting (i + 1); father_lock = rest })
              (omega (arith, ap (lead m) is)) ran'
        | inr last ↦
            later m s (record s { leader = releasing 0 }) (omega (arith, ap (lead m) is, le))
              (rw last at ran)
      ]
  leader_moves_on nb total r ok (releasing i) is (le, released, b) ran =
      elim (Bool-cases (ltb i (m + 1))) [
        | inl more ↦
            later m s (record s { leader = releasing (i + 1); process_lock = s.process_lock + 1 })
              (omega (arith, ap (lead m) is)) (rw more at ran)
        | inr last ↦
            later m s (record s { leader = waiting }) (omega (arith, ap (lead m) is, le))
              (rw last at ran)
      ]
  leader_moves_on nb total r ok waiting is meets ran = waits_on s.own is refl ran
  leader_moves_on nb total r ok (gathering i) is (le, idle, b) ran = elim (Bool-cases (ltb i m)) [
    | inl more ↦
        let (rest, open_lock, ran') = sem_wait-some s.father_lock _ (rw more at ran) in
        later m s (record s { leader = gathering (i + 1); father_lock = rest })
          (omega (arith, ap (lead m) is)) ran'
    | inr last ↦
        later m s (record s { leader = ending 0 }) (omega (arith, ap (lead m) is, le))
          (rw last at ran)
  ]
  leader_moves_on nb total r ok (ending i) is (le, idle, c) ran = elim (Bool-cases (ltb i m)) [
    | inl more ↦
        later m s (record s { leader = ending (i + 1); process_end_lock = s.process_end_lock + 1 })
          (omega (arith, ap (lead m) is)) (rw more at ran)
    | inr last ↦ later m s (stop_measure nb s) (omega (arith, ap (lead m) is, le)) (rw last at ran)
  ]
  leader_moves_on nb total r ok through is meets ran = absurd (cc)
  leader_moves_on nb total r ok exited is meets ran = absurd (cc)

lead_bounded :
    (nb_meta_repet m : ℕ) (s : State)
    → Inv nb_meta_repet m s
    → is_alive s.leader ≡ true
    → lead m s.leader ≤ 4 * m + 11
lead_bounded nb m s inv =
    lead-le (evaluations nb) m s.round s.leader s.own s.others s.father_lock s.process_lock
      s.process_end_lock inv.meets

pub Step-moves_on :
    (nb_meta_repet m : ℕ) {s s' : State}
    → Inv nb_meta_repet m s
    → Step nb_meta_repet m s s'
    → measure m s < measure m s'
unfolding other_step own_step leader_step
Step-moves_on nb m {s} inv (by_other k ok ran) = elim (Option-cases (get_elem? s.others k)) [
  | inl missing ↦ absurd (ground (arith, missing, ran))
  | inr (t, at) ↦
      let (can, ran') = acted (acts s.leader t.phase) _ (rw at at ran) in
      other_moves_on m s (lead_bounded nb m s inv) (evaluations nb) k ok t.phase t.evaluated can at
        ran'
]
Step-moves_on nb m {s} inv (by_own ok ran) =
    own_moves_on m s (lead_bounded nb m s inv) ok s.own refl ran
Step-moves_on nb m {s} inv (by_leader ok ran) =
    leader_moves_on m s (lead_bounded nb m s inv) nb (evaluations nb) s.round ok s.leader refl
      inv.meets ran
