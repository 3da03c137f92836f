-- ===== src/ProgramRunner/Termination.antt =====
-- Every run ends.
use native.Mathlib.Nat.{mul-le-mul_right}
use lpowerprobe.Common.{
  some_injective, ◌≤◌, List, true, false, ℕ, suc, ◌+◌, ◌*◌, ◌≡◌, refl, ◌∙◌, sym, ap, Bool, some,
  get_elem?, set, All, All-imp, All-set, All-get_elem?, All-replicate, arith, inl, inr, Bool-cases,
  Option-cases, ltb, ltb→lt,
}
use lpowerprobe.Common.Weight.{weight, weight-le-length}
use lpowerprobe.KernelRunner.{evaluations}
use lpowerprobe.KernelRunner.Invariant.Kept.{sem_wait-some}
use lpowerprobe.ProgramRunner.{
  is_alive, acts, exits, Phase, before_fork, before_post, at_process_lock, in_program, ended,
  at_end_lock, finished, crashed, Process, Leader, beginning, waiting, through, exited, collecting,
  releasing, gathering, ending, State, at_loop, initial, other_move, other_step, own_move, own_step,
  wait_own, stop_measure, leader_move, leader_step, by_other, by_own, by_leader, Reachable, first,
  then_step,
}
use lpowerprobe.ProgramRunner.Invariant.{Meets, Inv}
use lpowerprobe.ProgramRunner.Invariant.Others.{acted}
use lpowerprobe.ProgramRunner.Invariant.Kept.{Reachable-Inv}
use lpowerprobe.ProgramRunner.Measure.{rank, way, lead, measure, lead-le, Step-moves_on}

-- A thread evaluates no more than it is asked to.
abbrev rounds_left : Phase → ℕ
rounds_left finished = 0
rounds_left _ = 1

abbrev Fits : ℕ → Process → Type 0
Fits total process = process.evaluated + rounds_left process.phase ≤ total

at_loop-Fits :
    (total e : ℕ) → e ≤ total → Fits total (record { phase = at_loop total e; evaluated = e })
at_loop-Fits total e le = elim (Bool-cases (ltb e total)) [
  | inl more ↦ rw more (omega (arith, ltb→lt e total more))
  | inr last ↦ rw last (omega (arith, le))
]

module _ (total k : ℕ) (s : State) (fit : All (Fits total) s.others) where
  set-Fits :
      (t' : Process) (next : State) {s' : State}
      → Fits total t'
      → next.others ≡ set s.others k t'
      → some next ≡ some s'
      → All (Fits total) s'.others
  set-Fits t' next {s'} fit' is ran =
      let same : s'.others ≡ set s.others k t' =
        ap (λ (s : State). s.others) (sym (some_injective ran)) ∙ is in
      rw same (All-set (Fits total) s.others k t' fit fit')

  same_others :
      (next : State) {s' : State}
      → next.others ≡ s.others
      → some next ≡ some s'
      → All (Fits total) s'.others
  same_others next {s'} is ran =
      let same : s'.others ≡ s.others =
        ap (λ (s : State). s.others) (sym (some_injective ran)) ∙ is in
      rw same fit

  other_move-Fits :
      (ok : Bool) (p : Phase) (e : ℕ) {s' : State}
      → get_elem? s.others k ≡ some (record { phase = p; evaluated = e })
      → other_move total k ok s p e ≡ some s'
      → All (Fits total) s'.others
  unfolding other_move
  other_move-Fits true before_fork e at ran =
      set-Fits _ _ (All-get_elem? (Fits total) s.others k fit at) refl ran
  other_move-Fits false before_fork e at ran = same_others (exits s) refl ran
  other_move-Fits false before_post e at ran =
      set-Fits _ _ (All-get_elem? (Fits total) s.others k fit at) refl ran
  other_move-Fits true before_post e at ran =
      set-Fits _ _ (All-get_elem? (Fits total) s.others k fit at) refl ran
  other_move-Fits false at_process_lock e at ran =
      set-Fits _ _ (All-get_elem? (Fits total) s.others k fit at) refl ran
  other_move-Fits true at_process_lock e at ran =
      let (rest, open_lock, ran') = sem_wait-some s.process_lock _ ran in
      set-Fits _ _ (All-get_elem? (Fits total) s.others k fit at) refl ran'
  other_move-Fits true in_program e at ran =
      set-Fits _ _ (All-get_elem? (Fits total) s.others k fit at) refl ran
  other_move-Fits false in_program e at ran =
      set-Fits _ _ (All-get_elem? (Fits total) s.others k fit at) refl ran
  other_move-Fits ok ended e at ran =
      set-Fits _ _ (All-get_elem? (Fits total) s.others k fit at) refl ran
  other_move-Fits ok at_end_lock e at ran =
      let (rest, open_lock, ran') = sem_wait-some s.process_end_lock _ ran in
      set-Fits _ _ (at_loop-Fits total (e + 1) (All-get_elem? (Fits total) s.others k fit at)) refl
        ran'
  other_move-Fits ok finished e at ran = absurd (cc)
  other_move-Fits ok crashed e at ran = same_others (exits s) refl ran

-- The leader and its child leave the others as they are.
own_same :
    (ok : Bool) (s : State) (own : Phase) {s' : State}
    → own_move ok s own ≡ some s'
    → s'.others ≡ s.others
unfolding own_move
own_same false s before_post ran = ap (λ (s : State). s.others) (sym (some_injective ran))
own_same true s before_post ran = ap (λ (s : State). s.others) (sym (some_injective ran))
own_same false s at_process_lock ran = ap (λ (s : State). s.others) (sym (some_injective ran))
own_same true s at_process_lock ran =
    let (rest, open_lock, ran') = sem_wait-some s.process_lock _ ran in
    ap (λ (s : State). s.others) (sym (some_injective ran'))
own_same ok s in_program ran = ap (λ (s : State). s.others) (sym (some_injective ran))
own_same ok s before_fork ran = absurd (cc)
own_same ok s ended ran = absurd (cc)
own_same ok s at_end_lock ran = absurd (cc)
own_same ok s finished ran = absurd (cc)
own_same ok s crashed ran = absurd (cc)

wait_same : (s : State) (own : Phase) {s' : State} → wait_own s own ≡ some s' → s'.others ≡ s.others
unfolding wait_own
wait_same s ended ran = ap (λ (s : State). s.others) (sym (some_injective ran))
wait_same s crashed ran = ap (λ (s : State). s.others) (sym (some_injective ran))
wait_same s before_fork ran = absurd (cc)
wait_same s before_post ran = absurd (cc)
wait_same s at_process_lock ran = absurd (cc)
wait_same s in_program ran = absurd (cc)
wait_same s at_end_lock ran = absurd (cc)
wait_same s finished ran = absurd (cc)

leader_same :
    (nb_meta_repet m : ℕ) (ok : Bool) (s : State) (leader : Leader) {s' : State}
    → leader_move nb_meta_repet m ok s leader ≡ some s'
    → s'.others ≡ s.others
unfolding leader_move stop_measure
leader_same nb m true s beginning ran = ap (λ (s : State). s.others) (sym (some_injective ran))
leader_same nb m false s beginning ran = ap (λ (s : State). s.others) (sym (some_injective ran))
leader_same nb m ok s (collecting i) ran = elim (Bool-cases (ltb i (m + 1))) [
  | inl more ↦
      let (rest, open_lock, ran') = sem_wait-some s.father_lock _ (rw more at ran) in
      ap (λ (s : State). s.others) (sym (some_injective ran'))
  | inr last ↦ ap (λ (s : State). s.others) (sym (some_injective (rw last at ran)))
]
leader_same nb m ok s (releasing i) ran = elim (Bool-cases (ltb i (m + 1))) [
  | inl more ↦ ap (λ (s : State). s.others) (sym (some_injective (rw more at ran)))
  | inr last ↦ ap (λ (s : State). s.others) (sym (some_injective (rw last at ran)))
]
leader_same nb m ok s waiting ran = wait_same s s.own ran
leader_same nb m ok s (gathering i) ran = elim (Bool-cases (ltb i m)) [
  | inl more ↦
      let (rest, open_lock, ran') = sem_wait-some s.father_lock _ (rw more at ran) in
      ap (λ (s : State). s.others) (sym (some_injective ran'))
  | inr last ↦ ap (λ (s : State). s.others) (sym (some_injective (rw last at ran)))
]
leader_same nb m ok s (ending i) ran = elim (Bool-cases (ltb i m)) [
  | inl more ↦ ap (λ (s : State). s.others) (sym (some_injective (rw more at ran)))
  | inr last ↦ ap (λ (s : State). s.others) (sym (some_injective (rw last at ran)))
]
leader_same nb m ok s through ran = absurd (cc)
leader_same nb m ok s exited ran = absurd (cc)

Reachable-Fits :
    (nb_meta_repet m : ℕ) {s : State}
    → Reachable nb_meta_repet m s
    → All (Fits (evaluations nb_meta_repet)) s.others
unfolding initial other_step own_step leader_step
Reachable-Fits nb m first =
    All-replicate (Fits (evaluations nb)) m _ (at_loop-Fits (evaluations nb) 0 (omega arith))
Reachable-Fits nb m (then_step {s} before (by_other k ok ran)) =
    elim (Option-cases (get_elem? s.others k)) [
      | inl missing ↦ absurd (ground (arith, missing, ran))
      | inr (t, at) ↦
          other_move-Fits (evaluations nb) k s (Reachable-Fits nb m before) ok t.phase t.evaluated
            at (acted (acts s.leader t.phase) _ (rw at at ran)).1
    ]
Reachable-Fits nb m (then_step {s} before (by_own ok ran)) =
    rw (own_same ok s s.own ran) (Reachable-Fits nb m before)
Reachable-Fits nb m (then_step {s} before (by_leader ok ran)) =
    rw (leader_same nb m ok s s.leader ran) (Reachable-Fits nb m before)

rank-le : (p : Phase) → rank p ≤ 5
rank-le before_fork = omega arith
rank-le before_post = omega arith
rank-le at_process_lock = omega arith
rank-le in_program = omega arith
rank-le ended = omega arith
rank-le at_end_lock = omega arith
rank-le finished = omega arith
rank-le crashed = omega arith

lead-le_exited :
    (total m r : ℕ) (leader : Leader) (own : Phase) (ts : List Process) (fl pl el : ℕ)
    → Meets total m r leader own ts fl pl el
    → lead m leader ≤ 4 * m + 16
lead-le_exited total m r leader own ts fl pl el meets = elim (Bool-cases (is_alive leader)) [
  | inl alive ↦ omega (arith, lead-le total m r leader own ts fl pl el meets alive)
  | inr over ↦ over_le leader over
]
  where
    over_le : (l : Leader) → is_alive l ≡ false → lead m l ≤ 4 * m + 16
    over_le exited over = omega arith
    over_le beginning over = absurd (cc)
    over_le (collecting i) over = absurd (cc)
    over_le (releasing i) over = absurd (cc)
    over_le waiting over = absurd (cc)
    over_le (gathering i) over = absurd (cc)
    over_le (ending i) over = absurd (cc)
    over_le through over = absurd (cc)

-- The steps that lead to a state.
abbrev pub step_count : {nb_meta_repet m : ℕ} {s : State} → Reachable nb_meta_repet m s → ℕ
step_count first = 0
step_count (then_step before last) = suc (step_count before)

step_count-le-measure :
    (nb_meta_repet m : ℕ) {s : State} (reached : Reachable nb_meta_repet m s)
    → step_count reached ≤ measure m s
step_count-le-measure nb m first = omega arith
step_count-le-measure nb m (then_step before last) =
    omega (
      arith,
      step_count-le-measure nb m before,
      Step-moves_on nb m (Reachable-Inv nb m before) last,
    )

-- A number of steps that no run exceeds.
abbrev pub most_steps : ℕ → ℕ → ℕ
most_steps nb_meta_repet m =
    evaluations nb_meta_repet * (4 * m + 12)
    + (4 * m + 21)
    + m * (6 * evaluations nb_meta_repet + 5)

-- Whatever the order of the steps, and whether or not forks fail and children are killed, no run is
-- longer than 4 m + 12 steps for each evaluation, 6 more for each of the m other threads and each
-- evaluation, and 9 m + 21 more: every run ends.
pub step_count-le-most_steps :
    (nb_meta_repet others : ℕ) {s : State} (reached : Reachable nb_meta_repet others s)
    → step_count reached ≤ most_steps nb_meta_repet others
step_count-le-most_steps nb m {s} reached =
    let total = evaluations nb in
    let inv : Inv nb m s = Reachable-Inv nb m reached in
    let limit = inv.limit in
    let rounds : s.round * (4 * m + 12) ≤ total * (4 * m + 12) =
      mul-le-mul_right (4 * m + 12) (omega (arith, limit)) in
    let in_round =
      lead-le_exited total m s.round s.leader s.own s.others s.father_lock s.process_lock
        s.process_end_lock inv.meets in
    let each =
      All-imp (Fits total) (λ t. way t ≤ 6 * total + 5) s.others
        (λ t fit. omega (arith, fit, rank-le t.phase)) (Reachable-Fits nb m reached) in
    let all : weight way s.others ≤ m * (6 * total + 5) =
      rw (← inv.size) (weight-le-length way s.others (6 * total + 5) each) in
    omega (arith, step_count-le-measure nb m reached, rounds, in_round, rank-le s.own, all)
