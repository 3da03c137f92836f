-- ===== src/ProgramRunner/Invariant/Rounds.antt =====
-- When the leader goes from one of its loops to the next, all threads are at the same place.
use lpowerprobe.Common.{ℕ, ◌+◌, ◌≤◌, ◌≡◌, refl, List, [], ◌∷◌, length, All, arith}
use lpowerprobe.Common.Weight.{weight, weight-le}
use lpowerprobe.ProgramRunner.{
  Phase, before_fork, before_post, at_process_lock, in_program, ended, at_end_lock, finished,
  crashed, Process, waiting, collecting, releasing, gathering, ending,
}
use lpowerprobe.ProgramRunner.Invariant.{
  lock_at, turn_at, end_at, at_lock, has_turn, post_at, has_post, at_end, Early, Mid, IsForked,
  IsReleased, Meets,
}

pub lock_at-le : (p : Phase) → lock_at p ≤ 1
lock_at-le at_process_lock = omega arith
lock_at-le before_fork = omega arith
lock_at-le before_post = omega arith
lock_at-le in_program = omega arith
lock_at-le ended = omega arith
lock_at-le at_end_lock = omega arith
lock_at-le finished = omega arith
lock_at-le crashed = omega arith

pub end_at-le : (p : Phase) → end_at p ≤ 1
end_at-le at_process_lock = omega arith
end_at-le before_fork = omega arith
end_at-le before_post = omega arith
end_at-le in_program = omega arith
end_at-le ended = omega arith
end_at-le at_end_lock = omega arith
end_at-le finished = omega arith
end_at-le crashed = omega arith

ready_one :
    (total r : ℕ) (p : Phase) (e : ℕ)
    → Early total r (record { phase = p; evaluated = e })
    → lock_at p ≡ 1
    → Mid r (record { phase = p; evaluated = e }) × (turn_at p ≡ 0) × (end_at p ≡ 0)
ready_one total r at_process_lock e h is = (h.0, refl, refl)
ready_one total r before_fork e h is = absurd (omega (arith, is))
ready_one total r before_post e h is = absurd (omega (arith, is))
ready_one total r in_program e h is = absurd h
ready_one total r ended e h is = absurd h
ready_one total r at_end_lock e h is = absurd (omega (arith, is))
ready_one total r finished e h is = absurd (omega (arith, is))
ready_one total r crashed e h is = (h.0, refl, refl)

behind_one :
    (total r : ℕ) (p : Phase) (e : ℕ)
    → Mid r (record { phase = p; evaluated = e })
    → end_at p ≡ 1
    → Early total (r + 1) (record { phase = p; evaluated = e }) × (lock_at p ≡ 0) × (turn_at p ≡ 1)
behind_one total r at_end_lock e h is = (omega (arith, h), refl, refl)
behind_one total r at_process_lock e h is = absurd (omega (arith, is))
behind_one total r before_fork e h is = absurd h
behind_one total r before_post e h is = absurd h
behind_one total r in_program e h is = absurd (omega (arith, is))
behind_one total r ended e h is = absurd (omega (arith, is))
behind_one total r finished e h is = absurd h
behind_one total r crashed e h is = absurd (omega (arith, is))

all_ready :
    (total r : ℕ) (ts : List Process)
    → All (Early total r) ts
    → length ts ≤ weight at_lock ts
    → All (Mid r) ts × (weight has_turn ts ≡ 0) × (weight at_end ts ≡ 0)
all_ready total r [] early full = (tt, refl, refl)
all_ready total r (t ∷ ts) early full =
    let here = lock_at-le t.phase in
    let rest = weight-le at_lock ts (λ u. lock_at-le u.phase) in
    let (mid, no_turn, no_end) =
      ready_one total r t.phase t.evaluated early.0 (omega (arith, full, here, rest)) in
    let (mids, no_turns, no_ends) = all_ready total r ts early.1 (omega (arith, full, here)) in
    ((mid, mids), omega (arith, no_turn, no_turns), omega (arith, no_end, no_ends))

all_behind :
    (total r : ℕ) (ts : List Process)
    → All (Mid r) ts
    → length ts ≤ weight at_end ts
    → All (Early total (r + 1)) ts × (weight at_lock ts ≡ 0) × (weight has_turn ts ≡ length ts)
all_behind total r [] mid full = (tt, refl, refl)
all_behind total r (t ∷ ts) mid full =
    let here = end_at-le t.phase in
    let rest = weight-le at_end ts (λ u. end_at-le u.phase) in
    let (early, no_lock, turn) =
      behind_one total r t.phase t.evaluated mid.0 (omega (arith, full, here, rest)) in
    let (earlies, no_locks, turns) = all_behind total r ts mid.1 (omega (arith, full, here)) in
    ((early, earlies), omega (arith, no_lock, no_locks), omega (arith, turn, turns))

no_posts :
    (r : ℕ) (ts : List Process)
    → All (Mid r) ts
    → length ts ≤ weight at_end ts
    → weight has_post ts ≡ 0
no_posts r [] mid full = refl
no_posts r (t ∷ ts) mid full =
    let here = end_at-le t.phase in
    let rest = weight-le at_end ts (λ u. end_at-le u.phase) in
    let none_here = no_post t.phase (omega (arith, full, here, rest)) in
    let none_behind = no_posts r ts mid.1 (omega (arith, full, here)) in
    omega (arith, none_here, none_behind)
  where
    no_post : (p : Phase) → end_at p ≡ 1 → post_at p ≡ 0
    no_post at_process_lock is = absurd (omega (arith, is))
    no_post at_end_lock is = refl
    no_post before_fork is = refl
    no_post before_post is = refl
    no_post in_program is = refl
    no_post ended is = refl
    no_post finished is = refl
    no_post crashed is = refl

own_ready : (own : Phase) → IsForked own → lock_at own ≡ 1 → IsReleased own × (turn_at own ≡ 0)
own_ready at_process_lock forked is = (tt, refl)
own_ready before_post forked is = absurd (omega (arith, is))
own_ready before_fork forked is = absurd forked
own_ready in_program forked is = absurd forked
own_ready ended forked is = absurd forked
own_ready at_end_lock forked is = absurd forked
own_ready finished forked is = absurd forked
own_ready crashed forked is = (tt, refl)

module _ (total m r : ℕ) (ts : List Process) (size : length ts ≡ m) (fl pl el : ℕ) where
  pub to_releasing :
      (i : ℕ) (own : Phase)
      → m + 1 ≤ i
      → Meets total m r (collecting i) own ts fl pl el
      → Meets total m r (releasing 0) own ts fl pl el
  to_releasing i own over (le, more, forked, c) =
      let here = lock_at-le own in
      let rest = weight-le at_lock ts (λ u. lock_at-le u.phase) in
      let ready = c.ready in
      let leaving = c.leaving in
      let shut = c.shut in
      let (mid, no_turn, no_end) = all_ready total r ts c.all (omega (arith, ready, here, size)) in
      let (released, own_turn) = own_ready own forked (omega (arith, ready, here, rest, size)) in
      (
        omega arith,
        released,
        record {
          all = mid;
          shut = omega (arith, leaving, no_end);
          turns = omega (arith, shut, no_turn, own_turn);
          taken = omega arith;
          behind = omega (arith, ready, no_end, here, rest, size);
        },
      )

  pub to_waiting :
      (i : ℕ) (own : Phase)
      → m + 1 ≤ i
      → Meets total m r (releasing i) own ts fl pl el
      → Meets total m r waiting own ts fl pl el
  to_waiting i own over (le, released, b) =
      let turns = b.turns in
      (
        released,
        record {
          all = b.all;
          shut = b.shut;
          turns = omega (arith, turns);
          taken = omega (arith, b.taken);
          behind = b.behind;
        },
      )

  pub to_gathering :
      Meets total m r waiting ended ts fl pl el
      → Meets total m r (gathering 0) before_fork ts fl pl el
  to_gathering (released, b) =
      let turns = b.turns in
      (
        omega arith,
        refl,
        record {
          all = b.all;
          shut = b.shut;
          turns = omega (arith, turns);
          taken = omega (arith, b.taken);
          behind = b.behind;
        },
      )

  pub to_ending :
      (i : ℕ) (own : Phase)
      → m ≤ i
      → Meets total m r (gathering i) own ts fl pl el
      → Meets total m r (ending 0) own ts fl pl el
  to_ending i own over (le, idle, b) =
      let turns = b.turns in
      let shut = b.shut in
      let behind = b.behind in
      let rest = weight-le at_end ts (λ u. end_at-le u.phase) in
      let (early, no_lock, turn) = all_behind total r ts b.all (omega (arith, behind, size)) in
      let no_own : lock_at own ≡ 0 = rw idle refl in
      let no_own_post : post_at own ≡ 0 = rw idle refl in
      let no_post : weight has_post ts ≡ 0 = no_posts r ts b.all (omega (arith, behind, size)) in
      (
        omega arith,
        idle,
        record {
          all = early;
          shut = omega (arith, turns, turn, size);
          ready = omega (arith, behind, no_lock, no_own, rest, size, le);
          by_posted = omega (arith, no_post, no_own_post);
          leaving = omega (arith, shut, behind, rest, size, over, le);
        },
      )
