-- ===== src/ProgramRunner/Invariant/Child.antt =====
-- The steps of the leader's child, and the start of an evaluation.
use lpowerprobe.Common.{ℕ, suc, ◌+◌, ◌≡◌, ◌≢◌, ◌≤◌, Bool, true, false, List, arith, if◌then◌else◌}
use lpowerprobe.Common.Weight.{weight}
use lpowerprobe.ProgramRunner.{
  Phase, before_fork, before_post, at_process_lock, in_program, ended, crashed, Process, Leader,
  beginning, waiting, through, exited, collecting, releasing, gathering, ending,
}
use lpowerprobe.ProgramRunner.Invariant.{lock_at, turn_at, may_at, at_lock, has_post, Meets}

module _ (total m r : ℕ) (ts : List Process) (fl pl el : ℕ) where
  pub own_posts :
      (leader : Leader)
      → Meets total m r leader before_post ts fl pl el
      → Meets total m r leader at_process_lock ts (fl + 1) pl el
  own_posts beginning (idle, more, c) = absurd (cc)
  own_posts (collecting i) (le, more, forked, c) =
      let ready = c.ready in
      let posted = c.by_posted in
      (
        le,
        more,
        tt,
        record {
          all = c.all;
          shut = c.shut;
          ready = omega (arith, ready);
          by_posted = omega (arith, posted);
          leaving = c.leaving;
        },
      )
  own_posts (releasing i) (le, released, b) = absurd released
  own_posts waiting (released, b) = absurd released
  own_posts (gathering i) (le, idle, b) = absurd (cc)
  own_posts (ending i) (le, idle, c) = absurd (cc)
  own_posts through (idle, over, c) = absurd (cc)
  own_posts exited h = tt

  pub own_takes :
      (leader : Leader)
      → Meets total m r leader at_process_lock ts fl (suc pl) el
      → Meets total m r leader in_program ts fl pl el
  own_takes beginning (idle, more, c) = absurd (cc)
  own_takes (collecting i) (le, more, forked, c) = absurd (omega (arith, c.shut))
  own_takes (releasing i) (le, released, b) =
      let turns = b.turns in
      let had = b.taken in
      (
        le,
        tt,
        record {
          all = b.all;
          shut = b.shut;
          turns = omega (arith, turns);
          taken = omega (arith, had);
          behind = b.behind;
        },
      )
  own_takes waiting (released, b) =
      let turns = b.turns in
      let had = b.taken in
      (
        tt,
        record {
          all = b.all;
          shut = b.shut;
          turns = omega (arith, turns);
          taken = omega (arith, had);
          behind = b.behind;
        },
      )
  own_takes (gathering i) (le, idle, b) = absurd (cc)
  own_takes (ending i) (le, idle, c) = absurd (cc)
  own_takes through (idle, over, c) = absurd (cc)
  own_takes exited h = tt

  pub own_ends :
      (ok : Bool) (leader : Leader)
      → Meets total m r leader in_program ts fl pl el
      → Meets total m r leader (if ok then ended else crashed) ts fl pl el
  own_ends ok beginning (idle, more, c) = absurd (cc)
  own_ends ok (collecting i) (le, more, forked, c) = absurd forked
  own_ends true (releasing i) (le, released, b) =
      let turns = b.turns in
      let had = b.taken in
      (
        le,
        tt,
        record {
          all = b.all;
          shut = b.shut;
          turns = omega (arith, turns);
          taken = omega (arith, had);
          behind = b.behind;
        },
      )
  own_ends false (releasing i) (le, released, b) =
      let turns = b.turns in
      let had = b.taken in
      (
        le,
        tt,
        record {
          all = b.all;
          shut = b.shut;
          turns = omega (arith, turns);
          taken = omega (arith, had);
          behind = b.behind;
        },
      )
  own_ends true waiting (released, b) =
      let turns = b.turns in
      let had = b.taken in
      (
        tt,
        record {
          all = b.all;
          shut = b.shut;
          turns = omega (arith, turns);
          taken = omega (arith, had);
          behind = b.behind;
        },
      )
  own_ends false waiting (released, b) =
      let turns = b.turns in
      let had = b.taken in
      (
        tt,
        record {
          all = b.all;
          shut = b.shut;
          turns = omega (arith, turns);
          taken = omega (arith, had);
          behind = b.behind;
        },
      )
  own_ends ok (gathering i) (le, idle, b) = absurd (cc)
  own_ends ok (ending i) (le, idle, c) = absurd (cc)
  own_ends ok through (idle, over, c) = absurd (cc)
  own_ends ok exited h = tt

  -- A child that is killed before the program.
  pub own_killed :
      (own : Phase) (leader : Leader)
      → lock_at own ≤ 1
      → turn_at own ≡ 0
      → may_at own ≡ 0
      → own ≢ before_fork
      → Meets total m r leader own ts fl pl el
      → Meets total m r leader crashed ts fl pl el
  own_killed own beginning small no_turn no_may begun (idle, more, c) = absurd (begun idle)
  own_killed own (collecting i) small no_turn no_may begun (le, more, forked, c) =
      let ready = c.ready in
      let posted = c.by_posted in
      (
        le,
        more,
        tt,
        record {
          all = c.all;
          shut = c.shut;
          ready = omega (arith, ready, small);
          by_posted = omega (arith, posted);
          leaving = c.leaving;
        },
      )
  own_killed own (releasing i) small no_turn no_may begun (le, released, b) =
      let turns = b.turns in
      let had = b.taken in
      (
        le,
        tt,
        record {
          all = b.all;
          shut = b.shut;
          turns = omega (arith, turns, no_turn);
          taken = omega (arith, had, no_may);
          behind = b.behind;
        },
      )
  own_killed own waiting small no_turn no_may begun (released, b) =
      let turns = b.turns in
      let had = b.taken in
      (
        tt,
        record {
          all = b.all;
          shut = b.shut;
          turns = omega (arith, turns, no_turn);
          taken = omega (arith, had, no_may);
          behind = b.behind;
        },
      )
  own_killed own (gathering i) small no_turn no_may begun (le, idle, b) = absurd (begun idle)
  own_killed own (ending i) small no_turn no_may begun (le, idle, c) = absurd (begun idle)
  own_killed own through small no_turn no_may begun (idle, over, c) = absurd (begun idle)
  own_killed own exited small no_turn no_may begun h = tt

  pub begins :
      (own : Phase)
      → Meets total m r beginning own ts fl pl el
      → Meets total m r (collecting 0) before_post ts fl pl el
  begins own (idle, more, c) =
      let ready : fl + 0 ≤ weight at_lock ts + 0 = rw idle at c.ready in
      let posted : weight has_post ts + 0 ≤ fl + 0 = rw idle at c.by_posted in
      (
        omega arith,
        more,
        tt,
        record {
          all = c.all;
          shut = c.shut;
          ready = omega (arith, ready);
          by_posted = omega (arith, posted);
          leaving = c.leaving;
        },
      )
