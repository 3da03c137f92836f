-- ===== src/ProgramRunner/Invariant/Others.antt =====
-- The steps of the other threads and of their children keep the invariant.
use mathlib.Core.Path.{subst}
use lpowerprobe.KernelRunner.Invariant.Kept.{sem_wait-some}
use lpowerprobe.Common.{
  some_injective, Option, none, ℕ, suc, ◌+◌, ◌≡◌, ◌≤◌, refl, ◌∙◌, Bool, true, false, some, List,
  get_elem?, set, All-set, All-get_elem?, arith, inl, inr, Option-cases, Bool-cases, length-set,
  ltb, if◌then◌else◌, ltb→lt, ltb-false→le,
}
use lpowerprobe.Common.Weight.{weight-set}
use lpowerprobe.KernelRunner.{evaluations}
use lpowerprobe.ProgramRunner.{
  Phase, before_fork, before_post, at_process_lock, in_program, ended, at_end_lock, finished,
  crashed, Process, Leader, beginning, waiting, through, exited, collecting, releasing, gathering,
  ending, State, at_loop, other_move, other_step, exits, acts,
}
use lpowerprobe.ProgramRunner.Invariant.{
  at_lock, has_turn, has_post, may_turn, at_end, Early, Mid, Calm, Busy, Meets, Inv,
}

-- What a step of one process may change.
record Moves (total : ℕ) (t t' : Process) (fl pl el fl' pl' el' : ℕ) : Type 0 where
  calm :
      (r : ℕ)
      → Early total r t
      → pl ≡ 0
      → Early total r t'
        × (pl' ≡ 0)
        × (fl' + at_lock t ≤ fl + at_lock t')
        × (fl + has_post t' ≤ fl' + has_post t)
        × (el' + at_end t ≡ el + at_end t')
  busy :
      (r : ℕ)
      → Mid r t
      → el ≡ 0
      → Mid r t'
        × (el' ≡ 0)
        × (pl' + has_turn t' ≤ pl + has_turn t)
        × (pl + may_turn t ≤ pl' + may_turn t')
        × (fl' + at_end t ≡ fl + at_end t')

module _ (total k : ℕ) (t t' : Process) (ts : List Process) (at : get_elem? ts k ≡ some t)
    (fl pl el fl' pl' el' : ℕ) (moves : Moves total t t' fl pl el fl' pl' el') where
  Calm-set :
      (r got posted due : ℕ) (own : Phase)
      → Calm total r got posted due own ts fl pl el
      → Calm total r got posted due own (set ts k t') fl' pl' el'
  Calm-set r got posted due own c =
      let (early, shut, ready, posted, leaving) =
        moves.calm r (All-get_elem? (Early total r) ts k c.all at) c.shut in
      record {
        all = All-set (Early total r) ts k t' c.all early;
        shut = shut;
        ready = omega (arith, ready, c.ready, weight-set at_lock ts k t' at);
        by_posted = omega (arith, posted, c.by_posted, weight-set has_post ts k t' at);
        leaving = omega (arith, leaving, c.leaving, weight-set at_end ts k t' at);
      }

  Busy-set :
      (r released got : ℕ) (own : Phase)
      → Busy r released got own ts fl pl el
      → Busy r released got own (set ts k t') fl' pl' el'
  Busy-set r released got own b =
      let (mid, shut, turns, had, behind) =
        moves.busy r (All-get_elem? (Mid r) ts k b.all at) b.shut in
      record {
        all = All-set (Mid r) ts k t' b.all mid;
        shut = shut;
        turns = omega (arith, turns, b.turns, weight-set has_turn ts k t' at);
        taken = omega (arith, had, b.taken, weight-set may_turn ts k t' at);
        behind = omega (arith, behind, b.behind, weight-set at_end ts k t' at);
      }

  other_keeps :
      (m r : ℕ) (leader : Leader) (own : Phase)
      → Meets total m r leader own ts fl pl el
      → Meets total m r leader own (set ts k t') fl' pl' el'
  other_keeps m r beginning own (idle, more, c) = (idle, more, Calm-set r 0 0 0 own c)
  other_keeps m r (collecting i) own (le, more, forked, c) =
      (le, more, forked, Calm-set r i 0 0 own c)
  other_keeps m r (releasing i) own (le, released, b) = (le, released, Busy-set r i 0 own b)
  other_keeps m r waiting own (released, b) = (released, Busy-set r (m + 1) 0 own b)
  other_keeps m r (gathering i) own (le, idle, b) = (le, idle, Busy-set r m i own b)
  other_keeps m r (ending i) own (le, idle, c) = (le, idle, Calm-set (r + 1) 0 i m own c)
  other_keeps m r through own (idle, over, c) = (idle, over, Calm-set r 0 0 0 own c)
  other_keeps m r exited own h = tt

pub acted :
    (b : Bool) (o : Option State) {s' : State}
    → (if b then o else none) ≡ some s'
    → (b ≡ true) × (o ≡ some s')
acted true o ran = (refl, ran)
acted false o ran = absurd (cc)

module _ (total e fl pl el : ℕ) where
  fork-Moves :
      Moves total
        (record { phase = before_fork; evaluated = e })
        (record { phase = before_post; evaluated = e })
        fl
        pl
        el
        fl
        pl
        el
  fork-Moves = record {
    calm = λ r early shut. (early, shut, omega arith, omega arith, refl);
    busy = λ r mid shut. absurd mid;
  }

  post-Moves :
      Moves total
        (record { phase = before_post; evaluated = e })
        (record { phase = at_process_lock; evaluated = e })
        fl
        pl
        el
        (fl + 1)
        pl
        el
  post-Moves = record {
    calm = λ r early shut. (early, shut, omega arith, omega arith, refl);
    busy = λ r mid shut. absurd mid;
  }

  -- A child that is killed before it has posted, or before it has its turn.
  lost-Moves :
      Moves total
        (record { phase = before_post; evaluated = e })
        (record { phase = crashed; evaluated = e })
        fl
        pl
        el
        fl
        pl
        el
  lost-Moves = record {
    calm = λ r early shut. (early, shut, omega arith, omega arith, refl);
    busy = λ r mid shut. absurd mid;
  }

  stopped-Moves :
      Moves total
        (record { phase = at_process_lock; evaluated = e })
        (record { phase = crashed; evaluated = e })
        fl
        pl
        el
        fl
        pl
        el
  stopped-Moves = record {
    calm = λ r early shut. (early, shut, omega arith, omega arith, refl);
    busy = λ r mid shut. (mid, shut, omega arith, omega arith, refl);
  }

  take-Moves :
      Moves total
        (record { phase = at_process_lock; evaluated = e })
        (record { phase = in_program; evaluated = e })
        fl
        (suc pl)
        el
        fl
        pl
        el
  take-Moves = record {
    calm = λ r early shut. absurd (omega (arith, shut));
    busy = λ r mid shut. (mid, shut, omega arith, omega arith, refl);
  }

  ends-Moves :
      (ok : Bool)
      → Moves total
          (record { phase = in_program; evaluated = e })
          (record { phase = if ok then ended else crashed; evaluated = e })
          fl
          pl
          el
          fl
          pl
          el
  ends-Moves true = record {
    calm = λ r early shut. absurd early;
    busy = λ r mid shut. (mid, shut, omega arith, omega arith, refl);
  }
  ends-Moves false = record {
    calm = λ r early shut. absurd early;
    busy = λ r mid shut. (mid, shut, omega arith, omega arith, refl);
  }

  behind-Moves :
      Moves total
        (record { phase = ended; evaluated = e })
        (record { phase = at_end_lock; evaluated = e })
        fl
        pl
        el
        (fl + 1)
        pl
        el
  behind-Moves = record {
    calm = λ r early shut. absurd early;
    busy = λ r mid shut. (mid, shut, omega arith, omega arith, omega arith);
  }

  leaves-Moves :
      Moves total
        (record { phase = at_end_lock; evaluated = e })
        (record { phase = at_loop total (e + 1); evaluated = e + 1 })
        fl
        pl
        (suc el)
        fl
        pl
        el
  leaves-Moves = elim (Bool-cases (ltb (e + 1) total)) [
    | inl more ↦ rw more (record {
      calm = λ r early shut. (
        (omega (arith, early), ltb→lt (e + 1) total more),
        shut,
        omega arith,
        omega arith,
        omega arith,
      );
      busy = λ r mid shut. absurd (omega (arith, shut));
    })
    | inr over ↦ rw over (record {
      calm = λ r early shut. (
        (omega (arith, early), ltb-false→le (e + 1) total over),
        shut,
        omega arith,
        omega arith,
        omega arith,
      );
      busy = λ r mid shut. absurd (omega (arith, shut));
    })
  ]

module _ (nb_meta_repet m k : ℕ) (s : State) (inv : Inv nb_meta_repet m s) where
  abbrev total : ℕ
  total = evaluations nb_meta_repet

  keeps :
      (t t' : Process) (pl el fl' pl' el' : ℕ) {s' : State}
      → get_elem? s.others k ≡ some t
      → s.process_lock ≡ pl
      → s.process_end_lock ≡ el
      → Moves total t t' s.father_lock pl el fl' pl' el'
      → some (record s {
        others = set s.others k t';
        father_lock = fl';
        process_lock = pl';
        process_end_lock = el';
      })
        ≡ some s'
      → Inv nb_meta_repet m s'
  keeps t t' pl el fl' pl' el' at is_pl is_el moves ran =
      subst (Inv nb_meta_repet m) (some_injective ran) (record {
        size = length-set s.others k t' ∙ inv.size;
        collector = inv.collector;
        limit = inv.limit;
        overheads = inv.overheads;
        results = inv.results;
        meets =
            other_keeps total k t t' s.others at s.father_lock pl el fl' pl' el' moves m s.round
              s.leader s.own
              (subst (λ l. Meets total m s.round s.leader s.own s.others s.father_lock l el) is_pl
                (subst
                  (λ l.
                    Meets total m s.round s.leader s.own s.others s.father_lock s.process_lock l)
                  is_el inv.meets));
      })

  pub exits_keep : {s' : State} → some (exits s) ≡ some s' → Inv nb_meta_repet m s'
  exits_keep ran =
      let limit = inv.limit in
      subst (Inv nb_meta_repet m) (some_injective ran) (record {
        size = inv.size;
        collector = refl;
        limit = omega (arith, limit);
        overheads = inv.overheads;
        results = inv.results;
        meets = tt;
      })

  move_keeps :
      (ok : Bool) (p : Phase) (e : ℕ) {s' : State}
      → get_elem? s.others k ≡ some (record { phase = p; evaluated = e })
      → other_move total k ok s p e ≡ some s'
      → Inv nb_meta_repet m s'
  unfolding other_move
  move_keeps true before_fork e at ran =
      keeps _ _ s.process_lock s.process_end_lock s.father_lock s.process_lock s.process_end_lock at
        refl refl (fork-Moves total e s.father_lock s.process_lock s.process_end_lock) ran
  move_keeps false before_fork e at ran = exits_keep ran
  move_keeps false before_post e at ran =
      keeps _ _ s.process_lock s.process_end_lock s.father_lock s.process_lock s.process_end_lock at
        refl refl (lost-Moves total e s.father_lock s.process_lock s.process_end_lock) ran
  move_keeps true before_post e at ran =
      keeps _ _ s.process_lock s.process_end_lock (s.father_lock + 1) s.process_lock
        s.process_end_lock at refl refl
        (post-Moves total e s.father_lock s.process_lock s.process_end_lock) ran
  move_keeps false at_process_lock e at ran =
      keeps _ _ s.process_lock s.process_end_lock s.father_lock s.process_lock s.process_end_lock at
        refl refl (stopped-Moves total e s.father_lock s.process_lock s.process_end_lock) ran
  move_keeps true at_process_lock e at ran =
      let (rest, open_lock, ran') = sem_wait-some s.process_lock _ ran in
      keeps _ _ (suc rest) s.process_end_lock s.father_lock rest s.process_end_lock at open_lock
        refl (take-Moves total e s.father_lock rest s.process_end_lock) ran'
  move_keeps ok in_program e at ran =
      keeps _ _ s.process_lock s.process_end_lock s.father_lock s.process_lock s.process_end_lock at
        refl refl (ends-Moves total e s.father_lock s.process_lock s.process_end_lock ok) ran
  move_keeps ok ended e at ran =
      keeps _ _ s.process_lock s.process_end_lock (s.father_lock + 1) s.process_lock
        s.process_end_lock at refl refl
        (behind-Moves total e s.father_lock s.process_lock s.process_end_lock) ran
  move_keeps ok at_end_lock e at ran =
      let (rest, open_lock, ran') = sem_wait-some s.process_end_lock _ ran in
      keeps _ _ s.process_lock (suc rest) s.father_lock s.process_lock rest at refl open_lock
        (leaves-Moves total e s.father_lock s.process_lock rest) ran'
  move_keeps ok finished e at ran = absurd (cc)
  move_keeps ok crashed e at ran = exits_keep ran

  pub other_step-keeps :
      (ok : Bool) {s' : State} → other_step total k ok s ≡ some s' → Inv nb_meta_repet m s'
  unfolding other_step
  other_step-keeps ok ran = elim (Option-cases (get_elem? s.others k)) [
    | inl missing ↦ absurd (ground (arith, missing, ran))
    | inr (t, at) ↦
        move_keeps ok t.phase t.evaluated at (acted (acts s.leader t.phase) _ (rw at at ran)).1
  ]
