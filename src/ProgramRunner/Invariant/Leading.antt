-- ===== src/ProgramRunner/Invariant/Leading.antt =====
-- The steps of the leader and of its child keep the invariant.
use mathlib.Core.Path.{subst}
use lpowerprobe.Common.{
  some_injective, ℕ, ◌+◌, ◌≤◌, ◌≡◌, refl, ◌∙◌, Bool, true, false, some, arith, inl, inr, Bool-cases,
  ltb, if◌then◌else◌, ltb→lt, ltb-false→le,
}
use lpowerprobe.KernelRunner.{evaluations}
use lpowerprobe.KernelRunner.Invariant.Kept.{sem_wait-some}
use lpowerprobe.ProgramRunner.{
  Phase, before_fork, before_post, at_process_lock, in_program, ended, at_end_lock, finished,
  crashed, Leader, beginning, waiting, through, exited, collecting, releasing, gathering, ending,
  State, own_move, own_step, wait_own, stop_measure, leader_move, leader_step,
}
use lpowerprobe.ProgramRunner.Invariant.{Calm, Meets, measures, active, Inv}
use lpowerprobe.ProgramRunner.Invariant.Others.{exits_keep}
use lpowerprobe.ProgramRunner.Invariant.Child.{own_posts, own_takes, own_killed, own_ends, begins}
use lpowerprobe.ProgramRunner.Invariant.Rounds.{to_releasing, to_waiting, to_gathering, to_ending}

module _ (nb_meta_repet m : ℕ) (s : State) (inv : Inv nb_meta_repet m s) where
  abbrev total : ℕ
  total = evaluations nb_meta_repet

  -- A step of the leader's child.
  by_child :
      (own : Phase) (fl pl el : ℕ) {s' : State}
      → Meets total m s.round s.leader own s.others fl pl el
      → some (record s { own = own; father_lock = fl; process_lock = pl; process_end_lock = el })
        ≡ some s'
      → Inv nb_meta_repet m s'
  by_child own fl pl el meets ran = subst (Inv nb_meta_repet m) (some_injective ran) (record {
    size = inv.size;
    collector = inv.collector;
    limit = inv.limit;
    overheads = inv.overheads;
    results = inv.results;
    meets = meets;
  })

  own_keeps :
      (ok : Bool) (own : Phase) {s' : State}
      → Meets total m s.round s.leader own s.others s.father_lock s.process_lock s.process_end_lock
      → own_move ok s own ≡ some s'
      → Inv nb_meta_repet m s'
  unfolding own_move
  own_keeps false before_post meets ran =
      by_child crashed s.father_lock s.process_lock s.process_end_lock
        (own_killed total m s.round s.others s.father_lock s.process_lock s.process_end_lock
          before_post s.leader (omega arith) refl refl (λ e. cc) meets)
        ran
  own_keeps true before_post meets ran =
      by_child at_process_lock (s.father_lock + 1) s.process_lock s.process_end_lock
        (own_posts total m s.round s.others s.father_lock s.process_lock s.process_end_lock s.leader
          meets)
        ran
  own_keeps false at_process_lock meets ran =
      by_child crashed s.father_lock s.process_lock s.process_end_lock
        (own_killed total m s.round s.others s.father_lock s.process_lock s.process_end_lock
          at_process_lock s.leader (omega arith) refl refl (λ e. cc) meets)
        ran
  own_keeps true at_process_lock meets ran =
      let (rest, open_lock, ran') = sem_wait-some s.process_lock _ ran in
      by_child in_program s.father_lock rest s.process_end_lock
        (own_takes total m s.round s.others s.father_lock rest s.process_end_lock s.leader (
          subst
            (λ l.
              Meets total m s.round s.leader at_process_lock s.others s.father_lock l
                s.process_end_lock)
            open_lock meets))
        ran'
  own_keeps ok in_program meets ran =
      by_child (if ok then ended else crashed) s.father_lock s.process_lock s.process_end_lock
        (own_ends total m s.round s.others s.father_lock s.process_lock s.process_end_lock ok
          s.leader meets)
        ran
  own_keeps ok before_fork meets ran = absurd (cc)
  own_keeps ok ended meets ran = absurd (cc)
  own_keeps ok at_end_lock meets ran = absurd (cc)
  own_keeps ok finished meets ran = absurd (cc)
  own_keeps ok crashed meets ran = absurd (cc)

  -- A step of the leader within an evaluation.
  by_lead :
      (leader : Leader) (own : Phase) (on : Bool) (fl pl el : ℕ) {s' : State}
      → on ≡ measures leader
      → s.round + active leader ≤ total
      → Meets total m s.round leader own s.others fl pl el
      → some (record s {
        leader = leader;
        own = own;
        measuring = on;
        father_lock = fl;
        process_lock = pl;
        process_end_lock = el;
      })
        ≡ some s'
      → Inv nb_meta_repet m s'
  by_lead leader own on fl pl el same limit meets ran =
      subst (Inv nb_meta_repet m) (some_injective ran) (record {
        size = inv.size;
        collector = same;
        limit = limit;
        overheads = inv.overheads;
        results = inv.results;
        meets = meets;
      })

  -- The end of an evaluation.
  stop_keeps :
      (i : ℕ) (own : Phase) {s' : State}
      → m ≤ i
      → s.round + 1 ≤ total
      → Meets total m s.round
          (ending i)
          own
          s.others
          s.father_lock
          s.process_lock
          s.process_end_lock
      → s.own ≡ own
      → some (stop_measure nb_meta_repet s) ≡ some s'
      → Inv nb_meta_repet m s'
  unfolding stop_measure
  stop_keeps i own over lim (le, idle, c) is_own ran =
      let counted = inv.overheads in
      let measured = inv.results in
      let leaving = c.leaving in
      let over' : i ≡ m = omega arith in
      let c' : Calm total (s.round + 1) 0 0 0 s.own s.others s.father_lock s.process_lock
          s.process_end_lock =
        record {
          all = c.all;
          shut = c.shut;
          ready = rw is_own c.ready;
          by_posted = rw is_own c.by_posted;
          leaving = omega (arith, leaving, over');
        } in
      subst (Inv nb_meta_repet m) (some_injective ran) (record {
        size = inv.size;
        collector = elim (Bool-cases (ltb (s.round + 1) total)) [
          | inl more ↦ rw more refl
          | inr last ↦ rw last refl
        ];
        limit = elim (Bool-cases (ltb (s.round + 1) total)) [
          | inl more ↦ rw more (omega (arith, ltb→lt (s.round + 1) total more))
          | inr last ↦ rw last (omega (arith, lim))
        ];
        overheads = ground (arith, counted);
        results = ground (arith, measured);
        meets = elim (Bool-cases (ltb (s.round + 1) total)) [
          | inl more ↦ rw more (is_own ∙ idle, ltb→lt (s.round + 1) total more, c')
          | inr last ↦ rw last (is_own ∙ idle, ltb-false→le (s.round + 1) total last, c')
        ];
      })

  wait_keeps :
      (own : Phase) {s' : State}
      → Meets total m s.round waiting own s.others s.father_lock s.process_lock s.process_end_lock
      → s.measuring ≡ true
      → s.round + 1 ≤ total
      → wait_own s own ≡ some s'
      → Inv nb_meta_repet m s'
  unfolding wait_own
  wait_keeps ended meets on lim ran =
      by_lead (gathering 0) before_fork s.measuring s.father_lock s.process_lock s.process_end_lock
        on lim
        (to_gathering total m s.round s.others inv.size s.father_lock s.process_lock
          s.process_end_lock meets)
        ran
  wait_keeps crashed meets on lim ran = exits_keep nb_meta_repet m 0 s inv ran
  wait_keeps before_fork meets on lim ran = absurd (cc)
  wait_keeps before_post meets on lim ran = absurd (cc)
  wait_keeps at_process_lock meets on lim ran = absurd (cc)
  wait_keeps in_program meets on lim ran = absurd (cc)
  wait_keeps at_end_lock meets on lim ran = absurd (cc)
  wait_keeps finished meets on lim ran = absurd (cc)

  leader_keeps :
      (ok : Bool) (leader : Leader) {s' : State}
      → Meets total m s.round leader s.own s.others s.father_lock s.process_lock s.process_end_lock
      → s.measuring ≡ measures leader
      → s.round + active leader ≤ total
      → leader_move nb_meta_repet m ok s leader ≡ some s'
      → Inv nb_meta_repet m s'
  unfolding leader_move
  leader_keeps true beginning meets on lim ran =
      by_lead (collecting 0) before_post true s.father_lock s.process_lock s.process_end_lock refl
        lim
        (begins total m s.round s.others s.father_lock s.process_lock s.process_end_lock s.own
          meets)
        ran
  leader_keeps false beginning meets on lim ran = exits_keep nb_meta_repet m 0 s inv ran
  leader_keeps ok (collecting i) meets on lim ran = elim (Bool-cases (ltb i (m + 1))) [
    | inl more ↦
        let (rest, open_lock, ran') = sem_wait-some s.father_lock _ (rw more at ran) in
        let (le, more', forked, c) = meets in
        let ready = c.ready in
        let le' = ltb→lt i (m + 1) more in
        by_lead (collecting (i + 1)) s.own s.measuring rest s.process_lock s.process_end_lock on lim
          (
            omega (arith, le'),
            more',
            forked,
            record {
              all = c.all;
              shut = c.shut;
              ready = omega (arith, ready, open_lock);
              by_posted = omega (arith, c.by_posted, open_lock);
              leaving = c.leaving;
            },
          )
          ran'
    | inr last ↦
        by_lead (releasing 0) s.own s.measuring s.father_lock s.process_lock s.process_end_lock on
          lim
          (to_releasing total m s.round s.others inv.size s.father_lock s.process_lock
            s.process_end_lock i s.own (ltb-false→le i (m + 1) last) meets)
          (rw last at ran)
  ]
  leader_keeps ok (releasing i) meets on lim ran = elim (Bool-cases (ltb i (m + 1))) [
    | inl more ↦
        let (le, released, b) = meets in
        let turns = b.turns in
        let le' = ltb→lt i (m + 1) more in
        by_lead (releasing (i + 1)) s.own s.measuring s.father_lock (s.process_lock + 1)
          s.process_end_lock on lim
          (
            omega (arith, le'),
            released,
            record {
              all = b.all;
              shut = b.shut;
              turns = omega (arith, turns);
              taken = omega (arith, b.taken);
              behind = b.behind;
            },
          )
          (rw more at ran)
    | inr last ↦
        by_lead waiting s.own s.measuring s.father_lock s.process_lock s.process_end_lock on lim
          (to_waiting total m s.round s.others inv.size s.father_lock s.process_lock
            s.process_end_lock i s.own (ltb-false→le i (m + 1) last) meets)
          (rw last at ran)
  ]
  leader_keeps ok waiting meets on lim ran = wait_keeps s.own meets on lim ran
  leader_keeps ok (gathering i) meets on lim ran = elim (Bool-cases (ltb i m)) [
    | inl more ↦
        let (rest, open_lock, ran') = sem_wait-some s.father_lock _ (rw more at ran) in
        let (le, idle, b) = meets in
        let behind = b.behind in
        let le' = ltb→lt i m more in
        by_lead (gathering (i + 1)) s.own s.measuring rest s.process_lock s.process_end_lock on lim
          (
            omega (arith, le'),
            idle,
            record {
              all = b.all;
              shut = b.shut;
              turns = b.turns;
              taken = b.taken;
              behind = omega (arith, behind, open_lock);
            },
          )
          ran'
    | inr last ↦
        by_lead (ending 0) s.own s.measuring s.father_lock s.process_lock s.process_end_lock on lim
          (to_ending total m s.round s.others inv.size s.father_lock s.process_lock
            s.process_end_lock i s.own (ltb-false→le i m last) meets)
          (rw last at ran)
  ]
  leader_keeps ok (ending i) meets on lim ran = elim (Bool-cases (ltb i m)) [
    | inl more ↦
        let (le, idle, c) = meets in
        let leaving = c.leaving in
        let le' = ltb→lt i m more in
        by_lead (ending (i + 1)) s.own s.measuring s.father_lock s.process_lock
          (s.process_end_lock + 1) on lim
          (
            omega (arith, le'),
            idle,
            record {
              all = c.all;
              shut = c.shut;
              ready = c.ready;
              by_posted = c.by_posted;
              leaving = omega (arith, leaving);
            },
          )
          (rw more at ran)
    | inr last ↦ stop_keeps i s.own (ltb-false→le i m last) lim meets refl (rw last at ran)
  ]
  leader_keeps ok through meets on lim ran = absurd (cc)
  leader_keeps ok exited meets on lim ran = absurd (cc)

  pub own_step-keeps : (ok : Bool) {s' : State} → own_step ok s ≡ some s' → Inv nb_meta_repet m s'
  unfolding own_step
  own_step-keeps ok ran = own_keeps ok s.own inv.meets ran

  pub leader_step-keeps :
      (ok : Bool) {s' : State} → leader_step nb_meta_repet m ok s ≡ some s' → Inv nb_meta_repet m s'
  unfolding leader_step
  leader_step-keeps ok ran = leader_keeps ok s.leader inv.meets inv.collector inv.limit ran
