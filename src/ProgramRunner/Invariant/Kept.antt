-- ===== src/ProgramRunner/Invariant/Kept.antt =====
-- The invariant holds in every reachable state.
use lpowerprobe.Common.{
  ℕ, ◌≡◌, refl, replicate, arith, inl, inr, Bool-cases, ltb, ltb→lt, ltb-false→le, All-replicate,
  length-replicate,
}
use lpowerprobe.Common.Weight.{weight-replicate}
use lpowerprobe.KernelRunner.{evaluations}
use lpowerprobe.ProgramRunner.{
  Phase, before_fork, finished, Process, State, at_loop, initial, Step, by_other, by_own, by_leader,
  Reachable, first, then_step,
}
use lpowerprobe.ProgramRunner.Invariant.{
  lock_at, post_at, end_at, at_lock, has_post, at_end, Early, Calm, Inv,
}
use lpowerprobe.ProgramRunner.Invariant.Others.{other_step-keeps}
use lpowerprobe.ProgramRunner.Invariant.Leading.{own_step-keeps, leader_step-keeps}

Step-keeps :
    (nb_meta_repet m : ℕ) {s s' : State}
    → Inv nb_meta_repet m s
    → Step nb_meta_repet m s s'
    → Inv nb_meta_repet m s'
Step-keeps nb m {s} inv (by_other k ok ran) = other_step-keeps nb m k s inv ok ran
Step-keeps nb m {s} inv (by_own ok ran) = own_step-keeps nb m s inv ok ran
Step-keeps nb m {s} inv (by_leader ok ran) = leader_step-keeps nb m s inv ok ran

at_first :
    (total m : ℕ) (p : Phase)
    → Early total 0 (record { phase = p; evaluated = 0 })
    → lock_at p ≡ 0
    → post_at p ≡ 0
    → end_at p ≡ 0
    → Calm total 0 0 0 0 before_fork (replicate m (record { phase = p; evaluated = 0 })) 0 0 0
at_first total m p early no_lock no_post no_end =
    let t : Process = record { phase = p; evaluated = 0 } in
    record {
      all = All-replicate (Early total 0) m t early;
      shut = refl;
      ready = omega (arith, weight-replicate at_lock m t no_lock);
      by_posted = omega (arith, weight-replicate has_post m t no_post);
      leaving = omega (arith, weight-replicate at_end m t no_end);
    }

initial-Inv : (nb_meta_repet m : ℕ) → Inv nb_meta_repet m (initial nb_meta_repet m)
unfolding initial
initial-Inv nb m =
    let total = evaluations nb in
    let t : Process = record { phase = at_loop total 0; evaluated = 0 } in
    record {
      size = length-replicate m t;
      collector = elim (Bool-cases (ltb 0 total)) [
        | inl more ↦ rw more refl
        | inr last ↦ rw last refl
      ];
      limit = elim (Bool-cases (ltb 0 total)) [
        | inl more ↦ rw more (omega (arith, ltb→lt 0 total more))
        | inr last ↦ rw last (omega arith)
      ];
      overheads = ground arith;
      results = omega arith;
      meets = elim (Bool-cases (ltb 0 total)) [
        | inl more ↦ rw more (
          refl,
          ltb→lt 0 total more,
          at_first total m before_fork (refl, ltb→lt 0 total more) refl refl refl,
        )
        | inr last ↦ rw last (
          refl,
          ltb-false→le 0 total last,
          at_first total m finished (refl, ltb-false→le 0 total last) refl refl refl,
        )
      ];
    }

pub Reachable-Inv :
    (nb_meta_repet m : ℕ) {s : State} → Reachable nb_meta_repet m s → Inv nb_meta_repet m s
Reachable-Inv nb m first = initial-Inv nb m
Reachable-Inv nb m (then_step before last) = Step-keeps nb m (Reachable-Inv nb m before) last
