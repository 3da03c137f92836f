-- ===== src/KernelRunner/Invariant/Kept.antt =====
-- The invariant holds in every reachable state.
use mathlib.Core.Path.{subst}
use lpowerprobe.Common.{
  ℕ, zero, suc, ◌+◌, ◌≤◌, ◌≡◌, refl, ◌∙◌, Bool, true, false, ◌&&◌, Option, some, List, length,
  get_elem?, set, All-replicate, arith, ltb, length-set, length-replicate, Bool-cases, Option-cases,
  inl, inr, ◌>>=◌, ◌==◌, if◌then◌else◌, ltb→lt,
}
use lpowerprobe.KernelRunner.{
  Phase, before_post, at_process_lock, in_kernel, at_end_lock, finished, Thread, Father, collecting,
  releasing, gathering, ending, killed, State, sem_wait, at_loop, initial, father_after,
  thread_move, thread_step, father_move, father_step, Step, by_thread, by_father, Steps, rest,
  then_step,
}
use lpowerprobe.KernelRunner.Weight.{at_lock, at_end, weight-replicate}
use lpowerprobe.KernelRunner.Invariant.{Early, Meets, Inv}
use lpowerprobe.KernelRunner.Invariant.Moves.{post_keeps, release_keeps, done_keeps}
use lpowerprobe.KernelRunner.Invariant.Leaving.{leave_keeps, at_loop-IsAtLoop}
use lpowerprobe.KernelRunner.Invariant.Rounds.{to_releasing, to_gathering, to_ending, to_collecting}

pub sem_wait-some {ℓ} :
    {A : Type ℓ} (n : ℕ) (f : ℕ → Option A) {s' : A}
    → (sem_wait n >>= f) ≡ some s'
    → (left : ℕ) × (n ≡ suc left) × (f left ≡ some s')
sem_wait-some zero f ran = absurd (cc)
sem_wait-some (suc n) f ran = (n, refl, ran)

module _ (n total k : ℕ) (s : State) (inv : Inv n s) where
  move_keeps :
      (p : Phase) (e : ℕ) {s' : State}
      → get_elem? s.threads k ≡ some (record { phase = p; evaluated = e })
      → thread_move total k s p e ≡ some s'
      → Inv n s'
  unfolding thread_move
  move_keeps before_post e {s'} at ran =
      let is : s' ≡ record s {
        threads = set s.threads k (record { phase = at_process_lock; evaluated = e });
        father_lock = s.father_lock + 1;
      } =
        cc in
      rw is (record {
        size = length-set s.threads k _ ∙ inv.size;
        round = inv.round;
        meets =
            post_keeps n inv.round k e s.father s.threads s.father_lock s.process_lock
              s.process_end_lock at inv.meets;
      })
  move_keeps at_process_lock e {s'} at ran =
      let (left, open_lock, ran') = sem_wait-some s.process_lock _ ran in
      let is : s' ≡ record s {
        threads = set s.threads k (record { phase = in_kernel; evaluated = e });
        process_lock = left;
      } =
        cc in
      rw is (record {
        size = length-set s.threads k _ ∙ inv.size;
        round = inv.round;
        meets =
            release_keeps n inv.round k e s.father s.threads s.father_lock left s.process_end_lock
              at
              (subst
                (λ pl. Meets n inv.round s.father s.threads s.father_lock pl s.process_end_lock)
                open_lock inv.meets);
      })
  move_keeps in_kernel e {s'} at ran =
      let is : s' ≡ record s {
        threads = set s.threads k (record { phase = at_end_lock; evaluated = e });
        father_lock = s.father_lock + 1;
      } =
        cc in
      rw is (record {
        size = length-set s.threads k _ ∙ inv.size;
        round = inv.round;
        meets =
            done_keeps n inv.round k e s.father s.threads s.father_lock s.process_lock
              s.process_end_lock at inv.meets;
      })
  move_keeps at_end_lock e {s'} at ran =
      let (left, open_lock, ran') = sem_wait-some s.process_end_lock _ ran in
      let (kept, stopped) =
        leave_keeps n inv.round k e total s.threads at s.father s.father_lock s.process_lock left (
          subst (λ el. Meets n inv.round s.father s.threads s.father_lock s.process_lock el)
            open_lock inv.meets) in
      let is : s' ≡ record s {
        threads = set s.threads k (record { phase = at_loop total (e + 1); evaluated = e + 1 });
        process_end_lock = left;
        father = father_after total k (e + 1) s.father;
      } =
        cc in
      rw is (record {
        size = length-set s.threads k _ ∙ inv.size;
        round = inv.round;
        meets = either _ _ _ _ ((k == 0) && (e + 1 == total)) kept stopped;
      })
    where
      either :
          (ts : List Thread) (fl pl el : ℕ) (b : Bool)
          → Meets n inv.round s.father ts fl pl el
          → Meets n inv.round killed ts fl pl el
          → Meets n inv.round (if b then killed else s.father) ts fl pl el
      either ts fl pl el true kept stopped = stopped
      either ts fl pl el false kept stopped = kept
  move_keeps finished e at ran = absurd (cc)

  thread_keeps : {s' : State} → thread_step total k s ≡ some s' → Inv n s'
  unfolding thread_step
  thread_keeps {s'} ran = elim (Option-cases (get_elem? s.threads k)) [
    | inl missing ↦ absurd (ground (arith, missing, ran))
    | inr (t, at) ↦ move_keeps t.phase t.evaluated at (rw at at ran)
  ]

module _ (n : ℕ) (s : State) (size : length s.threads ≡ n) (r : ℕ) where
  father_move_keeps :
      (f : Father) {s' : State}
      → Meets n r f s.threads s.father_lock s.process_lock s.process_end_lock
      → father_move n s f ≡ some s'
      → Inv n s'
  unfolding father_move
  father_move_keeps (collecting i) {s'} m ran = elim (Bool-cases (ltb i n)) [
    | inl more ↦
        let (left, open_lock, ran') = sem_wait-some s.father_lock _ (rw more at ran) in
        let is : s' ≡ record s { father = collecting (i + 1); father_lock = left } = cc in
        let (le, early, none_out, ready, leaving) = m in
        let le' : i + 1 ≤ n = omega (arith, ltb→lt i n more) in
        rw is (record {
          size = size;
          round = r;
          meets = (le', early, none_out, omega (arith, ready, open_lock), leaving);
        })
    | inr last ↦
        let is : s' ≡ record s { father = releasing 0 } = cc (rw last at ran) in
        rw is (record {
          size = size;
          round = r;
          meets =
              to_releasing n r s.threads size i s.father_lock s.process_lock s.process_end_lock
                (ground arith) m;
        })
  ]
  father_move_keeps (releasing i) {s'} m ran = elim (Bool-cases (ltb i n)) [
    | inl more ↦
        let is : s' ≡ record s { father = releasing (i + 1); process_lock = s.process_lock + 1 } =
          cc (rw more at ran) in
        let (le, mid, closed, out, behind) = m in
        let le' : i + 1 ≤ n = omega (arith, ltb→lt i n more) in
        rw is (record {
          size = size;
          round = r;
          meets = (le', mid, closed, omega (arith, out), behind);
        })
    | inr last ↦
        let is : s' ≡ record s { father = gathering 0 } = cc (rw last at ran) in
        rw is (record {
          size = size;
          round = r;
          meets =
              to_gathering n r s.threads size i s.father_lock s.process_lock s.process_end_lock
                (ground arith) m;
        })
  ]
  father_move_keeps (gathering i) {s'} m ran = elim (Bool-cases (ltb i n)) [
    | inl more ↦
        let (left, open_lock, ran') = sem_wait-some s.father_lock _ (rw more at ran) in
        let is : s' ≡ record s { father = gathering (i + 1); father_lock = left } = cc in
        let (le, mid, closed, out, behind) = m in
        let le' : i + 1 ≤ n = omega (arith, ltb→lt i n more) in
        rw is (record {
          size = size;
          round = r;
          meets = (le', mid, closed, out, omega (arith, behind, open_lock));
        })
    | inr last ↦
        let is : s' ≡ record s { father = ending 0 } = cc (rw last at ran) in
        rw is (record {
          size = size;
          round = suc r;
          meets =
              to_ending n r s.threads size i s.father_lock s.process_lock s.process_end_lock
                (ground arith) m;
        })
  ]
  father_move_keeps (ending i) {s'} m ran = elim (Bool-cases (ltb i n)) [
    | inl more ↦
        let is : s'
            ≡ record s { father = ending (i + 1); process_end_lock = s.process_end_lock + 1 } =
          cc (rw more at ran) in
        let (le, early, none_out, ready, leaving) = m in
        let le' : i + 1 ≤ n = omega (arith, ltb→lt i n more) in
        rw is (record {
          size = size;
          round = r;
          meets = (le', early, none_out, ready, omega (arith, leaving));
        })
    | inr last ↦
        let is : s' ≡ record s { father = collecting 0 } = cc (rw last at ran) in
        rw is (record {
          size = size;
          round = r;
          meets =
              to_collecting n r s.threads size i s.father_lock s.process_lock s.process_end_lock
                (ground arith) m;
        })
  ]
  father_move_keeps killed m ran = absurd (cc)

Step-keeps : (n total : ℕ) {s s' : State} → Inv n s → Step n total s s' → Inv n s'
unfolding father_step
Step-keeps n total {s} inv (by_thread k ran) = thread_keeps n total k s inv ran
Step-keeps n total {s} inv (by_father ran) =
    father_move_keeps n s inv.size inv.round s.father inv.meets ran

pub Steps-keep : (n total : ℕ) {s s' : State} → Inv n s → Steps n total s s' → Inv n s'
Steps-keep n total inv rest = inv
Steps-keep n total inv (then_step before last) =
    Step-keeps n total (Steps-keep n total inv before) last

pub initial-Inv : (n total : ℕ) → Inv n (initial total n)
unfolding initial
initial-Inv n total =
    let t : Thread = record { phase = at_loop total 0; evaluated = 0 } in
    let first = at_loop-IsAtLoop total 0 0 refl in
    record {
      size = length-replicate n t;
      round = 0;
      meets = elim (Bool-cases (total == 0)) [
        | inl none_asked ↦ rw none_asked (All-replicate (Early 0) n t first.early, refl)
        | inr some_asked ↦ rw some_asked (
          omega arith,
          All-replicate (Early 0) n t first.early,
          refl,
          omega (arith, weight-replicate at_lock n t first.ready),
          weight-replicate at_end n t first.leaving,
        )
      ];
    }
