-- ===== src/KernelRunner/Safety.antt =====
-- What the semaphores ensure, and what they do not.
use lpowerprobe.Common.{
  ℕ, ◌+◌, ◌≡◌, ◌≢◌, ap, ◌∙◌, Option, none, some, List, [], ◌∷◌, get_elem?, set, All, All-get_elem?,
  arith, ◌⊎◌, inl, inr, Option-cases, ℕ_discrete, get_elem?-set_ne,
}
use lpowerprobe.KernelRunner.{
  Phase, before_post, at_process_lock, in_kernel, at_end_lock, finished, Thread, Father, collecting,
  releasing, gathering, ending, killed, State, evaluations, Reachable, Step, Steps, by_thread,
  by_father, rest, then_step, thread_step, thread_move, father_step, father_move, run,
}
use lpowerprobe.KernelRunner.Invariant.{Early, Mid, Meets, Inv}
use lpowerprobe.KernelRunner.Invariant.Kept.{Steps-keep, initial-Inv, sem_wait-some}

-- A thread that is ready for its evaluation, in the kernel, or behind it.
pub data HasPosted : Phase → Type 0 where
  ready : HasPosted at_process_lock
  runs : HasPosted in_kernel
  behind : HasPosted at_end_lock

Mid-posted :
    (r : ℕ) (p : Phase) (e : ℕ)
    → Mid r (record { phase = p; evaluated = e })
    → HasPosted p × (e ≡ r)
Mid-posted r before_post e h = absurd h
Mid-posted r at_process_lock e h = (ready, h)
Mid-posted r in_kernel e h = (runs, h)
Mid-posted r at_end_lock e h = (behind, h)
Mid-posted r finished e h = absurd h

Early-idle :
    (r : ℕ) (p : Phase) (e : ℕ) → Early r (record { phase = p; evaluated = e }) → p ≢ in_kernel
Early-idle r before_post e h is = cc
Early-idle r at_process_lock e h is = cc
Early-idle r in_kernel e h is = absurd h
Early-idle r at_end_lock e h is = cc
Early-idle r finished e h is = cc

-- With a thread in the kernel, the process is past its first loop and not yet in its last.
all-Mid :
    (n r : ℕ) (f : Father) (ts : List Thread) (fl pl el k : ℕ) {t : Thread}
    → Meets n r f ts fl pl el
    → get_elem? ts k ≡ some t
    → t.phase ≡ in_kernel
    → All (Mid r) ts
all-Mid n r (collecting i) ts fl pl el k {t} m at in_it =
    let (le, early, x, y, z) = m in
    absurd (Early-idle r t.phase t.evaluated (All-get_elem? (Early r) ts k early at) in_it)
all-Mid n r (releasing i) ts fl pl el k m at in_it = let (le, mid, x, y, z) = m in mid
all-Mid n r (gathering i) ts fl pl el k m at in_it = let (le, mid, x, y, z) = m in mid
all-Mid n r (ending i) ts fl pl el k {t} m at in_it =
    let (le, early, x, y, z) = m in
    absurd (Early-idle r t.phase t.evaluated (All-get_elem? (Early r) ts k early at) in_it)
all-Mid n r killed ts fl pl el k {t} m at in_it =
    absurd (Early-idle r t.phase t.evaluated (All-get_elem? (Early r) ts k m.0 at) in_it)

-- In every reachable state, whatever the order of the steps: while a thread is between the start and
-- the end of an evaluation, every thread has posted that it is ready for the evaluation of the same
-- number, and none has begun the next one.
pub kernel_in_step :
    (nb_process nb_meta_repet : ℕ) {s : State} (k j : ℕ) {t u : Thread}
    → Reachable nb_process nb_meta_repet s
    → get_elem? s.threads k ≡ some t
    → t.phase ≡ in_kernel
    → get_elem? s.threads j ≡ some u
    → HasPosted u.phase × (u.evaluated ≡ t.evaluated)
kernel_in_step n meta {s} k j {t} {u} reached at in_it at' =
    let inv : Inv n s =
      Steps-keep n (evaluations meta) (initial-Inv n (evaluations meta)) reached in
    let mid =
      all-Mid n inv.round s.father s.threads s.father_lock s.process_lock s.process_end_lock k
        inv.meets at in_it in
    let (posted, same) =
      Mid-posted inv.round u.phase u.evaluated
        (All-get_elem? (Mid inv.round) s.threads j mid at') in
    let (_, same') =
      Mid-posted inv.round t.phase t.evaluated (All-get_elem? (Mid inv.round) s.threads k mid at) in
    (posted, omega (arith, same, same'))

-- The process is killed, no thread may leave, and thread `k` waits to.
pub record Stranded (k : ℕ) (t : Thread) (s : State) : Type 0 where
  pub gone : s.father ≡ killed
  pub shut : s.process_end_lock ≡ 0
  pub waits : get_elem? s.threads k ≡ some t

module _ (n total k : ℕ) (t : Thread) (at_end : t.phase ≡ at_end_lock) (s : State)
    (h : Stranded k t s) where
  move_strands :
      (j : ℕ) (p : Phase) (e : ℕ) {s' : State}
      → (p ≡ at_end_lock) ⊎ (j ≢ k)
      → thread_move total j s p e ≡ some s'
      → Stranded k t s'
  unfolding thread_move
  move_strands j before_post e {s'} (inl same) ran = absurd (cc)
  move_strands j before_post e {s'} (inr other) ran =
      let is : s' ≡ record s {
        threads = set s.threads j (record { phase = at_process_lock; evaluated = e });
        father_lock = s.father_lock + 1;
      } =
        cc in
      rw is (record {
        gone = h.gone;
        shut = h.shut;
        waits = get_elem?-set_ne s.threads j k _ other ∙ h.waits;
      })
  move_strands j at_process_lock e {s'} (inl same) ran = absurd (cc)
  move_strands j at_process_lock e {s'} (inr other) ran =
      let (left, open_lock, ran') = sem_wait-some s.process_lock _ ran in
      let is : s' ≡ record s {
        threads = set s.threads j (record { phase = in_kernel; evaluated = e });
        process_lock = left;
      } =
        cc in
      rw is (record {
        gone = h.gone;
        shut = h.shut;
        waits = get_elem?-set_ne s.threads j k _ other ∙ h.waits;
      })
  move_strands j in_kernel e {s'} (inl same) ran = absurd (cc)
  move_strands j in_kernel e {s'} (inr other) ran =
      let is : s' ≡ record s {
        threads = set s.threads j (record { phase = at_end_lock; evaluated = e });
        father_lock = s.father_lock + 1;
      } =
        cc in
      rw is (record {
        gone = h.gone;
        shut = h.shut;
        waits = get_elem?-set_ne s.threads j k _ other ∙ h.waits;
      })
  move_strands j at_end_lock e {s'} which ran =
      let (left, open_lock, ran') = sem_wait-some s.process_end_lock _ ran in
      absurd (omega (arith, open_lock, h.shut))
  move_strands j finished e which ran = absurd (cc)

  which_thread :
      (j : ℕ) {u : Thread} → get_elem? s.threads j ≡ some u → (u.phase ≡ at_end_lock) ⊎ (j ≢ k)
  which_thread j {u} at = elim (ℕ_discrete j k) [
    | yes same ↦ let is : u ≡ t = cc (ap (get_elem? s.threads) same, h.waits) in inl (rw is at_end)
    | no other ↦ inr other
  ]

  Step-strands : {s' : State} → Step n total s s' → Stranded k t s'
  unfolding thread_step father_step father_move
  Step-strands {s'} (by_thread j ran) = elim (Option-cases (get_elem? s.threads j)) [
    | inl missing ↦ absurd (ground (arith, missing, ran))
    | inr (u, at) ↦ move_strands j u.phase u.evaluated (which_thread j at) (rw at at ran)
  ]
  Step-strands {s'} (by_father ran) = absurd (no_move s.father h.gone ran)
    where
      no_move : (f : Father) → f ≡ killed → father_move n s f ≡ some s' → ⊥
      no_move killed same ran = cc
      no_move (collecting i) same ran = cc
      no_move (releasing i) same ran = cc
      no_move (gathering i) same ran = cc
      no_move (ending i) same ran = cc

-- Once the process is killed while m_processEndLock is 0, a thread that waits for it waits for ever:
-- it stands there in every state that follows, by any steps.
pub Stranded-forever :
    (nb_process total k : ℕ) (t : Thread) {s s' : State}
    → t.phase ≡ at_end_lock
    → Stranded k t s
    → Steps nb_process total s s'
    → Stranded k t s'
Stranded-forever n total k t at_end h rest = h
Stranded-forever n total k t at_end h (then_step {s' = mid} before last) =
    Step-strands n total k t at_end mid (Stranded-forever n total k t at_end h before) last

-- A schedule that runs gives a state that is reached.
pub run-Steps :
    (nb_process total : ℕ) (moves : List (Option ℕ)) (first s : State) {s' : State}
    → Steps nb_process total first s
    → run nb_process total moves s ≡ some s'
    → Steps nb_process total first s'
unfolding run
run-Steps n total [] first s {s'} before ran = let is : s' ≡ s = cc in rw is before
run-Steps n total (some k ∷ moves) first s before ran =
    elim (Option-cases (thread_step total k s)) [
      | inl blocked ↦ absurd (ground (arith, blocked, ran))
      | inr (mid, moved) ↦
          run-Steps n total moves first mid (then_step before (by_thread k moved)) (rw moved at ran)
    ]
run-Steps n total (none ∷ moves) first s before ran = elim (Option-cases (father_step n s)) [
  | inl blocked ↦ absurd (ground (arith, blocked, ran))
  | inr (mid, moved) ↦
      run-Steps n total moves first mid (then_step before (by_father moved)) (rw moved at ran)
]
