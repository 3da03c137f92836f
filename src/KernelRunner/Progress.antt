-- ===== src/KernelRunner/Progress.antt =====
-- src/KernelRunner.cpp: the steps that are possible for the threads and the process.
use lpowerprobe.Common.{
  ℕ, zero, suc, ◌+◌, ◌≤◌, ◌<◌, ◌≡◌, ◌≢◌, refl, ap, some, List, [], ◌∷◌, length, get_elem?, All,
  arith, ltb, ltb→lt, ltb-false→le, Bool-cases, ◌⊎◌, inl, inr, ◌>>=◌,
}
use lpowerprobe.Common.Weight as Counted
use lpowerprobe.KernelRunner.{
  Phase, before_post, at_process_lock, in_kernel, at_end_lock, finished, Thread, Father, collecting,
  releasing, gathering, ending, killed, State, sem_wait, evaluations, thread_move, thread_step,
  father_move, father_step, Step, by_thread, by_father, Reachable,
}
use lpowerprobe.KernelRunner.Weight.{weight, at_lock, running, at_end, at_lock-le, at_end-le}
use lpowerprobe.KernelRunner.Invariant.{Mid, Meets, Inv}
use lpowerprobe.KernelRunner.Invariant.Kept.{Steps-keep, initial-Inv}

-- A semaphore that is not 0 lets its caller on.
opens {ℓ} :
    {A : Type ℓ} (lock : ℕ) (f : ℕ → A)
    → 0 < lock
    → (a : A) × ((sem_wait lock >>= (λ left. some (f left))) ≡ some a)
opens zero f positive = absurd (omega (arith, positive))
opens (suc left) f positive = (f left, refl)

-- Within a round every thread is counted once.
Mid-counted :
    (r : ℕ) (ts : List Thread)
    → All (Mid r) ts
    → weight at_lock ts + weight running ts + weight at_end ts ≡ length ts
Mid-counted r [] all = refl
Mid-counted r (t ∷ ts) all = omega (arith, once t.phase t.evaluated all.0, Mid-counted r ts all.1)
  where
    once :
        (p : Phase) (e : ℕ)
        → Mid r (record { phase = p; evaluated = e })
        → at_lock p + running p + at_end p ≡ 1
    once before_post e mid = absurd mid
    once at_process_lock e mid = refl
    once in_kernel e mid = refl
    once at_end_lock e mid = refl
    once finished e mid = absurd mid

module _ (n total : ℕ) (s : State) where
  -- A thread is behind its loops, or a step is possible.
  abbrev pub GoesOn : Type 0
  GoesOn =
      ((k : ℕ) × (t : Thread) × (get_elem? s.threads k ≡ some t) × (t.phase ≡ finished))
      ⊎ ((s' : State) × Step n total s s')

  by_move :
      (k : ℕ) (t : Thread) (p : Phase) {s' : State}
      → get_elem? s.threads k ≡ some t
      → t.phase ≡ p
      → thread_move total k s p t.evaluated ≡ some s'
      → GoesOn
  unfolding thread_step
  by_move k t p {s'} at is ran = inr (s', by_thread k (rw (thread_step, at, is) ran))

  -- A thread goes on where the semaphore that it waits for is not 0.
  thread_goes :
      (k : ℕ) (t : Thread) (p : Phase)
      → get_elem? s.threads k ≡ some t
      → t.phase ≡ p
      → (p ≡ at_process_lock → 0 < s.process_lock)
      → (p ≡ at_end_lock → 0 < s.process_end_lock)
      → GoesOn
  unfolding thread_move
  thread_goes k t before_post at is first last = by_move k t before_post at is refl
  thread_goes k t at_process_lock at is first last =
      let (s', ran) = opens s.process_lock _ (first refl) in by_move k t at_process_lock at is ran
  thread_goes k t in_kernel at is first last = by_move k t in_kernel at is refl
  thread_goes k t at_end_lock at is first last =
      let (s', ran) = opens s.process_end_lock _ (last refl) in by_move k t at_end_lock at is ran
  thread_goes k t finished at is first last = inl (k, t, at, is)

  by_process : (f : Father) (s' : State) → s.father ≡ f → father_move n s f ≡ some s' → GoesOn
  unfolding father_step
  by_process f s' is ran = inr (s', by_father (rw (father_step, is) ran))

  -- A thread that is not counted, where fewer are counted than there are.
  other :
      (w : Phase → ℕ)
      → ((p : Phase) → w p ≤ 1)
      → weight w s.threads < length s.threads
      → (k : ℕ) × (t : Thread) × (get_elem? s.threads k ≡ some t) × (w t.phase ≡ 0)
  other w small few =
      Counted.not_counted (λ (t : Thread). w t.phase) s.threads (λ t. small t.phase) few

  counted :
      (w : Phase → ℕ) (k : ℕ) {t : Thread}
      → get_elem? s.threads k ≡ some t
      → w t.phase ≤ weight w s.threads
  counted w k at = Counted.elem-le-weight (λ (t : Thread). w t.phase) s.threads k at

  father_goes :
      (r : ℕ) (f : Father)
      → s.father ≡ f
      → f ≢ killed
      → length s.threads ≡ n
      → Meets n r f s.threads s.father_lock s.process_lock s.process_end_lock
      → GoesOn
  unfolding father_move
  father_goes r killed is lives size m = absurd (lives refl)
  father_goes r (releasing i) is lives size m = elim (Bool-cases (ltb i n)) [
    | inl more ↦
        by_process (releasing i)
          (record s { father = releasing (i + 1); process_lock = s.process_lock + 1 }) is
          (rw more refl)
    | inr last ↦ by_process (releasing i) (record s { father = gathering 0 }) is (rw last refl)
  ]
  father_goes r (ending i) is lives size m = elim (Bool-cases (ltb i n)) [
    | inl more ↦
        by_process (ending i)
          (record s { father = ending (i + 1); process_end_lock = s.process_end_lock + 1 }) is
          (rw more refl)
    | inr last ↦ by_process (ending i) (record s { father = collecting 0 }) is (rw last refl)
  ]
  father_goes r (collecting i) is lives size (le, early, closed, ready, leaving) =
      elim (Bool-cases (ltb i n)) [
        | inr last ↦ by_process (collecting i) (record s { father = releasing 0 }) is (rw last refl)
        | inl more ↦ elim (Bool-cases (ltb 0 s.father_lock)) [
          | inl posted ↦
              let (s', ran) =
                opens s.father_lock
                  (λ left. record s { father = collecting (i + 1); father_lock = left })
                  (ltb→lt 0 s.father_lock posted) in
              by_process (collecting i) s' is (rw more ran)
          | inr none_posted ↦
              let zero_left = ltb-false→le 0 s.father_lock none_posted in
              let (k, t, at, free) =
                other at_lock at_lock-le (omega (arith, zero_left, ready, size, ltb→lt i n more)) in
              thread_goes k t t.phase at refl (λ e. absurd (omega (arith, free, ap at_lock e)))
                (λ e. omega (arith, leaving, ap at_end e, counted at_end k at))
        ]
      ]
  father_goes r (gathering i) is lives size (le, mid, closed, out, behind) =
      elim (Bool-cases (ltb i n)) [
        | inr last ↦ by_process (gathering i) (record s { father = ending 0 }) is (rw last refl)
        | inl more ↦ elim (Bool-cases (ltb 0 s.father_lock)) [
          | inl posted ↦
              let (s', ran) =
                opens s.father_lock
                  (λ left. record s { father = gathering (i + 1); father_lock = left })
                  (ltb→lt 0 s.father_lock posted) in
              by_process (gathering i) s' is (rw more ran)
          | inr none_posted ↦
              let zero_left = ltb-false→le 0 s.father_lock none_posted in
              let (k, t, at, free) =
                other at_end at_end-le (omega (arith, zero_left, behind, size, ltb→lt i n more)) in
              thread_goes k t t.phase at refl
                (λ e. omega (
                  arith,
                  out,
                  size,
                  ap at_lock e,
                  counted at_lock k at,
                  Mid-counted r s.threads mid,
                ))
                (λ e. absurd (omega (arith, free, ap at_end e)))
        ]
      ]

-- In every reachable state where the process is not killed, whatever the order of the steps: a step of a
-- thread or of the process is possible, or some thread is behind its loops.
pub kernel_goes_on :
    (nb_process nb_meta_repet : ℕ) (s : State)
    → Reachable nb_process nb_meta_repet s
    → s.father ≢ killed
    → ((k : ℕ) × (t : Thread) × (get_elem? s.threads k ≡ some t) × (t.phase ≡ finished))
      ⊎ ((s' : State) × Step nb_process (evaluations nb_meta_repet) s s')
kernel_goes_on n meta s reached lives =
    let inv : Inv n s =
      Steps-keep n (evaluations meta) (initial-Inv n (evaluations meta)) reached in
    father_goes n (evaluations meta) s inv.round s.father refl lives inv.size inv.meets
