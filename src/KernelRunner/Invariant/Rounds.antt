-- ===== src/KernelRunner/Invariant/Rounds.antt =====
-- When the process goes from one of its loops to the next, all threads are at the same place.
use lpowerprobe.Common.{ℕ, suc, ◌+◌, ◌≤◌, ◌≡◌, refl, List, [], ◌∷◌, length, All, arith}
use lpowerprobe.KernelRunner.{
  Phase, before_post, at_process_lock, in_kernel, at_end_lock, finished, Thread, collecting,
  releasing, gathering, ending,
}
use lpowerprobe.KernelRunner.Weight.{
  weight, at_lock, running, at_end, weight-le, at_lock-le, at_end-le,
}
use lpowerprobe.KernelRunner.Invariant.{Early, Mid, Meets}

-- All threads are ready.
all_ready :
    (r : ℕ) (ts : List Thread)
    → All (Early r) ts
    → length ts ≤ weight at_lock ts
    → All (Mid r) ts × (weight running ts ≡ 0) × (weight at_end ts ≡ 0)
all_ready r [] early full = (tt, refl, refl)
all_ready r (t ∷ ts) early full =
    one t.phase t.evaluated early.0 (λ h. all_ready r ts early.1 h) full
  where
    one :
        (p : Phase) (e : ℕ)
        → Early r (record { phase = p; evaluated = e })
        → (length ts ≤ weight at_lock ts
            → All (Mid r) ts × (weight running ts ≡ 0) × (weight at_end ts ≡ 0))
        → suc (length ts) ≤ at_lock p + weight at_lock ts
        → (Mid r (record { phase = p; evaluated = e }) × All (Mid r) ts)
          × (running p + weight running ts ≡ 0)
          × (at_end p + weight at_end ts ≡ 0)
    one at_process_lock e here rest full' =
        let (mid, no_run, no_end) = rest (omega arith) in ((here, mid), omega arith, omega arith)
    one in_kernel e here rest full' = absurd here
    one before_post e here rest full' = absurd (omega (arith, weight-le at_lock ts at_lock-le))
    one at_end_lock e here rest full' = absurd (omega (arith, weight-le at_lock ts at_lock-le))
    one finished e here rest full' = absurd (omega (arith, weight-le at_lock ts at_lock-le))

-- All threads are behind the kernel.
all_behind :
    (r : ℕ) (ts : List Thread)
    → All (Mid r) ts
    → length ts ≤ weight at_end ts
    → All (Early (suc r)) ts × (weight at_lock ts ≡ 0)
all_behind r [] mid full = (tt, refl)
all_behind r (t ∷ ts) mid full = one t.phase t.evaluated mid.0 (λ h. all_behind r ts mid.1 h) full
  where
    one :
        (p : Phase) (e : ℕ)
        → Mid r (record { phase = p; evaluated = e })
        → (length ts ≤ weight at_end ts → All (Early (suc r)) ts × (weight at_lock ts ≡ 0))
        → suc (length ts) ≤ at_end p + weight at_end ts
        → (Early (suc r) (record { phase = p; evaluated = e }) × All (Early (suc r)) ts)
          × (at_lock p + weight at_lock ts ≡ 0)
    one at_end_lock e here rest full' =
        let (early, no_lock) = rest (omega arith) in ((omega (arith, here), early), omega arith)
    one at_process_lock e here rest full' = absurd (omega (arith, weight-le at_end ts at_end-le))
    one in_kernel e here rest full' = absurd (omega (arith, weight-le at_end ts at_end-le))
    one before_post e here rest full' = absurd here
    one finished e here rest full' = absurd here

module _ (n r : ℕ) (ts : List Thread) (size : length ts ≡ n) where
  pub to_releasing :
      (i fl pl el : ℕ)
      → n ≤ i
      → Meets n r (collecting i) ts fl pl el
      → Meets n r (releasing 0) ts fl pl el
  to_releasing i fl pl el over m =
      let (le, early, none_out, ready, leaving) = m in
      let (mid, no_run, no_end) = all_ready r ts early (omega (arith, ready)) in
      (
        omega arith,
        mid,
        omega (arith, leaving, no_end),
        omega (arith, none_out, no_run, no_end),
        omega (arith, ready, no_end, weight-le at_lock ts at_lock-le),
      )

  pub to_gathering :
      (i fl pl el : ℕ)
      → n ≤ i
      → Meets n r (releasing i) ts fl pl el
      → Meets n r (gathering 0) ts fl pl el
  to_gathering i fl pl el over m =
      let (le, mid, closed, out, behind) = m in
      (omega arith, mid, closed, omega (arith, out), omega (arith, behind))

  pub to_ending :
      (i fl pl el : ℕ)
      → n ≤ i
      → Meets n r (gathering i) ts fl pl el
      → Meets n (suc r) (ending 0) ts fl pl el
  to_ending i fl pl el over m =
      let (le, mid, closed, out, behind) = m in
      let (early, no_lock) = all_behind r ts mid (omega (arith, behind)) in
      (
        omega arith,
        early,
        omega (arith, out, behind),
        omega (arith, out, behind, no_lock),
        omega (arith, closed, out, behind),
      )

  pub to_collecting :
      (i fl pl el : ℕ)
      → n ≤ i
      → Meets n r (ending i) ts fl pl el
      → Meets n r (collecting 0) ts fl pl el
  to_collecting i fl pl el over m =
      let (le, early, none_out, ready, leaving) = m in
      (omega arith, early, none_out, omega (arith, ready), omega (arith, leaving))
