-- ===== src/KernelRunner/Invariant/Leaving.antt =====
-- The wait for m_processEndLock keeps the invariant, also when thread 0 then kills the process.
use lpowerprobe.Common.{
  ℕ, suc, ◌+◌, ◌≡◌, refl, Bool, true, false, some, List, get_elem?, set, All, All-set,
  All-get_elem?, arith, ltb, if◌then◌else◌,
}
use lpowerprobe.KernelRunner.{
  before_post, at_end_lock, finished, Thread, Father, collecting, releasing, gathering, ending,
  killed, at_loop,
}
use lpowerprobe.KernelRunner.Weight.{weight, at_lock, at_end, weight-set}
use lpowerprobe.KernelRunner.Invariant.{Early, Meets}

-- A thread at the head of its loops, or behind them, is counted nowhere.
pub record IsAtLoop (r : ℕ) (t : Thread) : Type 0 where
  pub early : Early r t
  pub ready : at_lock t.phase ≡ 0
  pub leaving : at_end t.phase ≡ 0

loop_or_not :
    (r e : ℕ) (more : Bool)
    → e ≡ r
    → IsAtLoop r (record { phase = if more then before_post else finished; evaluated = e })
loop_or_not r e true same = record { early = same; ready = refl; leaving = refl }
loop_or_not r e false same = record { early = same; ready = refl; leaving = refl }

pub at_loop-IsAtLoop :
    (total r e : ℕ) → e ≡ r → IsAtLoop r (record { phase = at_loop total e; evaluated = e })
at_loop-IsAtLoop total r e same = loop_or_not r e (ltb e total) same

module _ (n r k e total : ℕ) (ts : List Thread)
    (at : get_elem? ts k ≡ some (record { phase = at_end_lock; evaluated = e })) where
  abbrev left : List Thread
  left = set ts k (record { phase = at_loop total (e + 1); evaluated = e + 1 })

  leaves-Early : All (Early r) ts → All (Early r) left
  leaves-Early early =
      let here : suc e ≡ r = All-get_elem? (Early r) ts k early at in
      All-set (Early r) ts k _ early (at_loop-IsAtLoop total r (e + 1) (omega (arith, here))).early

  one_less : All (Early r) ts → weight at_end left + 1 ≡ weight at_end ts
  one_less early =
      let here : suc e ≡ r = All-get_elem? (Early r) ts k early at in
      omega (
        arith,
        weight-set at_end ts k (record { phase = at_loop total (e + 1); evaluated = e + 1 }) at,
        (at_loop-IsAtLoop total r (e + 1) (omega (arith, here))).leaving,
      )

  same_ready : All (Early r) ts → weight at_lock left ≡ weight at_lock ts
  same_ready early =
      let here : suc e ≡ r = All-get_elem? (Early r) ts k early at in
      omega (
        arith,
        weight-set at_lock ts k (record { phase = at_loop total (e + 1); evaluated = e + 1 }) at,
        (at_loop-IsAtLoop total r (e + 1) (omega (arith, here))).ready,
      )

  pub leave_keeps :
      (f : Father) (fl pl el : ℕ)
      → Meets n r f ts fl pl (suc el)
      → Meets n r f left fl pl el × Meets n r killed left fl pl el
  leave_keeps (collecting i) fl pl el m =
      let (le, early, none_out, ready, leaving) = m in
      (
        (
          le,
          leaves-Early early,
          none_out,
          omega (arith, ready, same_ready early),
          omega (arith, leaving, one_less early),
        ),
        (leaves-Early early, none_out),
      )
  leave_keeps (releasing i) fl pl el m =
      let (le, mid, closed, out, behind) = m in absurd (omega (arith, closed))
  leave_keeps (gathering i) fl pl el m =
      let (le, mid, closed, out, behind) = m in absurd (omega (arith, closed))
  leave_keeps (ending i) fl pl el m =
      let (le, early, none_out, ready, leaving) = m in
      (
        (
          le,
          leaves-Early early,
          none_out,
          omega (arith, ready, same_ready early),
          omega (arith, leaving, one_less early),
        ),
        (leaves-Early early, none_out),
      )
  leave_keeps killed fl pl el m = ((leaves-Early m.0, m.1), (leaves-Early m.0, m.1))
