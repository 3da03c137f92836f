-- ===== src/KernelRunner/Invariant/Moves.antt =====
-- Each step keeps the invariant.
use lpowerprobe.Common.{ℕ, suc, ◌+◌, ◌≡◌, some, List, get_elem?, set, All-set, All-get_elem?, arith}
use lpowerprobe.KernelRunner.{
  before_post, at_process_lock, in_kernel, at_end_lock, Thread, Father, collecting, releasing,
  gathering, ending, killed,
}
use lpowerprobe.KernelRunner.Weight.{at_lock, running, at_end, weight-set}
use lpowerprobe.KernelRunner.Invariant.{Early, Mid, Meets}

module _ (n r k e : ℕ) where
  -- The first sem_post.
  pub post_keeps :
      (f : Father) (ts : List Thread) (fl pl el : ℕ)
      → get_elem? ts k ≡ some (record { phase = before_post; evaluated = e })
      → Meets n r f ts fl pl el
      → Meets n r f (set ts k (record { phase = at_process_lock; evaluated = e })) (fl + 1) pl el
  post_keeps (collecting i) ts fl pl el at m =
      let (le, early, none_out, ready, leaving) = m in
      let t : Thread = record { phase = at_process_lock; evaluated = e } in
      (
        le,
        All-set (Early r) ts k t early (All-get_elem? (Early r) ts k early at),
        none_out,
        omega (arith, ready, weight-set at_lock ts k t at),
        omega (arith, leaving, weight-set at_end ts k t at),
      )
  post_keeps (releasing i) ts fl pl el at m =
      let (le, mid, x, y, z) = m in absurd (All-get_elem? (Mid r) ts k mid at)
  post_keeps (gathering i) ts fl pl el at m =
      let (le, mid, x, y, z) = m in absurd (All-get_elem? (Mid r) ts k mid at)
  post_keeps (ending i) ts fl pl el at m =
      let (le, early, none_out, ready, leaving) = m in
      let t : Thread = record { phase = at_process_lock; evaluated = e } in
      (
        le,
        All-set (Early r) ts k t early (All-get_elem? (Early r) ts k early at),
        none_out,
        omega (arith, ready, weight-set at_lock ts k t at),
        omega (arith, leaving, weight-set at_end ts k t at),
      )
  post_keeps killed ts fl pl el at m =
      let t : Thread = record { phase = at_process_lock; evaluated = e } in
      (All-set (Early r) ts k t m.0 (All-get_elem? (Early r) ts k m.0 at), m.1)

  -- The wait for m_processLock.
  pub release_keeps :
      (f : Father) (ts : List Thread) (fl pl el : ℕ)
      → get_elem? ts k ≡ some (record { phase = at_process_lock; evaluated = e })
      → Meets n r f ts fl (suc pl) el
      → Meets n r f (set ts k (record { phase = in_kernel; evaluated = e })) fl pl el
  release_keeps (collecting i) ts fl pl el at m =
      let (le, early, none_out, ready, leaving) = m in absurd (omega (arith, none_out))
  release_keeps (releasing i) ts fl pl el at m =
      let (le, mid, closed, out, behind) = m in
      let t : Thread = record { phase = in_kernel; evaluated = e } in
      (
        le,
        All-set (Mid r) ts k t mid (All-get_elem? (Mid r) ts k mid at),
        closed,
        omega (arith, out, weight-set running ts k t at, weight-set at_end ts k t at),
        omega (arith, behind, weight-set at_end ts k t at),
      )
  release_keeps (gathering i) ts fl pl el at m =
      let (le, mid, closed, out, behind) = m in
      let t : Thread = record { phase = in_kernel; evaluated = e } in
      (
        le,
        All-set (Mid r) ts k t mid (All-get_elem? (Mid r) ts k mid at),
        closed,
        omega (arith, out, weight-set running ts k t at, weight-set at_end ts k t at),
        omega (arith, behind, weight-set at_end ts k t at),
      )
  release_keeps (ending i) ts fl pl el at m =
      let (le, early, none_out, ready, leaving) = m in absurd (omega (arith, none_out))
  release_keeps killed ts fl pl el at m = absurd (omega (arith, m.1))

  -- The second sem_post.
  pub done_keeps :
      (f : Father) (ts : List Thread) (fl pl el : ℕ)
      → get_elem? ts k ≡ some (record { phase = in_kernel; evaluated = e })
      → Meets n r f ts fl pl el
      → Meets n r f (set ts k (record { phase = at_end_lock; evaluated = e })) (fl + 1) pl el
  done_keeps (collecting i) ts fl pl el at m =
      let (le, early, x, y, z) = m in absurd (All-get_elem? (Early r) ts k early at)
  done_keeps (releasing i) ts fl pl el at m =
      let (le, mid, closed, out, behind) = m in
      let t : Thread = record { phase = at_end_lock; evaluated = e } in
      (
        le,
        All-set (Mid r) ts k t mid (All-get_elem? (Mid r) ts k mid at),
        closed,
        omega (arith, out, weight-set running ts k t at, weight-set at_end ts k t at),
        omega (arith, behind, weight-set at_end ts k t at),
      )
  done_keeps (gathering i) ts fl pl el at m =
      let (le, mid, closed, out, behind) = m in
      let t : Thread = record { phase = at_end_lock; evaluated = e } in
      (
        le,
        All-set (Mid r) ts k t mid (All-get_elem? (Mid r) ts k mid at),
        closed,
        omega (arith, out, weight-set running ts k t at, weight-set at_end ts k t at),
        omega (arith, behind, weight-set at_end ts k t at),
      )
  done_keeps (ending i) ts fl pl el at m =
      let (le, early, x, y, z) = m in absurd (All-get_elem? (Early r) ts k early at)
  done_keeps killed ts fl pl el at m = absurd (All-get_elem? (Early r) ts k m.0 at)
