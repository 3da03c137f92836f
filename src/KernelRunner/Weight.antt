-- ===== src/KernelRunner/Weight.antt =====
-- Threads counted by their phase.
use lpowerprobe.Common.Weight as Counted
use lpowerprobe.Common.{ℕ, ◌+◌, ◌≤◌, ◌≡◌, some, List, length, get_elem?, set, replicate, arith}
use lpowerprobe.KernelRunner.{
  Phase, before_post, at_process_lock, in_kernel, at_end_lock, finished, Thread,
}

abbrev pub at_lock : Phase → ℕ
at_lock at_process_lock = 1
at_lock _ = 0

abbrev pub running : Phase → ℕ
running in_kernel = 1
running _ = 0

abbrev pub at_end : Phase → ℕ
at_end at_end_lock = 1
at_end _ = 0

abbrev pub weight : (Phase → ℕ) → List Thread → ℕ
weight w = Counted.weight (λ (t : Thread). w t.phase)

pub weight-set :
    (w : Phase → ℕ) (ts : List Thread) (k : ℕ) (t' : Thread) {t : Thread}
    → get_elem? ts k ≡ some t
    → weight w (set ts k t') + w t.phase ≡ weight w ts + w t'.phase
weight-set w = Counted.weight-set (λ (t : Thread). w t.phase)

pub weight-le :
    (w : Phase → ℕ) (ts : List Thread) → ((p : Phase) → w p ≤ 1) → weight w ts ≤ length ts
weight-le w ts small = Counted.weight-le (λ (t : Thread). w t.phase) ts (λ t. small t.phase)

pub weight-replicate :
    (w : Phase → ℕ) (n : ℕ) (t : Thread) → w t.phase ≡ 0 → weight w (replicate n t) ≡ 0
weight-replicate w = Counted.weight-replicate (λ (t : Thread). w t.phase)

pub at_lock-le : (p : Phase) → at_lock p ≤ 1
at_lock-le before_post = omega arith
at_lock-le at_process_lock = omega arith
at_lock-le in_kernel = omega arith
at_lock-le at_end_lock = omega arith
at_lock-le finished = omega arith

pub at_end-le : (p : Phase) → at_end p ≤ 1
at_end-le before_post = omega arith
at_end-le at_process_lock = omega arith
at_end-le in_kernel = omega arith
at_end-le at_end_lock = omega arith
at_end-le finished = omega arith
