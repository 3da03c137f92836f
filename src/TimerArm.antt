-- ===== src/TimerArm.antt =====
-- probes/libtimerarm: the barrier that keeps the measuring threads and the main thread in step, and the
-- cycles that a thread counts. A step is a call of barrier_wait, or, where such are allowed, a
-- spurious wake-up; else a thread that waits goes on at the broadcast.
pub mod Laws
use lpowerprobe.Common.{
  ℕ, zero, suc, ◌+◌, ◌-◌, ◌%◌, ◌^◌, ◌≡◌, Bool, true, false, not, ◌||◌, Option, none, some, List, [],
  ◌∷◌, map, replicate, get_elem?, set, ◌>>=◌, ◌>>◌, assert, ◌==◌, if◌then◌else◌,
}

pub record Barrier : Type 0 where
  pub count : ℕ
  pub nb_to_wait : ℕ

-- How often a thread has come through the barrier, and whether it waits in it.
pub record Thread : Type 0 where
  pub passed : ℕ
  pub waiting : Bool

pub record State : Type 0 where
  pub barrier : Barrier
  pub threads : List Thread

unfoldable pub barrier_create : ℕ → Barrier
barrier_create count = record { count = 0; nb_to_wait = count }

unfoldable pub initial : ℕ → State
unfolding barrier_create
initial n = record {
  barrier = barrier_create n;
  threads = replicate n (record { passed = 0; waiting = false });
}

-- What a broadcast does to a thread.
abbrev pub woken : Thread → Thread
woken t = if t.waiting then record { passed = t.passed + 1; waiting = false } else t

-- Thread `k` calls `barrier_wait`. The last one to come wakes the others and comes through with them.
unfoldable pub barrier_wait : ℕ → State → Option State
barrier_wait k s = do
  t ← get_elem? s.threads k
  assert (not t.waiting)
  let inside = set s.threads k (record { passed = t.passed; waiting = true })
  let count = (s.barrier.count + 1) % 2 ^ 32
  if count == s.barrier.nb_to_wait
      then some (record { barrier = record s.barrier { count = 0 }; threads = map woken inside })
      else some (record { barrier = record s.barrier { count = count }; threads = inside })

-- `pthread_cond_wait` of thread `k` returns without a broadcast. It stands in no loop, so the thread comes
-- through, and it stays counted.
unfoldable pub wake_up : ℕ → State → Option State
wake_up k s = do
  t ← get_elem? s.threads k
  assert t.waiting
  some (record s { threads = set s.threads k (woken t) })

-- The calls of the threads, and their spurious wake-ups if there are any.
pub data Steps (spurious : Bool) : State → State → Type 0 where
  rest : {s : State} → Steps spurious s s
  then_step :
      {s s' s'' : State} (k : ℕ)
      → Steps spurious s s'
      → barrier_wait k s' ≡ some s''
      → Steps spurious s s''
  then_wake :
      {s s' s'' : State} (k : ℕ)
      → spurious ≡ true
      → Steps spurious s s'
      → wake_up k s' ≡ some s''
      → Steps spurious s s''

-- The rounds of the inner loop of measureThread, with the overflow flag as it is in front of them: whether
-- the counter overflows in the round, and what it shows. The counter has 32 bits and the sum 64. The flag
-- is reset where it is seen, but not with the counter in front of the loop.
unfoldable pub count_cycles : Bool → List (Bool × ℕ) → ℕ → ℕ
count_cycles flag [] cycles = cycles
count_cycles flag ((overflow, shown) ∷ rounds) cycles =
    let counted = if flag || overflow then (cycles + (2 ^ 32 - 1)) % 2 ^ 64 else cycles in
    count_cycles false rounds ((counted + shown) % 2 ^ 64)
