-- ===== src/Collector.antt =====
-- src/ProbeDataCollector.hpp, src/ProbeDataCollector.cpp: the probes are started and stopped together,
-- and a thread updates those that have a period. The mutex, the condition variable, the attributes
-- and the signals of the thread are calls of pthreads: `Effect` lists those that steer the thread.
pub mod Gcd
pub mod Period
pub mod Thread
pub mod Update
pub mod Laws
use Prim.Native.String.{String}
use mathlib.Core.Logic.{dite}
use mathlib.Core.WellFounded.{Acc, WellFounded}
use lpowerprobe.Common.{
  ℕ, ◌+◌, ◌-◌, ◌*◌, ◌/◌, ◌%◌, ◌^◌, ◌<◌, Bool, true, false, not, ◌&&◌, Option, none, some, List, [],
  ◌∷◌, ◌++◌, length, ◌>>=◌, ◌>>◌, assert, get_elem?, if◌then◌else◌, ltb, ◌==◌, dec_lt, arith,
}
use lpowerprobe.Common.Order.{lt_wf}
use lpowerprobe.Double.{Double}
use lpowerprobe.Probe.{Probe, get_label as get_probe_label}
use lpowerprobe.Results.{Results, record_measurement}

-- `std::swap` when the first is the smaller one.
abbrev larger : ℕ → ℕ → ℕ
larger a b = if ltb a b then b else a

abbrev smaller_of : ℕ → ℕ → ℕ
smaller_of a b = if ltb a b then a else b

smaller_of-lt : (val1 val2 : ℕ) → 0 < val2 → smaller_of val2 (val1 % val2) < val2
smaller_of-lt val1 val2 h = ground arith

-- The call after the swap. `none` is the division by zero.
gcd_acc : (val1 val2 : ℕ) → Acc ◌<◌ val2 → Option ℕ
gcd_acc val1 val2 (Acc.intro _ smaller) =
    dite (dec_lt 0 val2)
      (λ h.
        let ret = val1 % val2 in
        let rest =
          gcd_acc (larger val2 ret) (smaller_of val2 ret)
            (smaller (smaller_of val2 ret) (smaller_of-lt val1 val2 h)) in
        if ret == 0 then some val2 else rest)
      (λ _. none)

pub gcd : ℕ → ℕ → Option ℕ
unfolding gcd_acc lt_wf dec_lt
gcd val1 val2 =
    gcd_acc (larger val1 val2) (smaller_of val1 val2) (lt_wf.apply (smaller_of val1 val2))

abbrev pub int_max : ℕ
int_max = 2 ^ 31 - 1

pub record Collector : Type 0 where
  pub need_thread : Bool
  pub thread_collecting : Bool
  pub thread_running : Bool
  pub probes : List Probe
  pub periodic_probes : List Probe
  pub min_period : ℕ  -- unsigned int, in µs

-- One round of the loop of the constructor.
unfoldable pub add_period : Collector → Probe → Option Collector
add_period c p = if p.period == 0 then some c else (do
  min_period ← (if c.min_period == int_max then some p.period else gcd c.min_period p.period)
  some (record c {
    periodic_probes = c.periodic_probes ++ (p ∷ []);
    min_period = min_period;
    need_thread = true;
  }))

unfoldable pub add_periods : Collector → List Probe → Option Collector
unfolding add_period
add_periods c [] = some c
add_periods c (p ∷ ps) = add_period c p >>= λ c'. add_periods c' ps

-- The constructor, up to the creation of the thread.
unfoldable pub new_collector : List Probe → Option Collector
unfolding add_periods
new_collector probes = do
  c ←
      add_periods
        (record {
          need_thread = false;
          thread_collecting = false;
          thread_running = true;
          probes = probes;
          periodic_probes = [];
          min_period = int_max;
        })
        probes
  some (if c.min_period == int_max then record c { min_period = 0 } else c)

-- What the main thread does to the probes and to the collector thread.
pub data Effect : Type 0 where
  start_measure : Probe → Effect
  stop_measure : Probe → Effect
  cond_signal : Effect
  kill_sigusr1 : Effect
  kill_sigalrm : Effect
  join : Effect

pub each_probe : (Probe → Effect) → List Probe → List Effect
each_probe f [] = []
each_probe f (p ∷ ps) = f p ∷ each_probe f ps

pub start : Collector → Collector × List Effect
unfolding each_probe
start c =
    if c.need_thread
    then (
      record c { thread_collecting = true },
      each_probe start_measure c.probes ++ (cond_signal ∷ []),
    )
    else (c, each_probe start_measure c.probes)

pub cancel : Collector → Collector × List Effect
unfolding each_probe
cancel c =
    if c.need_thread
    then (
      record c { thread_collecting = false },
      each_probe stop_measure c.probes ++ (kill_sigalrm ∷ []),
    )
    else (c, each_probe stop_measure c.probes)

-- `raws i` is what `stopMeasure` of probe `i` returns.
pub stop :
    {W : Type 0} ⦃d : Double W⦄
    → Collector
    → Results W
    → (ℕ → List W)
    → Option (Collector × Results W × List Effect)
unfolding each_probe
stop c results raws = do
  results' ← record_measurement results c.probes raws
  some (
      if c.need_thread
      then (
        record c { thread_collecting = false },
        results',
        each_probe stop_measure c.probes ++ (kill_sigusr1 ∷ []),
      )
      else (c, results', each_probe stop_measure c.probes))

-- The destructor.
pub destroy : Collector → Collector × List Effect
destroy c =
    if c.need_thread
    then (record c { thread_running = false }, cond_signal ∷ kill_sigalrm ∷ join ∷ [])
    else (c, [])

pub get_label : Collector → ℕ → Option String
get_label c index = do
  assert (ltb index (length c.probes))
  p ← get_elem? c.probes index
  some (get_probe_label p)
