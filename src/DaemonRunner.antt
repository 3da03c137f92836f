-- ===== src/DaemonRunner.antt =====
-- src/DaemonRunner.cpp: the daemon measures from one signal to the next. A signal ends a `pause` and its
-- handler sets `end`; the signals are given, turn by turn, up to the pause that the daemon is in. What the
-- code only prints, the file with the process id and the installation of the handler are left out.
pub mod Signals
pub mod Laws
use lpowerprobe.Common.{
  ℕ, zero, suc, ◌+◌, ◌%◌, ◌^◌, Bool, true, false, Option, none, some, List, [], ◌∷◌, ◌>>=◌,
  if◌then◌else◌,
}
use lpowerprobe.Double.{Double}
use lpowerprobe.Results.{Results}
use lpowerprobe.Collector.{Collector, start, stop, cancel}

-- The signals that the handler is installed for.
pub data Signal : Type 0 where
  sigterm sigint sigusr1 : Signal

-- `end` after the handler.
unfoldable pub sighandler : Signal → Bool → Bool
sighandler sigterm end = true
sighandler sigint end = true
sighandler sigusr1 end = end

-- A turn of the loop: the signals that come before its head and in its two pauses. A pause in which none
-- comes does not end.
pub record Turn : Type 0 where
  pub before : List Signal
  pub first_pause : List Signal
  pub second_pause : List Signal

unfoldable pub handle : List Signal → Bool → Bool
unfolding sighandler
handle [] end = end
handle (s ∷ ss) end = handle ss (sighandler s end)

abbrev pub unanswered : List Signal → Bool
unanswered [] = true
unanswered (s ∷ ss) = false

-- How a turn goes: `end` is read at the head of the loop and behind each pause. A turn that is
-- cancelled leaves it set, one that is measured does not.
pub data Course : Type 0 where
  left_at_loop in_first_pause left_at_pause in_second_pause cancelled measured : Course

unfoldable pub course : Turn → Bool → Course
unfolding handle
course t end =
    let end_loop = handle t.before end in
    let end_first = handle t.first_pause end_loop in
    let end_second = handle t.second_pause end_first in
    if end_loop
    then left_at_loop
    else if unanswered t.first_pause
    then in_first_pause
    else if end_first
    then left_at_pause
    else if unanswered t.second_pause
    then in_second_pause
    else if end_second
    then cancelled
    else measured

pub record Daemon (W : Type 0) : Type 0 where
  pub collector : Collector
  pub overhead : Results W
  pub results : Results W
  pub nb_meta_repet : ℕ  -- unsigned int

-- Behind the given signals the daemon is in a pause, or its loop has ended.
pub data Run (W : Type 0) : Type 0 where
  waits ends : Daemon W → Run W

module _ {W : Type 0} ⦃d : Double W⦄ where
  -- The probes are started and stopped; `raws` are the readings.
  unfoldable pub measure : Collector → Results W → (ℕ → List W) → Option (Collector × Results W)
  measure c results raws = do
    (c', results', effects) ← stop (start c).0 results raws
    some (c', results')

  -- The loop, from repetition `meta_repet` on. Behind the last turn it ends if `end` is set, and else
  -- pauses. `readings k` is what the probes return in repetition `k`.
  unfoldable pub daemon_turns : List Turn → Bool → ℕ → (ℕ → ℕ → List W) → Daemon W → Option (Run W)
  unfolding course measure
  daemon_turns [] end meta_repet readings s =
      if end
      then some (ends s)
      else some (waits (record s { nb_meta_repet = (meta_repet + 1) % 2 ^ 32 }))
  daemon_turns (t ∷ ts) end meta_repet readings s =
      let next = (meta_repet + 1) % 2 ^ 32 in
      elim (course t end) [
        | left_at_loop ↦ some (ends s)
        | in_first_pause ↦ some (waits (record s { nb_meta_repet = next }))
        | left_at_pause ↦ some (ends (record s { nb_meta_repet = next }))
        | in_second_pause ↦
            some (waits (record s { nb_meta_repet = next; collector = (start s.collector).0 }))
        | cancelled ↦
            daemon_turns ts true next readings
              (record s { nb_meta_repet = next; collector = (cancel (start s.collector).0).0 })
        | measured ↦ do
          (c', results') ← measure s.collector s.results (readings meta_repet)
          daemon_turns ts false next readings
              (record s { nb_meta_repet = next; collector = c'; results = results' })
      ]

  -- `start`: one measurement without a load is the overhead, then the loop runs.
  unfoldable pub start_daemon :
      List Turn → (ℕ → List W) → (ℕ → ℕ → List W) → Daemon W → Option (Run W)
  unfolding daemon_turns measure
  start_daemon turns idle readings s = do
    (c', overhead') ← measure s.collector s.overhead idle
    daemon_turns turns false 0 readings (record s { collector = c'; overhead = overhead' })
