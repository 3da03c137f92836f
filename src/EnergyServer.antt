-- ===== src/EnergyServer.antt =====
-- probes/libenergyserver: a server that reads the counters of the processor for programs that may not, and
-- the probe library that these load. They meet in a shared memory with two semaphores. A step is one
-- call of a semaphore or of the library below, or one round of a loop that copies.
pub mod Setup
pub mod Invariant
pub mod Agree
pub mod Safety
pub mod Sized
pub mod Served
pub mod Msr
use lpowerprobe.Common.{
  ℕ, zero, suc, ◌+◌, ◌≡◌, Bool, true, false, Option, none, some, List, [], ◌∷◌, replicate, length,
  get_elem?, set, ◌>>=◌, ◌>>◌, assert, ltb, ◌==◌, if◌then◌else◌,
}
use lpowerprobe.KernelRunner.{sem_wait}

-- What the server calls of the library it is linked with. An `R` is what the machine shows at a call, a
-- `C` the library's data.
pub record Meter (C R W : Type 0) : Type 0 where
  pub start : R → C → C
  pub stop : R → C → List W × C
  pub update : R → C → C

-- ESRV_MAX_NB_DEVICES.
abbrev pub max_nb_devices : ℕ
max_nb_devices = 4

-- What `sem_timedwait` does: it takes the semaphore, or returns with ETIMEDOUT, EINTR or another error.
pub data Outcome : Type 0 where
  acquired timed_out interrupted failed : Outcome

-- Where the server stands: at the test of `wants_stop`, at `sem_timedwait`, at `stop`, at a round of the
-- loop that copies, at `sem_post`, at `start`, or behind its loop.
pub data Server : Type 0 where
  at_head waiting stopping : Server
  copying : ℕ → Server
  posting starting ended : Server

-- The functions of the probe library that use the semaphores.
pub data Call : Type 0 where
  call_start call_stop : Call

-- Where a client stands: outside of the library, in a call at its sem_post or at its sem_wait, at a round
-- of the loop of `stop`, or behind it.
pub data Asking : Type 0 where
  idle : Asking
  to_post to_wait : Call → Asking
  reading : ℕ → Asking
  returned : Asking

pub record Client (W : Type 0) : Type 0 where
  pub asking : Asking
  pub res : List W

pub record State (C W : Type 0) : Type 0 where
  pub server : Server
  pub wants_stop : Bool
  pub ctx : C
  pub last_results : List W  -- as the library's `stop` returned them
  pub clients : List (Client W)
  pub measure : ℕ
  pub read : ℕ
  pub nb_devices : ℕ
  pub energy : List W

-- The server in front of its loop, with `nb_clients` clients that have called `init`.
unfoldable pub initial : {C W : Type 0} → W → C → ℕ → ℕ → State C W
initial nought ctx nb_devices nb_clients = record {
  server = at_head;
  wants_stop = false;
  ctx = ctx;
  last_results = replicate max_nb_devices nought;
  clients = replicate nb_clients (record { asking = idle; res = replicate nb_devices nought });
  measure = 0;
  read = 0;
  nb_devices = nb_devices;
  energy = replicate max_nb_devices nought;
}

module _ {C R W : Type 0} (meter : Meter C R W) where
  -- `sem_timedwait` and what follows it up to the next call.
  unfoldable pub timedwait : Outcome → R → State C W → Option (State C W)
  timedwait acquired r s = do
    left ← sem_wait s.measure
    some (record s { server = stopping; measure = left })
  timedwait timed_out r s = do
    assert (s.measure == 0)
    some (record s { server = at_head; ctx = meter.update r s.ctx })
  timedwait interrupted r s = some (record s { server = at_head })
  timedwait failed r s = some (record s { server = stopping })

  -- The step of the server, which stands at a phase.
  unfoldable pub server_move : Outcome → R → State C W → Server → Option (State C W)
  unfolding timedwait
  server_move o r s at_head =
      if s.wants_stop
      then some (record s { server = ended; ctx = (meter.stop r s.ctx).1 })
      else some (record s { server = waiting })
  server_move o r s waiting = timedwait o r s
  server_move o r s stopping =
      let stopped = meter.stop r s.ctx in
      some (record s { server = copying 0; last_results = stopped.0; ctx = stopped.1 })
  server_move o r s (copying i) =
      if ltb i s.nb_devices
      then (do
        result ← get_elem? s.last_results i
        assert (ltb i (length s.energy))
        some (record s { server = copying (i + 1); energy = set s.energy i result }))
      else some (record s { server = posting })
  server_move o r s posting = some (record s { server = starting; read = s.read + 1 })
  server_move o r s starting = some (record s { server = at_head; ctx = meter.start r s.ctx })
  server_move o r s ended = none

-- Client `k` goes to a phase.
abbrev pub put : {C W : Type 0} → State C W → ℕ → Asking → List W → State C W
put s k asking res = record s { clients = set s.clients k (record { asking = asking; res = res }) }

-- `sem_wait` of a client. Where it fails, because of a signal or otherwise, it takes nothing, and the client
-- goes on all the same, since the result is not looked at. It does not time out.
abbrev pub client_wait : Outcome → ℕ → Option ℕ
client_wait acquired read = sem_wait read
client_wait timed_out read = none
client_wait interrupted read = some read
client_wait failed read = some read

-- The step of client `k`, which stands at a phase with `res`; outside of the library it makes the call
-- `next`, and at its `sem_wait` that behaves as given.
unfoldable pub client_move :
    {C W : Type 0} → Call → Outcome → ℕ → State C W → Asking → List W → Option (State C W)
client_move next o k s idle res = some (put s k (to_post next) res)
client_move next o k s (to_post call) res =
    some (record (put s k (to_wait call) res) { measure = s.measure + 1 })
client_move next o k s (to_wait call_start) res = do
  left ← client_wait o s.read
  some (record (put s k idle res) { read = left })
client_move next o k s (to_wait call_stop) res = do
  left ← client_wait o s.read
  some (record (put s k (reading 0) res) { read = left })
client_move next o k s (reading i) res =
    if ltb i s.nb_devices
    then (do
      energy ← get_elem? s.energy i
      assert (ltb i (length res))
      some (put s k (reading (i + 1)) (set res i energy)))
    else some (put s k returned res)
client_move next o k s returned res = some (put s k (to_post next) res)

unfoldable pub client_step : {C W : Type 0} → Call → Outcome → ℕ → State C W → Option (State C W)
unfolding client_move
client_step next o k s = do c ← get_elem? s.clients k; client_move next o k s c.asking c.res

-- `handler_fn`.
abbrev pub handler_fn : {C W : Type 0} → State C W → State C W
handler_fn s = record s { wants_stop = true }

module _ {C R W : Type 0} (meter : Meter C R W) where
  -- The server, a client or a signal, where `sem_timedwait` of the server behaves as `Allowed` says, and
  -- `sem_wait` of a client as `Taken` says.
  pub data Step (Allowed Taken : Outcome → Type 0) (s s' : State C W) : Type 0 where
    by_server :
        (o : Outcome) (r : R)
        → Allowed o
        → server_move meter o r s s.server ≡ some s'
        → Step Allowed Taken s s'
    by_client :
        (next : Call) (o : Outcome) (k : ℕ)
        → Taken o
        → client_step next o k s ≡ some s'
        → Step Allowed Taken s s'
    by_signal : s' ≡ handler_fn s → Step Allowed Taken s s'

  pub data Steps (Allowed Taken : Outcome → Type 0) : State C W → State C W → Type 0 where
    rest : {s : State C W} → Steps Allowed Taken s s
    then_step :
        {s s' s'' : State C W}
        → Steps Allowed Taken s s'
        → Step Allowed Taken s' s''
        → Steps Allowed Taken s s''

-- The semaphore is valid and the time is too: these are all the outcomes that are documented.
pub data Documented : Outcome → Type 0 where
  takes : Documented acquired
  times_out : Documented timed_out
  is_interrupted : Documented interrupted

-- No signal ends a client's `sem_wait` before its time.
abbrev pub Uninterrupted : Outcome → Type 0
Uninterrupted o = o ≡ acquired
