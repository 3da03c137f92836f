-- ===== src/EnergyServer/Invariant.antt =====
-- probes/libenergyserver: the requests that the semaphores and the server hold, against the clients that wait.
use lpowerprobe.Common.{
  ℕ, ◌+◌, ◌≡◌, refl, Bool, true, false, Option, some, List, length, get_elem?, set, replicate,
  arith, ltb, ◌==◌, Bool-cases, Option-cases, inl, inr, ◌>>◌, assert, some_injective,
}
use lpowerprobe.Common.Weight.{weight, weight-set, weight-replicate}
use lpowerprobe.KernelRunner.Invariant.Kept.{sem_wait-some}
use lpowerprobe.EnergyServer.{
  Meter, Outcome, acquired, timed_out, interrupted, failed, Server, at_head, waiting, stopping,
  copying, posting, starting, ended, Call, call_start, call_stop, Asking, idle, to_post, to_wait,
  reading, returned, Client, State, initial, timedwait, server_move, put, client_move, client_step,
  Step, by_server, by_client, by_signal, Steps, rest, then_step, Documented, Uninterrupted, takes,
  times_out, is_interrupted,
}

abbrev pub asks : Asking → ℕ
asks idle = 0
asks (to_post call) = 0
asks (to_wait call) = 1
asks (reading i) = 0
asks returned = 0

abbrev pub waits : {W : Type 0} → Client W → ℕ
waits c = asks c.asking

-- Whether the server has taken a request that it has not answered.
abbrev pub in_service : Server → ℕ
in_service at_head = 0
in_service waiting = 0
in_service stopping = 1
in_service (copying i) = 1
in_service posting = 1
in_service starting = 0
in_service ended = 0

-- The requests are the clients that wait.
abbrev pub Conserved : {C W : Type 0} → State C W → Type 0
Conserved s = s.measure + in_service s.server + s.read ≡ weight waits s.clients

pub assert-true {ℓ} :
    {A : Type ℓ} (b : Bool) (o : Option A) {a : A}
    → (assert b >> o) ≡ some a
    → (b ≡ true) × (o ≡ some a)
assert-true true o ran = (refl, ran)
assert-true false o ran = absurd (cc)

module _ {C R W : Type 0} (meter : Meter C R W) (s : State C W) (h : Conserved s) where
  timedwait-Conserved :
      (o : Outcome) (r : R) {s' : State C W}
      → Documented o
      → in_service s.server ≡ 0
      → timedwait meter o r s ≡ some s'
      → Conserved s'
  unfolding timedwait
  timedwait-Conserved acquired r takes at ran =
      let (left, open_lock, ran') = sem_wait-some s.measure _ ran in
      rw (← some_injective ran') (omega (arith, h, at, open_lock))
  timedwait-Conserved timed_out r times_out at ran =
      let (_, ran') = assert-true (s.measure == 0) _ ran in
      rw (← some_injective ran') (omega (arith, h, at))
  timedwait-Conserved interrupted r is_interrupted at ran =
      rw (← some_injective ran) (omega (arith, h, at))
  timedwait-Conserved failed r allowed at ran = elim allowed [ ]

  server_move-Conserved :
      (o : Outcome) (r : R) (phase : Server) {s' : State C W}
      → Documented o
      → in_service s.server ≡ in_service phase
      → server_move meter o r s phase ≡ some s'
      → Conserved s'
  unfolding server_move
  server_move-Conserved o r at_head {s'} allowed at ran = elim (Bool-cases s.wants_stop) [
    | inl stops ↦ rw (← some_injective (rw stops at ran)) (omega (arith, h, at))
    | inr goes ↦ rw (← some_injective (rw goes at ran)) (omega (arith, h, at))
  ]
  server_move-Conserved o r waiting allowed at ran = timedwait-Conserved o r allowed at ran
  server_move-Conserved o r stopping allowed at ran =
      rw (← some_injective ran) (omega (arith, h, at))
  server_move-Conserved o r (copying i) allowed at ran = elim (Bool-cases (ltb i s.nb_devices)) [
    | inl more ↦ elim (Option-cases (get_elem? s.last_results i)) [
      | inl missing ↦ absurd (cc (rw (more, missing) at ran))
      | inr (result, found) ↦
          let (_, ran') = assert-true (ltb i (length s.energy)) _ (rw (more, found) at ran) in
          rw (← some_injective ran') (omega (arith, h, at))
    ]
    | inr last ↦ rw (← some_injective (rw last at ran)) (omega (arith, h, at))
  ]
  server_move-Conserved o r posting allowed at ran =
      rw (← some_injective ran) (omega (arith, h, at))
  server_move-Conserved o r starting allowed at ran =
      rw (← some_injective ran) (omega (arith, h, at))
  server_move-Conserved o r ended allowed at ran = absurd (cc)

module _ {C W : Type 0} (s : State C W) (h : Conserved s) (k : ℕ) where
  -- What a client that goes to a phase does to the clients that wait.
  counted :
      {c : Client W} (asking : Asking) (res : List W)
      → get_elem? s.clients k ≡ some c
      → weight waits (put s k asking res).clients + waits c ≡ weight waits s.clients + asks asking
  counted asking res at = weight-set waits s.clients k (record { asking = asking; res = res }) at

  client_move-Conserved :
      (next : Call) {c : Client W} (asking : Asking) (res : List W) {s' : State C W}
      → get_elem? s.clients k ≡ some c
      → waits c ≡ asks asking
      → client_move next acquired k s asking res ≡ some s'
      → Conserved s'
  unfolding client_move
  client_move-Conserved next idle res at is ran =
      rw (← some_injective ran) (omega (arith, h, is, counted (to_post next) res at))
  client_move-Conserved next (to_post call) res at is ran =
      rw (← some_injective ran) (omega (arith, h, is, counted (to_wait call) res at))
  client_move-Conserved next (to_wait call_start) res at is ran =
      let (left, open_lock, ran') = sem_wait-some s.read _ ran in
      rw (← some_injective ran') (omega (arith, h, is, open_lock, counted idle res at))
  client_move-Conserved next (to_wait call_stop) res at is ran =
      let (left, open_lock, ran') = sem_wait-some s.read _ ran in
      rw (← some_injective ran') (omega (arith, h, is, open_lock, counted (reading 0) res at))
  client_move-Conserved next (reading i) res at is ran = elim (Bool-cases (ltb i s.nb_devices)) [
    | inl more ↦ elim (Option-cases (get_elem? s.energy i)) [
      | inl missing ↦ absurd (cc (rw (more, missing) at ran))
      | inr (energy, found) ↦
          let (_, ran') = assert-true (ltb i (length res)) _ (rw (more, found) at ran) in
          rw (← some_injective ran')
            (omega (arith, h, is, counted (reading (i + 1)) (set res i energy) at))
    ]
    | inr last ↦
        rw (← some_injective (rw last at ran)) (omega (arith, h, is, counted returned res at))
  ]
  client_move-Conserved next returned res at is ran =
      rw (← some_injective ran) (omega (arith, h, is, counted (to_post next) res at))

module _ {C R W : Type 0} (meter : Meter C R W) where
  pub Step-Conserved :
      {s s' : State C W} → Conserved s → Step meter Documented Uninterrupted s s' → Conserved s'
  unfolding client_step
  Step-Conserved {s} h (by_server o r allowed ran) =
      server_move-Conserved meter s h o r s.server allowed refl ran
  Step-Conserved {s} h (by_client next o k takes_one ran) =
      elim (Option-cases (get_elem? s.clients k)) [
        | inl missing ↦ absurd (cc (rw missing at ran))
        | inr (c, at) ↦
            client_move-Conserved s h k next c.asking c.res at refl (rw at at (rw takes_one at ran))
      ]
  Step-Conserved h (by_signal is) = rw is h

-- What every step keeps holds in every state that is reached.
pub Steps-keep :
    {C R W : Type 0} (meter : Meter C R W) (Allowed Taken : Outcome → Type 0)
    (P : State C W → Type 0) {first s : State C W}
    → ((t t' : State C W) → P t → Step meter Allowed Taken t t' → P t')
    → P first
    → Steps meter Allowed Taken first s
    → P s
Steps-keep meter Allowed Taken P keep h rest = h
Steps-keep meter Allowed Taken P keep h (then_step before last) =
    keep _ _ (Steps-keep meter Allowed Taken P keep h before) last

pub initial-Conserved :
    {C W : Type 0} (nought : W) (ctx : C) (nb_devices nb_clients : ℕ)
    → Conserved (initial nought ctx nb_devices nb_clients)
unfolding initial
initial-Conserved nought ctx nb_devices nb_clients = rw (
    weight-replicate waits nb_clients (record { asking = idle; res = replicate nb_devices nought })
      refl)

-- In every reachable state, however many clients there are and whatever the order of the steps: the
-- requests that the server has not taken, the one that it serves and the answers that no client has
-- taken are as many as the clients that wait for an answer. `sem_timedwait` is taken to fail in the
-- documented ways only, and no client's `sem_wait` fails: no signal interrupts it.
pub requests-Conserved :
    {C R W : Type 0} (meter : Meter C R W) (nought : W) (ctx : C) (nb_devices nb_clients : ℕ)
    {s : State C W}
    → Steps meter Documented Uninterrupted (initial nought ctx nb_devices nb_clients) s
    → s.measure + in_service s.server + s.read ≡ weight waits s.clients
requests-Conserved meter nought ctx nb_devices nb_clients =
    Steps-keep meter Documented Uninterrupted Conserved (λ t t' h step. Step-Conserved meter h step)
      (initial-Conserved nought ctx nb_devices nb_clients)
