-- ===== src/EnergyServer/Served.antt =====
-- The way of the server of probes/libenergyserver through its loop, from a request to its answer.
use lpowerprobe.Common.{
  ℕ, zero, suc, ◌+◌, ◌≤◌, ◌<◌, ◌≡◌, refl, ◌∙◌, true, false, length, set, arith, ltb, Bool-cases,
  inl, inr, ◌-◌, lt→ltb, le→ltb-false, length-set, get_elem?_of_lt,
}
use lpowerprobe.Common.Weight.{weight}
use lpowerprobe.EnergyServer.{
  Meter, max_nb_devices, acquired, Server, at_head, waiting, stopping, copying, posting, starting,
  ended, State, initial, timedwait, server_move, by_server, Steps, rest, then_step, Documented,
  Uninterrupted, takes,
}
use lpowerprobe.EnergyServer.Invariant.{
  waits, in_service, Conserved, Steps-keep, requests-Conserved,
}
use lpowerprobe.EnergyServer.Sized.{Lawful, is_ended, Filling, Sized, Step-Sized, initial-Sized}

module _ {C R W : Type 0} (meter : Meter C R W) (r : R) (n : ℕ) (Good : C → Type 0)
    (law : Lawful meter n Good) (few : n ≤ max_nb_devices) (first : State C W) where
  -- A state in which an answer is there for the same clients.
  abbrev pub Answered : Type 0
  Answered =
      (s : State C W) × Steps meter Documented Uninterrupted first s
      × (0 < s.read)
      × (s.clients ≡ first.clients)

  -- The server goes on to a phase.
  from_posting :
      (s : State C W)
      → Steps meter Documented Uninterrupted first (record s { server = posting })
      → s.clients ≡ first.clients
      → Answered
  unfolding server_move
  from_posting s before same = (
    record s { server = starting; read = s.read + 1 },
    then_step before (by_server acquired r takes refl),
    omega arith,
    same,
  )

  from_copying :
      (count i : ℕ) (s : State C W)
      → i + count ≡ n
      → s.nb_devices ≡ n
      → length s.last_results ≡ n
      → length s.energy ≡ max_nb_devices
      → Steps meter Documented Uninterrupted first (record s { server = copying i })
      → s.clients ≡ first.clients
      → Answered
  unfolding server_move
  from_copying zero i s e nb full room before same =
      let last : ltb i s.nb_devices ≡ false = le→ltb-false i s.nb_devices (omega (arith, e, nb)) in
      from_posting s (then_step before (by_server acquired r takes (rw last refl))) same
  from_copying (suc count) i s e nb full room before same =
      let more : ltb i s.nb_devices ≡ true = lt→ltb i s.nb_devices (omega (arith, e, nb)) in
      let inside : ltb i (length s.energy) ≡ true =
        lt→ltb i (length s.energy) (omega (arith, e, room, few)) in
      let (result, found) = get_elem?_of_lt s.last_results i (omega (arith, e, full)) in
      from_copying count (i + 1) (record s { energy = set s.energy i result }) (omega (arith, e)) nb
        full (length-set s.energy i result ∙ room)
        (then_step before (by_server acquired r takes (rw (more, found, inside) refl))) same

  from_stopping :
      (s : State C W)
      → s.nb_devices ≡ n
      → length s.energy ≡ max_nb_devices
      → Good s.ctx
      → Steps meter Documented Uninterrupted first (record s { server = stopping })
      → s.clients ≡ first.clients
      → Answered
  unfolding server_move
  from_stopping s nb room good before same =
      let stopped = meter.stop r s.ctx in
      from_copying n 0 (record s { last_results = stopped.0; ctx = stopped.1 }) (omega arith) nb
        (law.gives r s.ctx good) room (then_step before (by_server acquired r takes refl)) same

  from_waiting :
      (s : State C W)
      → 0 < s.measure
      → s.nb_devices ≡ n
      → length s.energy ≡ max_nb_devices
      → Good s.ctx
      → Steps meter Documented Uninterrupted first (record s { server = waiting })
      → s.clients ≡ first.clients
      → Answered
  unfolding server_move timedwait
  from_waiting s some_request nb room good before same = go s.measure refl some_request
    where
      go : (m : ℕ) → s.measure ≡ m → 0 < m → Answered
      go zero is some_request = absurd (omega (arith, some_request))
      go (suc left) is some_request =
          from_stopping (record s { measure = left }) nb room good
            (then_step before (by_server acquired r takes (rw is refl))) same

module _ {C R W : Type 0} (meter : Meter C R W) (r : R) (n : ℕ) (Good : C → Type 0)
    (law : Lawful meter n Good) (few : n ≤ max_nb_devices) (first : State C W) where
  from_head :
      (s : State C W)
      → s.nb_devices ≡ n
      → length s.energy ≡ max_nb_devices
      → Good s.ctx
      → s.wants_stop ≡ false
      → 0 < s.measure
      → Steps meter Documented Uninterrupted first (record s { server = at_head })
      → s.clients ≡ first.clients
      → Answered meter r n Good law few first
  unfolding server_move
  from_head s nb room good goes due before same =
      from_waiting meter r n Good law few first s due nb room good
        (then_step before (by_server acquired r takes (rw goes refl))) same

  -- The server, at any phase of its loop, with a request to take or one that it has taken.
  from_phase :
      (s : State C W) (phase : Server)
      → s.nb_devices ≡ n
      → length s.energy ≡ max_nb_devices
      → Good s.ctx
      → Filling n phase s.last_results
      → s.wants_stop ≡ false
      → is_ended phase ≡ false
      → 0 < s.measure + in_service phase
      → Steps meter Documented Uninterrupted first (record s { server = phase })
      → s.clients ≡ first.clients
      → Answered meter r n Good law few first
  unfolding server_move
  from_phase s at_head nb room good filling goes on due before same =
      from_head s nb room good goes (omega (arith, due)) before same
  from_phase s waiting nb room good filling goes on due before same =
      from_waiting meter r n Good law few first s (omega (arith, due)) nb room good before same
  from_phase s stopping nb room good filling goes on due before same =
      from_stopping meter r n Good law few first s nb room good before same
  from_phase s (copying i) nb room good (full, le) goes on due before same =
      from_copying meter r n Good law few first (n - i) i s (omega (arith, le)) nb full room before
        same
  from_phase s posting nb room good filling goes on due before same =
      from_posting meter r n Good law few first s before same
  from_phase s starting nb room good filling goes on due before same =
      from_head (record s { ctx = meter.start r s.ctx }) nb room (law.started r s.ctx good) goes
        (omega (arith, due)) (then_step before (by_server acquired r takes refl)) same
  from_phase s ended nb room good filling goes on due before same = absurd (cc)

-- Where no signal interrupts a client's `sem_wait`, in every reachable state where a client waits for an
-- answer and the server has not been told to stop, with at most four devices, for each of which the library gives a result: some further steps
-- lead to a state where an answer is there and no client has moved.
pub request_answered :
    {C R W : Type 0} (meter : Meter C R W) (r : R) (nought : W) (ctx : C) (n nb_clients : ℕ)
    (Good : C → Type 0) (s : State C W)
    → Lawful meter n Good
    → Good ctx
    → n ≤ max_nb_devices
    → Steps meter Documented Uninterrupted (initial nought ctx n nb_clients) s
    → s.wants_stop ≡ false
    → 0 < weight waits s.clients
    → (s' : State C W) × Steps meter Documented Uninterrupted s s'
      × (0 < s'.read)
      × (s'.clients ≡ s.clients)
request_answered meter r nought ctx n nb_clients Good s law good few reached goes some_waits =
    let h =
      Steps-keep meter Documented Uninterrupted (Sized n Good)
        (λ t t' h step. Step-Sized meter n Good law h step)
        (initial-Sized meter n Good law nought ctx nb_clients good) reached in
    let conserved = requests-Conserved meter nought ctx n nb_clients reached in
    go h conserved (s.read) refl
  where
    go : Sized n Good s → Conserved s → (k : ℕ) → s.read ≡ k → Answered meter r n Good law few s
    go h conserved (suc k) is = (s, rest, omega (arith, is), refl)
    go h conserved zero is = elim (Bool-cases (is_ended s.server)) [
      | inl over ↦ absurd (cc (h.stops over, goes))
      | inr on ↦
          from_phase meter r n Good law few s s s.server h.nb h.room h.good h.filling goes on
            (omega (arith, conserved, some_waits, is)) rest refl
    ]
