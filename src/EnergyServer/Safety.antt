-- ===== src/EnergyServer/Safety.antt =====
-- probes/libenergyserver with a single client: the loops that copy the measurement, on both sides.
use lpowerprobe.Common.{
  ℕ, zero, suc, ◌+◌, ◌≡◌, refl, ap, sym, ◌∙◌, Bool, true, false, none, some, List, [], ◌∷◌, length,
  get_elem?, set, replicate, arith, ltb, ◌==◌, Bool-cases, Option-cases, inl, inr, some_injective,
  ltb→lt, ltb-false→le,
}
use lpowerprobe.KernelRunner.Invariant.Kept.{sem_wait-some}
use lpowerprobe.EnergyServer.{
  Meter, Outcome, acquired, timed_out, interrupted, failed, Server, at_head, waiting, stopping,
  copying, posting, starting, ended, Call, call_start, call_stop, Asking, idle, to_post, to_wait,
  reading, returned, Client, State, initial, timedwait, server_move, put, client_move, client_step,
  Step, by_server, by_client, by_signal, Steps, Documented, Uninterrupted, takes, times_out,
  is_interrupted,
}
use lpowerprobe.EnergyServer.Invariant.{asks, in_service, assert-true, Steps-keep}
use lpowerprobe.EnergyServer.Agree.{
  Agree, Agree-set, Written, Held, Held-waiting, Written-calm, asks-le_one, Held-returned,
}

record One {C W : Type 0} (s : State C W) : Type 0 where
  client : Client W
  alone : s.clients ≡ client ∷ []
  conserved : s.measure + in_service s.server + s.read ≡ asks client.asking
  written : Written s.nb_devices s.server s.energy s.last_results
  held : Held s.nb_devices client.asking client.res s.last_results

module _ {C R W : Type 0} (meter : Meter C R W) (s : State C W) (h : One s) where
  timedwait-One :
      (o : Outcome) (r : R) {s' : State C W}
      → Documented o
      → in_service s.server ≡ 0
      → Agree s.nb_devices s.energy s.last_results
      → timedwait meter o r s ≡ some s'
      → One s'
  unfolding timedwait
  timedwait-One acquired r takes calm agree ran =
      let (left, open_lock, ran') = sem_wait-some s.measure _ ran in
      rw (← some_injective ran') (record {
        client = h.client;
        alone = h.alone;
        conserved = omega (arith, h.conserved, calm, open_lock);
        written = agree;
        held = h.held;
      })
  timedwait-One timed_out r times_out calm agree ran =
      let (_, ran') = assert-true (s.measure == 0) _ ran in
      rw (← some_injective ran') (record {
        client = h.client;
        alone = h.alone;
        conserved = omega (arith, h.conserved, calm);
        written = agree;
        held = h.held;
      })
  timedwait-One interrupted r is_interrupted calm agree ran = rw (← some_injective ran) (record {
    client = h.client;
    alone = h.alone;
    conserved = omega (arith, h.conserved, calm);
    written = agree;
    held = h.held;
  })
  timedwait-One failed r allowed calm agree ran = elim allowed [ ]

  -- A step that neither takes nor answers a request, nor writes to the shared memory.
  still :
      (phase : Server) (wants_stop : Bool) (ctx : C)
      → in_service phase ≡ in_service s.server
      → Written s.nb_devices phase s.energy s.last_results
      → One (record s { server = phase; wants_stop = wants_stop; ctx = ctx })
  still phase wants_stop ctx same written = record {
    client = h.client;
    alone = h.alone;
    conserved = omega (arith, h.conserved, same);
    written = written;
    held = h.held;
  }

  -- The client waits while the server serves.
  client_waits : in_service s.server ≡ 1 → asks h.client.asking ≡ 1
  client_waits serves = omega (arith, h.conserved, serves, asks-le_one h.client.asking)

  server_move-One :
      (o : Outcome) (r : R) (phase : Server) {s' : State C W}
      → Documented o
      → in_service s.server ≡ in_service phase
      → Written s.nb_devices phase s.energy s.last_results
      → server_move meter o r s phase ≡ some s'
      → One s'
  unfolding server_move
  server_move-One o r at_head {s'} allowed at written ran = elim (Bool-cases s.wants_stop) [
    | inl stops ↦
        rw (← some_injective (rw stops at ran))
          (still ended true (meter.stop r s.ctx).1 (sym at) written)
    | inr goes ↦ rw (← some_injective (rw goes at ran)) (still waiting false s.ctx (sym at) written)
  ]
  server_move-One o r waiting allowed at written ran = timedwait-One o r allowed at written ran
  server_move-One o r stopping allowed at written ran = rw (← some_injective ran) (record {
    client = h.client;
    alone = h.alone;
    conserved = omega (arith, h.conserved, at);
    written = λ j lt. absurd (omega (arith, lt));
    held = Held-waiting s.nb_devices h.client.asking h.client.res _ (client_waits at);
  })
  server_move-One o r (copying i) allowed at written ran = elim (Bool-cases (ltb i s.nb_devices)) [
    | inl more ↦ elim (Option-cases (get_elem? s.last_results i)) [
      | inl missing ↦ absurd (cc (rw (more, missing) at ran))
      | inr (result, found) ↦
          let (inside, ran') = assert-true (ltb i (length s.energy)) _ (rw (more, found) at ran) in
          rw (← some_injective ran') (record {
            client = h.client;
            alone = h.alone;
            conserved = omega (arith, h.conserved, at);
            written = Agree-set i s.energy s.last_results result inside found written;
            held = h.held;
          })
    ]
    | inr last ↦ rw (← some_injective (rw last at ran)) (
        still posting s.wants_stop s.ctx (sym at)
          (λ j lt. written j (omega (arith, lt, ltb-false→le i s.nb_devices last))))
  ]
  server_move-One o r posting allowed at written ran = rw (← some_injective ran) (record {
    client = h.client;
    alone = h.alone;
    conserved = omega (arith, h.conserved, at);
    written = written;
    held = h.held;
  })
  server_move-One o r starting allowed at written ran =
      rw (← some_injective ran) (still at_head s.wants_stop (meter.start r s.ctx) (sym at) written)
  server_move-One o r ended allowed at written ran = absurd (cc)

module _ {C W : Type 0} (s : State C W) (h : One s) where
  calm : asks h.client.asking ≡ 0 → in_service s.server ≡ 0
  calm rests = omega (arith, h.conserved, rests)

  -- The client goes to a phase, with an array and the two semaphores.
  moved :
      (asking : Asking) (res : List W) (measure read : ℕ)
      → measure + in_service s.server + read ≡ asks asking
      → Held s.nb_devices asking res s.last_results
      → One (record (put s 0 asking res) { measure = measure; read = read })
  moved asking res measure read conserved held = record {
    client = record { asking = asking; res = res };
    alone = ap (λ clients. set clients 0 (record { asking = asking; res = res })) h.alone;
    conserved = conserved;
    written = h.written;
    held = held;
  }

  client_move-One :
      (next : Call) (asking : Asking) (res : List W) {s' : State C W}
      → asks h.client.asking ≡ asks asking
      → Held s.nb_devices asking res s.last_results
      → client_move next acquired 0 s asking res ≡ some s'
      → One s'
  unfolding client_move
  client_move-One next idle res at held ran =
      rw (← some_injective ran)
        (moved (to_post next) res s.measure s.read (omega (arith, h.conserved, at)) tt)
  client_move-One next (to_post call) res at held ran =
      rw (← some_injective ran)
        (moved (to_wait call) res (s.measure + 1) s.read (omega (arith, h.conserved, at)) tt)
  client_move-One next (to_wait call_start) res at held ran =
      let (left, open_lock, ran') = sem_wait-some s.read _ ran in
      rw (← some_injective ran')
        (moved idle res s.measure left (omega (arith, h.conserved, at, open_lock)) tt)
  client_move-One next (to_wait call_stop) res at held ran =
      let (left, open_lock, ran') = sem_wait-some s.read _ ran in
      rw (← some_injective ran') (
        moved (reading 0) res s.measure left (omega (arith, h.conserved, at, open_lock))
          (λ j lt. absurd (omega (arith, lt))))
  client_move-One next (reading i) res at held ran = elim (Bool-cases (ltb i s.nb_devices)) [
    | inl more ↦ elim (Option-cases (get_elem? s.energy i)) [
      | inl missing ↦ absurd (cc (rw (more, missing) at ran))
      | inr (energy, found) ↦
          let (inside, ran') = assert-true (ltb i (length res)) _ (rw (more, found) at ran) in
          let agree =
            Written-calm s.nb_devices s.server s.energy s.last_results (calm at) h.written in
          rw (← some_injective ran') (
            moved (reading (i + 1)) (set res i energy) s.measure s.read
              (omega (arith, h.conserved, at))
              (Agree-set i res s.last_results energy inside
                (sym (agree i (ltb→lt i s.nb_devices more)) ∙ found) held))
    ]
    | inr last ↦ rw (← some_injective (rw last at ran)) (
        moved returned res s.measure s.read (omega (arith, h.conserved, at))
          (λ j lt. held j (omega (arith, lt, ltb-false→le i s.nb_devices last))))
  ]
  client_move-One next returned res at held ran =
      rw (← some_injective ran)
        (moved (to_post next) res s.measure s.read (omega (arith, h.conserved, at)) tt)

module _ {C R W : Type 0} (meter : Meter C R W) where
  Step-One : {s s' : State C W} → One s → Step meter Documented Uninterrupted s s' → One s'
  unfolding client_step
  Step-One {s} h (by_server o r allowed ran) =
      server_move-One meter s h o r s.server allowed refl h.written ran
  Step-One {s} h (by_client next o zero takes_one ran) =
      let at : get_elem? s.clients 0 ≡ some h.client = ap (λ l. get_elem? l 0) h.alone in
      client_move-One s h next h.client.asking h.client.res refl h.held
        (rw at at (rw takes_one at ran))
  Step-One {s} h (by_client next o (suc k) takes_one ran) =
      let none_there : get_elem? s.clients (suc k) ≡ none = ap (λ l. get_elem? l (suc k)) h.alone in
      absurd (cc (rw none_there at ran))
  Step-One {s} h (by_signal is) = rw is (still meter s h s.server true s.ctx refl h.written)

  initial-One : (nought : W) (ctx : C) (nb_devices : ℕ) → One (initial nought ctx nb_devices 1)
  unfolding initial
  initial-One nought ctx nb_devices = record {
    client = record { asking = idle; res = replicate nb_devices nought };
    alone = refl;
    conserved = refl;
    written = λ j lt. refl;
    held = tt;
  }

  Steps-One :
      (nought : W) (ctx : C) (nb_devices : ℕ) {s : State C W}
      → Steps meter Documented Uninterrupted (initial nought ctx nb_devices 1) s
      → One s
  Steps-One nought ctx nb_devices =
      Steps-keep meter Documented Uninterrupted One (λ t t' h step. Step-One h step)
        (initial-One nought ctx nb_devices)

-- With one client and whatever the order of the steps: a client that has come back from `stop` holds,
-- for every device, what the server's last measurement gave, and the server has neither a request to
-- take nor one that it serves. `sem_timedwait` is taken to fail in the documented ways only, and no
-- `sem_wait` of the client fails: no signal interrupts it.
pub stop_returns :
    {C R W : Type 0} (meter : Meter C R W) (nought : W) (ctx : C) (nb_devices : ℕ) {s : State C W}
    {c : Client W}
    → Steps meter Documented Uninterrupted (initial nought ctx nb_devices 1) s
    → get_elem? s.clients 0 ≡ some c
    → c.asking ≡ returned
    → (s.measure + in_service s.server ≡ 0) × Agree s.nb_devices c.res s.last_results
stop_returns meter nought ctx nb_devices {s} {c} reached at back =
    let h = Steps-One meter nought ctx nb_devices reached in
    let is : h.client ≡ c = some_injective (sym (ap (λ l. get_elem? l 0) h.alone) ∙ at) in
    let (rests, agree) =
      Held-returned s.nb_devices h.client.asking h.client.res s.last_results (rw is back) h.held in
    (omega (arith, h.conserved, rests), rw is at agree)
