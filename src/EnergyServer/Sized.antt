-- ===== src/EnergyServer/Sized.antt =====
-- The sizes of the arrays of the server of probes/libenergyserver, and when it ends.
use lpowerprobe.Common.{
  ℕ, ◌+◌, ◌≤◌, ◌≡◌, refl, ap, ◌∙◌, Bool, true, false, some, List, length, get_elem?, set, arith,
  ltb, ◌==◌, Bool-cases, Option-cases, inl, inr, ltb→lt, some_injective, length-set,
  length-replicate,
}
use lpowerprobe.KernelRunner.Invariant.Kept.{sem_wait-some}
use lpowerprobe.EnergyServer.{
  Meter, max_nb_devices, Outcome, acquired, timed_out, interrupted, failed, Server, at_head,
  waiting, stopping, copying, posting, starting, ended, Call, call_start, call_stop, Asking, idle,
  to_post, to_wait, reading, returned, State, initial, timedwait, server_move, put, client_move,
  client_step, Step, by_server, by_client, by_signal, Documented, Uninterrupted,
}
use lpowerprobe.EnergyServer.Invariant.{assert-true}

-- The library gives a result for each of `n` devices, as long as its data are `Good`, and it keeps them so.
pub record Lawful {C R W : Type 0} (meter : Meter C R W) (n : ℕ) (Good : C → Type 0) : Type 0 where
  pub started : (r : R) (ctx : C) → Good ctx → Good (meter.start r ctx)
  pub updated : (r : R) (ctx : C) → Good ctx → Good (meter.update r ctx)
  pub stopped : (r : R) (ctx : C) → Good ctx → Good (meter.stop r ctx).1
  pub gives : (r : R) (ctx : C) → Good ctx → length (meter.stop r ctx).0 ≡ n

abbrev pub is_ended : Server → Bool
is_ended ended = true
is_ended at_head = false
is_ended waiting = false
is_ended stopping = false
is_ended (copying i) = false
is_ended posting = false
is_ended starting = false

-- The loop that copies has the results of `stop`.
abbrev pub Filling : {W : Type 0} → ℕ → Server → List W → Type 0
Filling n (copying i) last_results = (length last_results ≡ n) × (i ≤ n)
Filling n at_head last_results = Unit {0}
Filling n waiting last_results = Unit {0}
Filling n stopping last_results = Unit {0}
Filling n posting last_results = Unit {0}
Filling n starting last_results = Unit {0}
Filling n ended last_results = Unit {0}

pub record Sized {C W : Type 0} (n : ℕ) (Good : C → Type 0) (s : State C W) : Type 0 where
  pub nb : s.nb_devices ≡ n
  pub room : length s.energy ≡ max_nb_devices
  pub filling : Filling n s.server s.last_results
  pub good : Good s.ctx
  pub stops : is_ended s.server ≡ true → s.wants_stop ≡ true

-- What a client leaves as it was.
record Left {C W : Type 0} (s s' : State C W) : Type 0 where
  server : s'.server ≡ s.server
  ctx : s'.ctx ≡ s.ctx
  wants_stop : s'.wants_stop ≡ s.wants_stop
  last_results : s'.last_results ≡ s.last_results
  nb_devices : s'.nb_devices ≡ s.nb_devices
  energy : s'.energy ≡ s.energy

module _ {C W : Type 0} (s : State C W) (k : ℕ) where
  put-Left :
      (asking : Asking) (res : List W) (measure read : ℕ) {s' : State C W}
      → record (put s k asking res) { measure = measure; read = read } ≡ s'
      → Left s s'
  put-Left asking res measure read is = rw (← is) (record {
    server = refl;
    ctx = refl;
    wants_stop = refl;
    last_results = refl;
    nb_devices = refl;
    energy = refl;
  })

  client_move-Left :
      (next : Call) (asking : Asking) (res : List W) {s' : State C W}
      → client_move next acquired k s asking res ≡ some s'
      → Left s s'
  unfolding client_move
  client_move-Left next idle res ran = put-Left (to_post next) res _ _ (some_injective ran)
  client_move-Left next (to_post call) res ran =
      put-Left (to_wait call) res _ _ (some_injective ran)
  client_move-Left next (to_wait call_start) res ran =
      let (left, open_lock, ran') = sem_wait-some s.read _ ran in
      put-Left idle res _ _ (some_injective ran')
  client_move-Left next (to_wait call_stop) res ran =
      let (left, open_lock, ran') = sem_wait-some s.read _ ran in
      put-Left (reading 0) res _ _ (some_injective ran')
  client_move-Left next (reading i) res ran = elim (Bool-cases (ltb i s.nb_devices)) [
    | inl more ↦ elim (Option-cases (get_elem? s.energy i)) [
      | inl missing ↦ absurd (cc (rw (more, missing) at ran))
      | inr (energy, found) ↦
          let (_, ran') = assert-true (ltb i (length res)) _ (rw (more, found) at ran) in
          put-Left (reading (i + 1)) (set res i energy) _ _ (some_injective ran')
    ]
    | inr last ↦ put-Left returned res _ _ (some_injective (rw last at ran))
  ]
  client_move-Left next returned res ran = put-Left (to_post next) res _ _ (some_injective ran)

module _ {C R W : Type 0} (meter : Meter C R W) (n : ℕ) (Good : C → Type 0)
    (law : Lawful meter n Good) (s : State C W) (h : Sized n Good s) where
  -- A step to a phase that has nothing to copy.
  at_phase :
      (phase : Server) (wants_stop : Bool) (ctx : C) (measure read : ℕ)
      → Filling n phase s.last_results
      → Good ctx
      → (is_ended phase ≡ true → wants_stop ≡ true)
      → Sized n Good (record s {
        server = phase;
        wants_stop = wants_stop;
        ctx = ctx;
        measure = measure;
        read = read;
      })
  at_phase phase wants_stop ctx measure read filling good stops = record {
    nb = h.nb;
    room = h.room;
    filling = filling;
    good = good;
    stops = stops;
  }

  timedwait-Sized :
      (o : Outcome) (r : R) {s' : State C W} → timedwait meter o r s ≡ some s' → Sized n Good s'
  unfolding timedwait
  timedwait-Sized acquired r ran =
      let (left, open_lock, ran') = sem_wait-some s.measure _ ran in
      rw (← some_injective ran')
        (at_phase stopping s.wants_stop s.ctx left s.read tt h.good (λ e. cc))
  timedwait-Sized timed_out r ran =
      let (_, ran') = assert-true (s.measure == 0) _ ran in
      rw (← some_injective ran') (
        at_phase at_head s.wants_stop (meter.update r s.ctx) s.measure s.read tt
          (law.updated r s.ctx h.good) (λ e. cc))
  timedwait-Sized interrupted r ran =
      rw (← some_injective ran)
        (at_phase at_head s.wants_stop s.ctx s.measure s.read tt h.good (λ e. cc))
  timedwait-Sized failed r ran =
      rw (← some_injective ran)
        (at_phase stopping s.wants_stop s.ctx s.measure s.read tt h.good (λ e. cc))

  server_move-Sized :
      (o : Outcome) (r : R) (phase : Server) {s' : State C W}
      → Filling n phase s.last_results
      → server_move meter o r s phase ≡ some s'
      → Sized n Good s'
  unfolding server_move
  server_move-Sized o r at_head filling ran = elim (Bool-cases s.wants_stop) [
    | inl stops ↦ rw (← some_injective (rw stops at ran)) (
        at_phase ended true (meter.stop r s.ctx).1 s.measure s.read tt (law.stopped r s.ctx h.good)
          (λ e. refl))
    | inr goes ↦
        rw (← some_injective (rw goes at ran))
          (at_phase waiting false s.ctx s.measure s.read tt h.good (λ e. cc))
  ]
  server_move-Sized o r waiting filling ran = timedwait-Sized o r ran
  server_move-Sized o r stopping filling ran = rw (← some_injective ran) (record {
    nb = h.nb;
    room = h.room;
    filling = (law.gives r s.ctx h.good, omega arith);
    good = law.stopped r s.ctx h.good;
    stops = λ e. cc;
  })
  server_move-Sized o r (copying i) (full, le) ran = elim (Bool-cases (ltb i s.nb_devices)) [
    | inl more ↦ elim (Option-cases (get_elem? s.last_results i)) [
      | inl missing ↦ absurd (cc (rw (more, missing) at ran))
      | inr (result, found) ↦
          let (_, ran') = assert-true (ltb i (length s.energy)) _ (rw (more, found) at ran) in
          rw (← some_injective ran') (record {
            nb = h.nb;
            room = length-set s.energy i result ∙ h.room;
            filling = (full, omega (arith, ltb→lt i s.nb_devices more, h.nb));
            good = h.good;
            stops = λ e. cc;
          })
    ]
    | inr last ↦
        rw (← some_injective (rw last at ran))
          (at_phase posting s.wants_stop s.ctx s.measure s.read tt h.good (λ e. cc))
  ]
  server_move-Sized o r posting filling ran =
      rw (← some_injective ran)
        (at_phase starting s.wants_stop s.ctx s.measure (s.read + 1) tt h.good (λ e. cc))
  server_move-Sized o r starting filling ran = rw (← some_injective ran) (
      at_phase at_head s.wants_stop (meter.start r s.ctx) s.measure s.read tt
        (law.started r s.ctx h.good) (λ e. cc))
  server_move-Sized o r ended filling ran = absurd (cc)

module _ {C R W : Type 0} (meter : Meter C R W) (n : ℕ) (Good : C → Type 0)
    (law : Lawful meter n Good) where
  pub Step-Sized :
      {s s' : State C W}
      → Sized n Good s
      → Step meter Documented Uninterrupted s s'
      → Sized n Good s'
  unfolding client_step
  Step-Sized {s} h (by_server o r allowed ran) =
      server_move-Sized meter n Good law s h o r s.server h.filling ran
  Step-Sized {s} {s'} h (by_client next o k takes_one ran) =
      elim (Option-cases (get_elem? s.clients k)) [
        | inl missing ↦ absurd (cc (rw missing at ran))
        | inr (c, at) ↦
            let l = client_move-Left s k next c.asking c.res (rw at at (rw takes_one at ran)) in
            record {
              nb = l.nb_devices ∙ h.nb;
              room = ap length l.energy ∙ h.room;
              filling = rw (l.server, l.last_results) h.filling;
              good = rw l.ctx h.good;
              stops = rw (l.server, l.wants_stop) h.stops;
            }
      ]
  Step-Sized {s} h (by_signal is) =
      rw is
        (record { nb = h.nb; room = h.room; filling = h.filling; good = h.good; stops = λ e. refl })

  pub initial-Sized :
      (nought : W) (ctx : C) (nb_clients : ℕ)
      → Good ctx
      → Sized n Good (initial nought ctx n nb_clients)
  unfolding initial
  initial-Sized nought ctx nb_clients good = record {
    nb = refl;
    room = length-replicate max_nb_devices nought;
    filling = tt;
    good = good;
    stops = λ e. cc;
  }
