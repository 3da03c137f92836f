-- ===== src/Tests/Serving.antt =====
-- probes/libenergyserver with a library of two devices whose counters show one number.
use lpowerprobe.Common.{
  ℕ, ◌+◌, ◌-◌, ◌<◌, ◌≡◌, refl, inl, true, false, Option, none, some, List, [], ◌∷◌, ◌>>=◌,
  Option-cases, inr, arith,
}
use lpowerprobe.Common.Weight.{weight}
use lpowerprobe.EnergyServer.{
  Meter, acquired, interrupted, call_stop, returned, reading, put, client_move, Client, State,
  initial, server_move, client_step, by_server, by_client, Steps, rest, then_step, Documented,
  Uninterrupted, takes,
}
use lpowerprobe.EnergyServer.Setup.{System, Memory}
use lpowerprobe.EnergyServer.Invariant.{waits, in_service, requests-Conserved}
use lpowerprobe.EnergyServer.Agree.{Agree}
use lpowerprobe.EnergyServer.Safety.{stop_returns}
use lpowerprobe.EnergyServer.Sized.{Lawful}
use lpowerprobe.EnergyServer.Served.{request_answered}

abbrev counting : Meter ℕ ℕ ℕ
counting = record {
  start = λ r c. r;
  stop = λ r c. ((r - c) ∷ (r - c + 100) ∷ [], c);
  update = λ r c. c;
}

-- `some r` is a step of the server when the counters show `r`, `none` one of client 0.
unfoldable steps : List (Option ℕ) → State ℕ ℕ → Option (State ℕ ℕ)
unfolding server_move client_step
steps [] s = some s
steps (some r ∷ moves) s = server_move counting acquired r s s.server >>= steps moves
steps (none ∷ moves) s = client_step call_stop acquired 0 s >>= steps moves

steps-Steps :
    (moves : List (Option ℕ)) (first s : State ℕ ℕ) {s' : State ℕ ℕ}
    → Steps counting Documented Uninterrupted first s
    → steps moves s ≡ some s'
    → Steps counting Documented Uninterrupted first s'
unfolding steps
steps-Steps [] first s {s'} before ran = let is : s' ≡ s = cc in rw is before
steps-Steps (some r ∷ moves) first s before ran =
    elim (Option-cases (server_move counting acquired r s s.server)) [
      | inl blocked ↦ absurd (ground (arith, blocked, ran))
      | inr (mid, moved) ↦
          steps-Steps moves first mid (then_step before (by_server acquired r takes moved))
            (rw moved at ran)
    ]
steps-Steps (none ∷ moves) first s before ran =
    elim (Option-cases (client_step call_stop acquired 0 s)) [
      | inl blocked ↦ absurd (ground (arith, blocked, ran))
      | inr (mid, moved) ↦
          steps-Steps moves first mid (then_step before (by_client call_stop acquired 0 refl moved))
            (rw moved at ran)
    ]

-- The client asks; the server takes the request, copies and posts; the client reads.
abbrev asked : List (Option ℕ)
asked = none ∷ none ∷ some 5 ∷ []

abbrev exchange : List (Option ℕ)
exchange =
    none
    ∷ none
    ∷ some 5
    ∷ some 5
    ∷ some 7
    ∷ some 9
    ∷ some 9
    ∷ some 9
    ∷ some 9
    ∷ none
    ∷ none
    ∷ none
    ∷ none
    ∷ []

abbrev state_of : Option (State ℕ ℕ) → State ℕ ℕ
unfolding initial
state_of none = initial 0 0 0 0
state_of (some s) = s

abbrev after : List (Option ℕ) → State ℕ ℕ
unfolding steps initial
after moves = state_of (steps moves (initial 0 3 2 1))

exchange-Steps : Steps counting Documented Uninterrupted (initial 0 3 2 1) (after exchange)
unfolding after steps initial server_move client_step
exchange-Steps = steps-Steps exchange (initial 0 3 2 1) (initial 0 3 2 1) rest refl

asked-Steps : Steps counting Documented Uninterrupted (initial 0 3 2 1) (after asked)
unfolding after steps initial server_move client_step
asked-Steps = steps-Steps asked (initial 0 3 2 1) (initial 0 3 2 1) rest refl

requests-Conserved_example :
    (after asked).measure + in_service (after asked).server + (after asked).read
    ≡ weight waits (after asked).clients
requests-Conserved_example = requests-Conserved counting 0 3 2 1 asked-Steps

abbrev done : Client ℕ
done = record { asking = returned; res = 4 ∷ 104 ∷ [] }

stop_returns_example :
    ((after exchange).measure + in_service (after exchange).server ≡ 0)
    × Agree (after exchange).nb_devices done.res (after exchange).last_results
unfolding after steps initial server_move client_step
stop_returns_example = stop_returns counting 0 3 2 exchange-Steps refl refl

abbrev Anything : ℕ → Type 0
Anything c = Unit {0}

counting-Lawful : Lawful counting 2 Anything
counting-Lawful = record {
  started = λ r c good. tt;
  updated = λ r c good. tt;
  stopped = λ r c good. tt;
  gives = λ r c good. refl;
}

request_answered_example :
    (s' : State ℕ ℕ) × Steps counting Documented Uninterrupted (after asked) s'
    × (0 < s'.read)
    × (s'.clients ≡ (after asked).clients)
unfolding after steps initial server_move client_step
request_answered_example =
    request_answered counting 9 0 3 2 1 Anything (after asked) counting-Lawful tt (omega arith)
      asked-Steps refl (omega arith)

abbrev working : System
working = record { shm_opens = true; resizes = true; maps = true }

abbrev no_memory : Memory
no_memory = record { named = false; mapped = false; fd_open = false }

-- The client asks, and its `sem_wait` is interrupted: it reads at once, and its request stays.
interrupted_stop :
    (client_step call_stop interrupted 0 (after (none ∷ none ∷ []))
      ≡ some (put (after (none ∷ none ∷ [])) 0 (reading 0) (0 ∷ 0 ∷ [])))
    × ((after (none ∷ none ∷ [])).measure ≡ 1)
unfolding after steps initial client_step client_move
interrupted_stop = (refl, refl)
