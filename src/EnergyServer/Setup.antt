-- ===== src/EnergyServer/Setup.antt =====
-- What the server does before its loop, and the `init`, `nbDevices` and `fini` of the probe library. What
-- the system's calls return is a parameter.
use lpowerprobe.Common.{
  ℕ, ◌≤◌, ◌≡◌, refl, ◌⊎◌, inl, inr, Bool, true, false, Option, none, some, List, replicate, ltb,
  if◌then◌else◌, Bool-cases, Option-cases, ltb-false→le,
}
use lpowerprobe.EnergyServer.{max_nb_devices, Meter}

-- Which of the calls succeed. `mmap` returns MAP_FAILED when it fails, where the code looks for a null
-- pointer: `maps` is false if that is what it returns.
pub record System : Type 0 where
  pub shm_opens : Bool
  pub resizes : Bool
  pub maps : Bool

-- The shared memory: whether its name is in the system, and what the process has of it.
pub record Memory : Type 0 where
  pub named : Bool
  pub mapped : Bool
  pub fd_open : Bool

-- Whether a process has gone on, and with what.
pub data Begun (A : Type 0) : Type 0 where
  failure : Begun A
  begun : A → Begun A

-- `main` up to its loop. `ctx` is what the library's `init` returns, `r` what the machine shows then.
unfoldable pub set_up :
    {C R W : Type 0} → Meter C R W → R → System → ℕ → Option C → Memory → Begun C × Memory
set_up meter r sys nb_devices ctx memory =
    let created = record memory { named = true; fd_open = true } in
    let mapped = record created { mapped = true; fd_open = false } in
    if ltb max_nb_devices nb_devices
    then (failure, memory)
    else if sys.shm_opens
    then if sys.resizes
      then if sys.maps
        then elim ctx [
          | none ↦ (failure, record mapped { named = false; mapped = false })
          | some c ↦ (begun (meter.start r c), mapped)
        ]
        else (failure, record created { named = false })
      else (failure, record created { named = false })
    else (failure, memory)

-- `init` of the probe library: a null pointer, or the zeros that `stop` is to fill. It opens a memory
-- that is there, and removes its name where it cannot go on.
unfoldable pub client_init : {W : Type 0} → W → System → ℕ → Memory → Begun (List W) × Memory
client_init nought sys nb_devices memory =
    let opened = record memory { fd_open = true } in
    if memory.named
    then if sys.shm_opens
      then if sys.resizes
        then if sys.maps
          then (
            begun (replicate nb_devices nought),
            record opened { mapped = true; fd_open = false },
          )
          else (failure, record opened { named = false })
        else (failure, record opened { named = false })
      else (failure, memory)
    else (failure, memory)

-- `nbDevices`: `none` is a null pointer.
unfoldable pub client_nb_devices : {W : Type 0} → Option (List W) → ℕ → ℕ
client_nb_devices none nb_devices = 0
client_nb_devices (some res) nb_devices = nb_devices

-- `freeLibData` returns at once for whatever is not a null pointer, and `fini` does not call it for one.
unfoldable pub client_fini : {W : Type 0} → Option (List W) → Memory → Memory
client_fini none memory = memory
client_fini (some res) memory = memory

-- On a machine without the shared memory, `main` reaches its loop exactly with a library that is
-- initialised and at most four devices, started, with the memory named and mapped and its descriptor
-- closed; otherwise neither the name nor the mapping is left.
pub set_up_lem :
    {C R W : Type 0} (meter : Meter C R W) (r : R) (sys : System) (nb_devices : ℕ) (ctx : Option C)
    (memory : Memory)
    → memory.named ≡ false
    → memory.mapped ≡ false
    → let (result, left) = set_up meter r sys nb_devices ctx memory in
      ((c : C) × (ctx ≡ some c)
        × (nb_devices ≤ max_nb_devices)
        × (result ≡ begun (meter.start r c))
        × (left ≡ record { named = true; mapped = true; fd_open = false }))
      ⊎ ((result ≡ failure) × (left.named ≡ false) × (left.mapped ≡ false))
unfolding set_up
set_up_lem meter r sys nb_devices ctx memory unnamed unmapped =
    elim (Bool-cases (ltb max_nb_devices nb_devices)) [
      | inl many ↦ rw many (inr (refl, unnamed, unmapped))
      | inr few ↦ elim (Bool-cases sys.shm_opens) [
        | inr closed ↦ rw (few, closed) (inr (refl, unnamed, unmapped))
        | inl opens ↦ elim (Bool-cases sys.resizes) [
          | inr fixed ↦ rw (few, opens, fixed) (inr (refl, refl, unmapped))
          | inl resizes ↦ elim (Bool-cases sys.maps) [
            | inr unmaps ↦ rw (few, opens, resizes, unmaps) (inr (refl, refl, unmapped))
            | inl maps ↦ elim (Option-cases ctx) [
              | inl missing ↦ rw (few, opens, resizes, maps, missing) (inr (refl, refl, refl))
              | inr (c, is) ↦
                  rw (few, opens, resizes, maps, is)
                    (inl (c, refl, ltb-false→le max_nb_devices nb_devices few, refl, refl))
            ]
          ]
        ]
      ]
    ]
