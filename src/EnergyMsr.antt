-- ===== src/EnergyMsr.antt =====
-- probes/libenergymsr/libenergymsr.c: the energy that each socket has used, from a 32-bit counter of the
-- processor. The files of the system are parameters: the socket of a core, whether the registers of a
-- core can be opened, and what a read of a register gives.
pub mod Sockets
pub mod Energy
pub mod Exact
use lpowerprobe.Common.{
  ℕ, zero, suc, ◌+◌, ◌-◌, ◌*◌, ◌/◌, ◌%◌, ◌^◌, Bool, true, false, Option, none, some, List, [], ◌∷◌,
  ◌>>=◌, ltb, ◌==◌, if◌then◌else◌,
}

-- What the code does with `float` and `double`. Nothing is assumed of it here.
pub record Joule (W : Type 0) : Type 0 where
  pub pow_half : ℕ → W  -- pow(0.5, n)
  pub scale : ℕ → W → W  -- e_base * eUnit
  pub wraps : ℕ → W → W  -- ovfCnt * (UINT32_MAX + 1.) * eUnit
  pub add : W → W → W
  pub sub : W → W → W
  pub less : W → W → Bool
  pub nought : W

-- The files of /sys and /dev.
pub record Machine : Type 0 where
  pub nb_cores : ℕ
  pub package_id : ℕ → Option ℕ  -- of a core, if its file can be read
  pub opens : ℕ → Bool  -- the registers of a core
  pub power_unit : ℕ → Option ℕ  -- MSR_RAPL_POWER_UNIT of a core, if it can be read
  pub unset : ℕ → ℕ  -- what `energy_unit` holds before it is read

-- µs.
abbrev pub period : ℕ
period = 20000000

unfoldable pub subvalue : ℕ → ℕ → ℕ → ℕ
subvalue val pos length = val / 2 ^ pos % 2 ^ length

-- The loop over the cores from `i` on, `count` of them.
unfoldable pub nb_sockets_from : Machine → ℕ → ℕ → ℕ → ℕ
nb_sockets_from machine zero i nb_sockets = nb_sockets
nb_sockets_from machine (suc count) i nb_sockets = elim (machine.package_id i) [
  | none ↦ nb_sockets_from machine count (i + 1) nb_sockets
  | some sid ↦
      let next = (sid + 1) % 2 ^ 32 in
      nb_sockets_from machine count (i + 1) (if ltb nb_sockets next then next else nb_sockets)
]

unfoldable pub nb_devices : Machine → ℕ
unfolding nb_sockets_from
nb_devices machine = nb_sockets_from machine machine.nb_cores 0 1

-- The first core from `c` on of a socket.
unfoldable pub find_core : Machine → ℕ → ℕ → ℕ → Option ℕ
find_core machine socket zero c = none
find_core machine socket (suc count) c =
    let rest = find_core machine socket count (c + 1) in
    elim (machine.package_id c) [
      | none ↦ rest
      | some sock_id ↦ if sock_id == socket then some c else rest
    ]

-- The arrays of `libdata_t` at one socket.
pub record Socket (W : Type 0) : Type 0 where
  pub fd : ℕ  -- the core whose registers are open
  pub e_unit : W
  pub last_e : W
  pub ref_e : W
  pub ovf_cnt : ℕ  -- unsigned int
  pub res : W

-- `energy_unit` behind the `pread`, whose result is not looked at.
unfoldable pub energy_unit : Machine → ℕ → ℕ
energy_unit machine c = elim (machine.power_unit c) [ none ↦ machine.unset c | some unit ↦ unit ]

module _ {W : Type 0} ⦃d : Joule W⦄ where
  -- The loop of `init` over the sockets from `s` on; `none` is a null pointer. What `malloc` returns
  -- is not written before `start`: `garbage` stands there.
  unfoldable pub open_sockets : Machine → Socket W → ℕ → ℕ → Option (List (Socket W))
  unfolding find_core subvalue energy_unit
  open_sockets machine garbage zero s = some []
  open_sockets machine garbage (suc count) s = do
    c ← find_core machine s machine.nb_cores 0
    rest ← (if machine.opens c then open_sockets machine garbage count (s + 1) else none)
    some (
        record garbage { fd = c; e_unit = d.pow_half (subvalue (energy_unit machine c) 8 5) }
        ∷ rest)

  unfoldable pub init : Machine → Socket W → Option (List (Socket W))
  unfolding open_sockets nb_devices
  init machine garbage = open_sockets machine garbage (nb_devices machine) 0

  -- One round of `start`; a read that fails leaves the socket as it was.
  unfoldable pub start_socket : Socket W → Option ℕ → Socket W
  unfolding subvalue
  start_socket socket none = socket
  start_socket socket (some counter) =
      let energy = d.scale (subvalue counter 0 32) socket.e_unit in
      record socket { ref_e = energy; last_e = energy; ovf_cnt = 0; res = d.nought }

  -- One round of `update`.
  unfoldable pub update_socket : Socket W → Option ℕ → Socket W
  unfolding subvalue
  update_socket socket none = socket
  update_socket socket (some counter) =
      let energy = d.scale (subvalue counter 0 32) socket.e_unit in
      record socket {
        ovf_cnt =
            if d.less energy socket.last_e then (socket.ovf_cnt + 1) % 2 ^ 32 else socket.ovf_cnt;
        last_e = energy;
      }

  unfoldable pub stop_socket : Socket W → Option ℕ → Socket W
  stop_socket socket reading =
      let s = update_socket socket reading in
      record s { res = d.sub (d.add s.last_e (d.wraps s.ovf_cnt s.e_unit)) s.ref_e }

  -- The loops over the sockets from `s` on; `reads s` is what the counter of socket `s` gives.
  abbrev pub each_socket :
      (Socket W → Option ℕ → Socket W) → ℕ → (ℕ → Option ℕ) → List (Socket W) → List (Socket W)
  each_socket f s reads [] = []
  each_socket f s reads (socket ∷ sockets) =
      f socket (reads s) ∷ each_socket f (s + 1) reads sockets

  unfoldable pub start : (ℕ → Option ℕ) → List (Socket W) → List (Socket W)
  unfolding start_socket
  start = each_socket start_socket 0

  unfoldable pub update : (ℕ → Option ℕ) → List (Socket W) → List (Socket W)
  unfolding update_socket
  update = each_socket update_socket 0

  abbrev pub results : List (Socket W) → List W
  results [] = []
  results (socket ∷ sockets) = socket.res ∷ results sockets

  -- What `stop` points to, with the sockets behind it.
  unfoldable pub stop : (ℕ → Option ℕ) → List (Socket W) → List W × List (Socket W)
  unfolding stop_socket
  stop reads sockets =
      let sockets' = each_socket stop_socket 0 reads sockets in (results sockets', sockets')
