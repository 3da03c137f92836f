-- ===== src/Tests/Sockets.antt =====
-- probes/libenergymsr/libenergymsr.c on a machine with two cores in one socket.
use lpowerprobe.Common.{
  ℕ, ◌+◌, ◌-◌, ◌*◌, ◌^◌, ◌<◌, ◌≡◌, refl, true, none, some, List, [], ◌∷◌, length, arith, ◌⊎◌,
}
use lpowerprobe.EnergyMsr.{Machine, Socket, init, nb_devices}
use lpowerprobe.EnergyMsr.Energy.{measured, measured_lem}
use lpowerprobe.EnergyMsr.Exact.{exact, energy_measured, energy_lost}
use lpowerprobe.EnergyMsr.Sockets.{AllOpen, Fails, init_lem}

abbrev two_cores : Machine
two_cores = record {
  nb_cores = 2;
  package_id = λ c. some 0;
  opens = λ c. true;
  power_unit = λ c. some (16 * 2 ^ 8);
  unset = λ c. 0;
}

abbrev a_socket : Socket ℕ
a_socket = record { fd = 0; e_unit = 2 ^ 48; last_e = 7; ref_e = 7; ovf_cnt = 7; res = 7 }

init_lem_example :
    ((sockets : List (Socket ℕ)) × (init two_cores a_socket ≡ some sockets)
      × (length sockets ≡ nb_devices two_cores)
      × AllOpen two_cores 0 sockets)
    ⊎ ((init two_cores a_socket ≡ none)
        × ((s : ℕ) × (s < nb_devices two_cores) × Fails two_cores s))
init_lem_example = init_lem two_cores a_socket

measured_lem_example :
    measured a_socket 4294967291 (4294967299 ∷ []) 8589934593
    ≡ 1 * 2 ^ 48 + 2 * 2 ^ 32 * 2 ^ 48 - 4294967291 * 2 ^ 48
measured_lem_example =
    measured_lem a_socket 4294967291 (4294967299 ∷ []) 8589934593 (refl, tt) refl
      (omega arith, omega arith, tt) (omega arith) (omega arith) (omega arith)

energy_measured_example :
    measured a_socket 4294967291 (4294967299 ∷ []) 8589934593 ≡ 4294967302 * 2 ^ 48
energy_measured_example =
    energy_measured a_socket 4294967291 (4294967299 ∷ []) 8589934593 (omega arith)
      (omega arith, omega arith, tt) (omega arith) (omega arith) (omega arith) (omega arith)

energy_lost_example : measured a_socket 4294967291 [] 8589934593 ≡ 6 * 2 ^ 48
energy_lost_example = energy_lost a_socket 4294967291 8589934593 (omega arith) (omega arith)
