-- ===== src/EnergyServer/Msr.antt =====
-- The library that the server of probes/libenergyserver is linked with: probes/libenergymsr.
use lpowerprobe.Common.{ℕ, ◌+◌, ◌≡◌, refl, ◌∙◌, Option, List, [], ◌∷◌, length, arith}
use lpowerprobe.EnergyMsr.{
  Joule, Socket, each_socket, results, start_socket, update_socket, stop_socket, start, stop,
  update,
}
use lpowerprobe.EnergyServer.{Meter}
use lpowerprobe.EnergyServer.Sized.{Lawful}

module _ {W : Type 0} ⦃d : Joule W⦄ where
  length-each_socket :
      (f : Socket W → Option ℕ → Socket W) (s : ℕ) (reads : ℕ → Option ℕ)
      (sockets : List (Socket W))
      → length (each_socket f s reads sockets) ≡ length sockets
  length-each_socket f s reads [] = refl
  length-each_socket f s reads (socket ∷ sockets) =
      omega (arith, length-each_socket f (s + 1) reads sockets)

  length-results : (sockets : List (Socket W)) → length (results sockets) ≡ length sockets
  length-results [] = refl
  length-results (socket ∷ sockets) = omega (arith, length-results sockets)

  -- What a call sees of the machine is what each counter gives, if it can be read.
  unfoldable pub msr : Meter (List (Socket W)) (ℕ → Option ℕ) W
  unfolding start stop update
  msr = record { start = start; stop = stop; update = update }

  -- As many sockets stay open as there are, and `stop` gives a result for each.
  pub msr-Lawful : (n : ℕ) → Lawful msr n (λ sockets. length sockets ≡ n)
  unfolding msr start stop update
  msr-Lawful n = record {
    started = λ reads sockets open_. length-each_socket start_socket 0 reads sockets ∙ open_;
    updated = λ reads sockets open_. length-each_socket update_socket 0 reads sockets ∙ open_;
    stopped = λ reads sockets open_. length-each_socket stop_socket 0 reads sockets ∙ open_;
    gives = λ reads sockets open_.
        length-results (each_socket stop_socket 0 reads sockets)
        ∙ length-each_socket stop_socket 0 reads sockets
        ∙ open_;
  }
