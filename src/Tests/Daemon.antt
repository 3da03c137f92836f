-- ===== src/Tests/Daemon.antt =====
-- src/DaemonRunner.cpp with a meter and two signals, and a third that ends the daemon.
use lpowerprobe.Common.{ℕ, refl, List, [], ◌∷◌}
use lpowerprobe.Double.{whole}
use lpowerprobe.DaemonRunner.{Turn, Daemon, sigusr1, sigterm}
use lpowerprobe.DaemonRunner.Signals.{Ends, and_on, at_pause, goes_measured, goes_pause}
use lpowerprobe.Tests.Sample.{one_result, one_overhead, idle}

abbrev waiting : Daemon ℕ
waiting = record {
  collector = idle;
  overhead = one_overhead;
  results = one_result;
  nb_meta_repet = 1;
}

abbrev two_turns : List Turn
two_turns =
    record { before = []; first_pause = sigusr1 ∷ []; second_pause = sigusr1 ∷ [] }
    ∷ record { before = []; first_pause = sigterm ∷ []; second_pause = [] }
    ∷ []

one_measured : Ends two_turns 1
one_measured =
    and_on (goes_measured refl ((λ e. cc), refl) ((λ e. cc), refl))
      (at_pause (goes_pause refl refl))
