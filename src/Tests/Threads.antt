-- ===== src/Tests/Threads.antt =====
-- src/ProgramExperimentation.cpp and src/KernelCompiler.cpp with two threads.
use lpowerprobe.Common.{
  ℕ, ◌≡◌, ◌↔◌, refl, true, false, Option, some, List, [], ◌∷◌, ◌++◌, arith, inr,
}
use Prim.Native.String.{String}
use lpowerprobe.Double.{whole}
use lpowerprobe.ProbeData.{ProbeData}
use lpowerprobe.Probe.{done}
use lpowerprobe.Results.{Results, new_results}
use lpowerprobe.Writer.{file, write_header}
use lpowerprobe.Writer.Line.{table_text}
use lpowerprobe.Writer.Table.{IsTable}
use lpowerprobe.Options.{
  Options, new_options, settle, set_default_values, has_missing_options, drop_ignored,
  is_exec_kernel, names_kernel, is_daemon,
}
use lpowerprobe.KernelCompiler.{compile, gcc_command}
use lpowerprobe.KernelCompiler.Laws.{IsCompiled, compile_lem}
use lpowerprobe.DaemonRunner.Laws.{Recorded}
use lpowerprobe.Experimentation.{Experimentation}
use lpowerprobe.Experimentation.Laws.{IsPrepared}
use lpowerprobe.Experimentation.Runs.{pinned_cpu}
use lpowerprobe.Experimentation.Threads.{start_program_experimentation}
use lpowerprobe.Experimentation.Measured.{program_table}
use lpowerprobe.Experimentation.Pinned.{pinned_cpu-settle}
use lpowerprobe.Tests.Sample.{meters, watts, watts-Enough, idle}
use lpowerprobe.Results.Stop.{new_results-ResultsFit}

-- "ab", twice, on CPUs 0 and 3.
abbrev program_options : Options
program_options = record (new_options []) {
  exec_name = 97 ∷ 98 ∷ [];
  nb_process = 2;
  nb_repet = 2;
  pinning = 0 ∷ 3 ∷ [];
  output_file = 111 ∷ [];
}

abbrev two_runs : Experimentation ℕ
two_runs = record {
  probes = meters;
  overhead_results = new_results 2 meters;
  results = new_results 2 meters;
  probe_data_collector = idle;
}

two_runs-IsPrepared : IsPrepared two_runs
unfolding new_results
two_runs-IsPrepared = record {
  nonempty = omega arith;
  overhead = new_results-ResultsFit meters 2 (omega arith);
  results = new_results-ResultsFit meters 2 (omega arith);
  unmeasured = (refl, refl);
  same = refl;
  at_rest = refl;
}

program_table_example :
    (overhead : Results ℕ) × (results : Results ℕ) × (lines : List (List (ProbeData ℕ)))
    × (start_program_experimentation true two_runs program_options
          (λ k. true)
          (λ k. true)
          (λ k. some watts)
          (λ k. some watts)
        ≡ done (file, write_header meters [] ++ table_text lines))
    × IsTable meters overhead results 2 lines
    × Recorded idle (λ k. watts) 0 2 two_runs.overhead_results overhead
    × Recorded idle (λ k. watts) 0 2 two_runs.results results
    × (overhead.nb_measurement ≡ 2)
program_table_example =
    program_table true two_runs program_options (λ k. true) (λ k. true) (λ k. some watts)
      (λ k. some watts) (λ k. watts) (λ k. watts) (λ k lt. refl) (λ k lt. refl) two_runs-IsPrepared
      (omega arith) (inr refl) (omega arith) (omega arith) (λ k lt. refl) (λ k. watts-Enough)
      (λ k. watts-Enough)

settled : settle program_options ≡ some (program_options, false)
unfolding settle set_default_values has_missing_options drop_ignored is_exec_kernel names_kernel
    is_daemon
settled = refl

pinned_cpu-settle_example : (cpu : Option ℕ) × (pinned_cpu (0 ∷ 3 ∷ []) 1 ≡ some cpu)
pinned_cpu-settle_example =
    pinned_cpu-settle program_options program_options 1 (λ e. absurd (omega (arith, e)))
      (omega arith) settled (omega arith)

compile_lem_example : (compile (some (3, "/tmp/k")) (λ c. some ("", 0)) "k.s" ≡ some "/tmp/k") ↔ (
    (fd : ℕ) × (◌≡◌ {A = Option (ℕ × String)} (some (3, "/tmp/k")) (some (fd, "/tmp/k")))
    × IsCompiled (λ c. some ("", 0)) fd (gcc_command "/tmp/k" "k.s"))
compile_lem_example = compile_lem (λ c. some ("", 0)) (some (3, "/tmp/k")) "k.s" "/tmp/k"
