-- ===== src/Tests/Writing.antt =====
-- src/ExperimentationResultsWriter.cpp at the measurements of a meter.
use lpowerprobe.Common.{
  ℕ, ◌*◌, ◌<◌, ◌^◌, ◌≡◌, true, some, List, [], ◌++◌, length, get_elem?, All, arith, get_elem?_of_lt,
}
use lpowerprobe.Double.{whole}
use lpowerprobe.ProbeData.{ProbeData}
use lpowerprobe.Probe.{Probe, get_nb_devices, get_nb_channels}
use lpowerprobe.Writer.{write, write_header, file, overhead_average}
use lpowerprobe.Writer.Overhead.{IsAverage, overhead_average_lem}
use lpowerprobe.Writer.Line.{table_text}
use lpowerprobe.Writer.Table.{IsTable, write_lem}
use lpowerprobe.Tests.Sample.{
  meters, one_result, one_overhead, one_result-ResultsFit, one_overhead-ResultsFit,
}

overhead_average_lem_example :
    (avgs : List (ProbeData ℕ)) × (overhead_average one_overhead meters ≡ some avgs)
    × (length avgs ≡ 1)
    × ((i : ℕ) (p : Probe) (avg : ProbeData ℕ)
        → get_elem? meters i ≡ some p
        → get_elem? avgs i ≡ some avg
        → IsAverage p i one_overhead avg)
overhead_average_lem_example =
    overhead_average_lem meters one_overhead one_overhead-ResultsFit (omega arith)

write_lem_example :
    (lines : List (List (ProbeData ℕ))) × (write true one_overhead one_result meters
      ≡ some (file, write_header meters [] ++ table_text lines))
    × IsTable meters one_overhead one_result 1 lines
write_lem_example =
    write_lem true meters one_overhead one_result (omega arith) one_overhead-ResultsFit
      one_result-ResultsFit (omega arith)

small_meters : All (λ p. get_nb_devices p * get_nb_channels p < 2 ^ 32) meters
unfolding get_nb_devices get_nb_channels
small_meters = (omega arith, tt)

written : (lines : List (List (ProbeData ℕ))) × IsTable meters one_overhead one_result 1 lines
written =
    let (lines, e, table) =
      write_lem true meters one_overhead one_result (omega arith) one_overhead-ResultsFit
        one_result-ResultsFit (omega arith) in
    (lines, table)

first_line : (line : List (ProbeData ℕ)) × (get_elem? written.0 0 ≡ some line)
first_line = get_elem?_of_lt written.0 0 (omega (arith, written.1.size))
