-- ===== src/Tests/Probes.antt =====
-- src/ProbeV2.cpp and src/ProbeLoader.cpp at the library of a meter.
use lpowerprobe.Common.{◌≡◌, refl, true, List, [], ◌∷◌, ◌++◌, Bool}
use lpowerprobe.Probe.{Probe, done, new_probe_v2}
use lpowerprobe.Probe.Laws.{HasLabels, AllClose}
use lpowerprobe.Loader.{
  load_probes, new_loader, try_load_probes, load_rounds, load_round, try_load_probe,
}
use lpowerprobe.Loader.Laws.{Loaded, load_probes_lem, load_probes_total}
use lpowerprobe.Tests.Sample.{meter, meters, meter_library, dlopen_meter}

meter_made : new_probe_v2 dlopen_meter "meter.so" ≡ done meter
unfolding new_probe_v2
meter_made = refl

meters_loaded : load_probes dlopen_meter new_loader ("meter.so" ∷ []) [] ≡ done (meters, true)
unfolding load_probes try_load_probes load_rounds load_round try_load_probe new_probe_v2
meters_loaded = refl

dlopen_meter-AllClose : AllClose dlopen_meter
dlopen_meter-AllClose path library opened = let same : library ≡ meter_library = cc in rw same refl

dlopen_meter-HasLabels : HasLabels dlopen_meter
dlopen_meter-HasLabels path library opened = let same : library ≡ meter_library = cc in rw same refl

load_probes_lem_example :
    (ps : List Probe) × Loaded dlopen_meter ("meter.so" ∷ []) ps true × (meters ≡ [] ++ ps)
load_probes_lem_example = load_probes_lem dlopen_meter new_loader ("meter.so" ∷ []) [] meters_loaded

load_probes_total_example :
    (out : List Probe × Bool) × (load_probes dlopen_meter new_loader ("meter.so" ∷ []) []
      ≡ done out)
load_probes_total_example =
    load_probes_total dlopen_meter new_loader ("meter.so" ∷ []) [] dlopen_meter-HasLabels
      dlopen_meter-AllClose
