-- ===== src/Tests/Sample.antt =====
-- A meter with two devices and a period, what it reads, and what src/ makes of it.
use Prim.Native.String.{String}
use lpowerprobe.Common.{
  ℕ, suc, zero, ◌≡◌, refl, true, false, Option, some, List, [], ◌∷◌, arith, get_elem?,
}
use lpowerprobe.Double.{whole}
use lpowerprobe.ProbeData.{ProbeData, IsValid}
use lpowerprobe.Probe.{Probe, Library, v2, get_nb_devices, get_nb_channels}
use lpowerprobe.Results.{Results}
use lpowerprobe.Results.Shape.{ResultsFit, Enough, Fits}
use lpowerprobe.Collector.{Collector}

abbrev pub meter_library : Library
meter_library = record {
  has_symbol = λ symbol. true;
  version = 2;
  label = some "watts";
  period = 10;
  nb_devices = 2;
  nb_channels = 1;
  initialises = λ symbol. true;
  closes = true;
}

abbrev pub dlopen_meter : String → Option Library
dlopen_meter path = some meter_library

abbrev pub meter : Probe
meter = record {
  name = "meter.so";
  version = v2;
  library = meter_library;
  is_initialized = true;
  period = 10;
  label = some "watts";
  has_update = true;
  has_nb_devices = true;
  has_nb_channels = true;
}

abbrev pub meters : List Probe
meters = meter ∷ []

abbrev pub watts : ℕ → List ℕ
watts i = 5 ∷ 7 ∷ []

abbrev pub meter_data : ProbeData ℕ
meter_data = record { nb_devices = 2; nb_channels = 1; values = (5 ∷ []) ∷ (7 ∷ []) ∷ [] }

abbrev pub other_data : ProbeData ℕ
other_data = record { nb_devices = 2; nb_channels = 1; values = (3 ∷ []) ∷ (4 ∷ []) ∷ [] }

abbrev pub no_data : ProbeData ℕ
no_data = record { nb_devices = 0; nb_channels = 0; values = [] }

pub meter_data-IsValid : IsValid meter_data
meter_data-IsValid = record { rows = refl; columns = (refl, (refl, tt)) }

pub other_data-IsValid : IsValid other_data
other_data-IsValid = record { rows = refl; columns = (refl, (refl, tt)) }

-- One measurement, already done.
abbrev pub one_result : Results ℕ
one_result = record { results = record { data_of = meter_data ∷ [] } ∷ []; nb_measurement = 1 }

abbrev pub one_overhead : Results ℕ
one_overhead = record { results = record { data_of = other_data ∷ [] } ∷ []; nb_measurement = 1 }

abbrev pub idle : Collector
idle = record {
  need_thread = true;
  thread_collecting = false;
  thread_running = true;
  probes = meters;
  periodic_probes = meters;
  min_period = 10;
}

Fits-one :
    (pd : ProbeData ℕ)
    → Fits meter pd
    → (i : ℕ) (p : Probe) (x : ProbeData ℕ) → get_elem? meters i ≡ some p
    → get_elem? (pd ∷ []) i ≡ some x
    → Fits p x
Fits-one pd f zero p x at is = let same : p ≡ meter = cc in let it : x ≡ pd = cc in rw (same, it) f
Fits-one pd f (suc i) p x at is = absurd (cc)

ResultsFit-one :
    (pd : ProbeData ℕ)
    → Fits meter pd
    → ResultsFit meters (record { results = record { data_of = pd ∷ [] } ∷ []; nb_measurement = 1 })
ResultsFit-one pd f = record {
  nonempty = omega arith;
  counted = omega arith;
  runs = (record { size = refl; each = Fits-one pd f }, tt);
}

pub one_result-ResultsFit : ResultsFit meters one_result
unfolding get_nb_devices get_nb_channels
one_result-ResultsFit =
    ResultsFit-one meter_data
      (record { devices = refl; channels = refl; valid = meter_data-IsValid })

pub one_overhead-ResultsFit : ResultsFit meters one_overhead
unfolding get_nb_devices get_nb_channels
one_overhead-ResultsFit =
    ResultsFit-one other_data
      (record { devices = refl; channels = refl; valid = other_data-IsValid })

pub watts-Enough : Enough meters watts
unfolding get_nb_devices get_nb_channels
watts-Enough = record {
  long = elim [
    | zero ↦ λ p at. let same : p ≡ meter = cc in rw same (omega arith)
    | suc i ↦ λ p at. absurd (cc)
  ];
  small = elim [
    | zero ↦ λ p at. let same : p ≡ meter = cc in rw same (omega arith)
    | suc i ↦ λ p at. absurd (cc)
  ];
}
