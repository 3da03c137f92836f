-- ===== src/Loader.antt =====
-- src/ProbeLoader.hpp, src/ProbeLoader.cpp: the probes that the user names are loaded, or the default
-- ones. A list of probes is paired with the result of the load; `dlopen` is a parameter.
pub mod Laws
use Prim.Native.String.{String}
use lpowerprobe.Common.{Bool, true, false, Option, List, [], ◌∷◌, ◌++◌}
use lpowerprobe.Probe.{
  Library, Probe, Outcome, done, loading_exception, initialisation_exception, runtime_error,
  stopped, ◌>>=◌, new_probe_v1, new_probe_v2,
}

pub record Loader : Type 0 where
  pub dirs : List String
  pub defaults_probes : List String

pub new_loader : Loader
new_loader = record {
  dirs = [];
  defaults_probes = "libenergymsr/libenergymsr.so" ∷ "libwallclock/libwallclock.so" ∷ [];
}

pub add_directory : Loader → String → Loader
add_directory loader dir = record loader { dirs = loader.dirs ++ (dir ∷ []) }

-- `catch (ProbeLoadingException&)` stands round the constructor of a version 2 probe only.
unfoldable pub try_load_probe :
    (String → Option Library) → String → List Probe → Outcome (List Probe)
try_load_probe dlopen path probes = do
  p ← elim (new_probe_v2 dlopen path) [
    | done p ↦ done p
    | loading_exception ↦ new_probe_v1 dlopen path
    | initialisation_exception ↦ initialisation_exception
    | runtime_error ↦ runtime_error
    | stopped ↦ stopped
  ]
  done (probes ++ (p ∷ []))

-- One round of the loop of `tryLoadProbes`: every exception is caught.
unfoldable pub load_round :
    (String → Option Library) → String → List Probe × Bool → Outcome (List Probe × Bool)
unfolding try_load_probe
load_round dlopen path (probes, result) = elim (try_load_probe dlopen path probes) [
  | done probes' ↦ done (probes', result)
  | loading_exception ↦ done (probes, false)
  | initialisation_exception ↦ done (probes, false)
  | runtime_error ↦ done (probes, false)
  | stopped ↦ stopped
]

unfoldable pub load_rounds :
    (String → Option Library) → List String → List Probe × Bool → Outcome (List Probe × Bool)
load_rounds dlopen [] state = done state
load_rounds dlopen (path ∷ paths) state = load_round dlopen path state >>= load_rounds dlopen paths

unfoldable pub try_load_probes :
    (String → Option Library) → List String → List Probe → Outcome (List Probe × Bool)
try_load_probes dlopen paths probes = load_rounds dlopen paths (probes, true)

unfoldable pub load_probes :
    (String → Option Library) → Loader → List String → List Probe → Outcome (List Probe × Bool)
load_probes dlopen loader [] probes = try_load_probes dlopen loader.defaults_probes probes
load_probes dlopen loader (path ∷ paths) probes = try_load_probes dlopen (path ∷ paths) probes
