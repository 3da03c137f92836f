-- ===== src/Probe.antt =====
-- src/Probe.hpp, src/Probe.cpp, src/ProbeV1.cpp, src/ProbeV2.cpp: a probe is a shared library behind
-- one of two sets of symbols. `dlopen` is a parameter: it finds a `Library` or none.
pub mod Laws
use Prim.Native.String.{String}
use lpowerprobe.Common.{
  ℕ, ◌+◌, Bool, true, false, not, ◌&&◌, Option, none, some, List, [], ◌∷◌, ◌==◌, if◌then◌else◌,
}
use lpowerprobe.Double.{Double}

-- What a library holds: the symbols that `dlsym` finds, and what stands behind those that are data
-- or that take the handle and return a number.
pub record Library : Type 0 where
  pub has_symbol : String → Bool
  pub version : ℕ  -- *version
  pub label : Option String  -- *label, `none` for a null pointer
  pub period : ℕ  -- *period
  pub nb_devices : ℕ  -- nbDevices(handle)
  pub nb_channels : ℕ  -- nbChannels(handle)
  pub initialises : String → Bool  -- the function of that name returns a handle that is not null
  pub closes : Bool  -- `dlclose` succeeds

-- How a constructor or a call ends: with a value, by an exception, or by stopping the program (a
-- null pointer is read, an assertion fails, or `exit` is called).
pub data Outcome {ℓ} (A : Type ℓ) : Type ℓ where
  done : A → Outcome A
  loading_exception : Outcome A
  initialisation_exception : Outcome A
  runtime_error : Outcome A
  stopped : Outcome A

infixl 5 ◌>>=◌ ◌>>◌
abbrev pub ◌>>=◌ {ℓ κ} : {A : Type ℓ} {B : Type κ} → Outcome A → (A → Outcome B) → Outcome B
done a >>= f = f a
loading_exception >>= f = loading_exception
initialisation_exception >>= f = initialisation_exception
runtime_error >>= f = runtime_error
stopped >>= f = stopped

abbrev pub ◌>>◌ {ℓ} : {B : Type ℓ} → Outcome (Unit {0}) → Outcome B → Outcome B
m >> k = m >>= λ _. k

pub data Version : Type 0 where
  v1 v2 : Version

-- A probe after its constructor. The flags say which function pointers are not null.
pub record Probe : Type 0 where
  pub name : String
  pub version : Version
  pub library : Library
  pub is_initialized : Bool
  pub period : ℕ  -- unsigned int
  pub label : Option String
  pub has_update : Bool
  pub has_nb_devices : Bool
  pub has_nb_channels : Bool

abbrev pub mandatory : ℕ
mandatory = 0

abbrev pub facultative : ℕ
facultative = 1

-- `loadSymbol`: whether the pointer that it returns is not null.
unfoldable pub load_symbol : Library → String → ℕ → Outcome Bool
load_symbol library symbol flag =
    if library.has_symbol symbol
    then done true
    else if flag == facultative
    then done false
    else if flag == mandatory
    then loading_exception
    else loading_exception

-- The read of what a pointer points to.
abbrev pub deref {ℓ} : {A : Type ℓ} → Bool → A → Outcome A
deref true a = done a
deref false a = stopped

abbrev throw_if : Bool → Outcome (Unit {0})
throw_if true = loading_exception
throw_if false = done tt

-- The constructor of the base class. The functions of a version 1 probe are the defaults.
unfoldable pub new_probe : (String → Option Library) → String → String → String → Outcome Probe
unfolding load_symbol
new_probe dlopen path init_name fini_name = elim (dlopen path) [
  | none ↦ loading_exception
  | some library ↦ do
    init_found ← load_symbol library init_name mandatory
    fini_found ← load_symbol library fini_name mandatory
    done (record {
      name = path;
      version = v1;
      library = library;
      is_initialized = false;
      period = 0;
      label = some "";
      has_update = false;
      has_nb_devices = false;
      has_nb_channels = false;
    })
]

-- `init`, with the name of the function that `evaluationInit` points to.
unfoldable pub initialise : Probe → String → Outcome Probe
initialise p init_name =
    if p.library.initialises init_name
    then done (record p { is_initialized = true })
    else initialisation_exception

-- A constructor that throws behind that of the base class runs the destructor of the base class: the probe
-- is not initialised, so `fini` calls nothing, and the program ends if the library cannot be closed.
abbrev pub unwound : Library → Outcome Probe → Outcome Probe
unwound library (done p) = done p
unwound library loading_exception = if library.closes then loading_exception else stopped
unwound library initialisation_exception =
    if library.closes then initialisation_exception else stopped
unwound library runtime_error = if library.closes then runtime_error else stopped
unwound library stopped = stopped

-- The bodies of the constructors of the two versions.
unfoldable pub fill_probe_v1 : Probe → Outcome Probe
unfolding load_symbol initialise
fill_probe_v1 p = do
  start_found ← load_symbol p.library "evaluationStart" mandatory
  stop_found ← load_symbol p.library "evaluationStop" mandatory
  initialise p "evaluationInit"

unfoldable pub fill_probe_v2 : Probe → Outcome Probe
unfolding load_symbol initialise
fill_probe_v2 p = do
  version_found ← load_symbol p.library "version" mandatory
  throw_if (not (p.library.version == 2))
  label_found ← load_symbol p.library "label" facultative
  label ← deref label_found p.library.label
  start_found ← load_symbol p.library "start" mandatory
  stop_found ← load_symbol p.library "stop" mandatory
  update_found ← load_symbol p.library "update" facultative
  devices_found ← load_symbol p.library "nbDevices" facultative
  channels_found ← load_symbol p.library "nbChannels" facultative
  period_found ← load_symbol p.library "period" facultative
  let period = if period_found then p.library.period else 0
  throw_if (not update_found && not (period == 0))
  initialise
      (record p {
        version = v2;
        period = period;
        label = label;
        has_update = update_found;
        has_nb_devices = devices_found;
        has_nb_channels = channels_found;
      })
      "init"

unfoldable pub new_probe_v1 : (String → Option Library) → String → Outcome Probe
unfolding new_probe fill_probe_v1
new_probe_v1 dlopen path = do
  p ← new_probe dlopen path "evaluationInit" "evaluationClose"
  unwound p.library (fill_probe_v1 p)

unfoldable pub new_probe_v2 : (String → Option Library) → String → Outcome Probe
unfolding new_probe fill_probe_v2
new_probe_v2 dlopen path = do
  p ← new_probe dlopen path "init" "fini"
  unwound p.library (fill_probe_v2 p)

-- `fini`, which the destructor calls.
pub finish : Probe → Probe
finish p = record p { is_initialized = false }

-- `update` calls the library, which leaves the probe as it is; the base class throws.
unfoldable pub update : Probe → Outcome (Unit {0})
update p = elim p.version [ v1 ↦ runtime_error | v2 ↦ deref p.has_update tt ]

unfoldable pub get_nb_devices : Probe → ℕ
get_nb_devices p = if p.has_nb_devices then p.library.nb_devices else 1

unfoldable pub get_nb_channels : Probe → ℕ
get_nb_channels p = if p.has_nb_channels then p.library.nb_channels else 1

-- A version 2 probe without a label is labelled "Result".
unfoldable pub get_label : Probe → String
get_label p = elim p.label [ none ↦ "Result" | some label ↦ label ]

-- The measured value of a version 1 probe: what `evaluationStop` returns less what
-- `evaluationStart` returned.
pub record Measure (W : Type 0) : Type 0 where
  pub start_value : W
  pub measure_value : W

module _ {W : Type 0} ⦃d : Double W⦄ where
  pub start_measure_v1 : Measure W → W → Measure W
  start_measure_v1 m reading = record m { start_value = reading }

  pub stop_measure_v1 : Measure W → W → Measure W × List W
  stop_measure_v1 m reading =
      let value = d.sub reading m.start_value in (record m { measure_value = value }, value ∷ [])
