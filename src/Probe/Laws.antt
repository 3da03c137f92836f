-- ===== src/Probe/Laws.antt =====
-- What the constructors of a probe leave behind, and when they stop the program.
use Prim.Native.String.{String}
use lpowerprobe.Common.{◌≡◌, ◌≢◌, refl, true, false, Option, none, some, arith}
use lpowerprobe.Probe.{
  Library, Probe, Outcome, loading_exception, initialisation_exception, runtime_error, ◌>>=◌, done,
  stopped, fill_probe_v1, fill_probe_v2, new_probe_v1, new_probe_v2, update,
}

-- A probe that can be started, stopped and, if it has a period, updated.
pub record IsReady (p : Probe) : Type 0 where
  pub initialized : p.is_initialized ≡ true
  pub updatable : p.period ≢ 0 → update p ≡ done tt

-- Whatever the libraries are, a version 2 probe that is constructed is ready.
pub new_probe_v2-IsReady :
    (dlopen : String → Option Library) (path : String) {p : Probe}
    → new_probe_v2 dlopen path ≡ done p
    → IsReady p
unfolding new_probe_v2 fill_probe_v2 update
new_probe_v2-IsReady dlopen path e = ground arith

pub new_probe_v1-IsReady :
    (dlopen : String → Option Library) (path : String) {p : Probe}
    → new_probe_v1 dlopen path ≡ done p
    → IsReady p
unfolding new_probe_v1 fill_probe_v1 update
new_probe_v1-IsReady dlopen path e = ground arith

-- The symbol `label` is optional by its flag, but its address is read at once: a library of version 2
-- with the symbols `init`, `fini` and `version`, and without `label`, stops the program.
pub missing_label_stops :
    (dlopen : String → Option Library) (path : String) (library : Library)
    → dlopen path ≡ some library
    → library.has_symbol "init" ≡ true
    → library.has_symbol "fini" ≡ true
    → library.has_symbol "version" ≡ true
    → library.version ≡ 2
    → library.has_symbol "label" ≡ false
    → new_probe_v2 dlopen path ≡ stopped
unfolding new_probe_v2 fill_probe_v2
missing_label_stops dlopen path library o i f v two l = ground arith

-- A chain that is done went through a first part that was done.
pub >>=-eq-done {ℓ κ} :
    {A : Type ℓ} {B : Type κ} (m : Outcome A) (f : A → Outcome B) {b : B}
    → (m >>= f) ≡ done b
    → (a : A) × (m ≡ done a) × (f a ≡ done b)
>>=-eq-done (done a) f h = (a, refl, h)
>>=-eq-done loading_exception f h = absurd (cc)
>>=-eq-done initialisation_exception f h = absurd (cc)
>>=-eq-done runtime_error f h = absurd (cc)
>>=-eq-done stopped f h = absurd (cc)

-- Every library that can be opened can be closed.
abbrev pub AllClose : (String → Option Library) → Type 0
AllClose dlopen =
    (path : String) (library : Library) → dlopen path ≡ some library → library.closes ≡ true

-- Every library that can be opened has the optional symbol `label`.
abbrev pub HasLabels : (String → Option Library) → Type 0
HasLabels dlopen =
    (path : String) (library : Library)
    → dlopen path ≡ some library
    → library.has_symbol "label" ≡ true

pub new_probe_v2-ne-stopped :
    (dlopen : String → Option Library) (path : String)
    → HasLabels dlopen
    → AllClose dlopen
    → new_probe_v2 dlopen path ≢ stopped
unfolding new_probe_v2 fill_probe_v2
new_probe_v2-ne-stopped dlopen path labels close e = go (dlopen path) refl
  where
    go : (o : Option Library) → dlopen path ≡ o → ⊥
    go none none_found = ground arith
    go (some library) found = ground (arith, labels path library found, close path library found)

pub new_probe_v1-ne-stopped :
    (dlopen : String → Option Library) (path : String)
    → AllClose dlopen
    → new_probe_v1 dlopen path ≢ stopped
unfolding new_probe_v1 fill_probe_v1
new_probe_v1-ne-stopped dlopen path close e = go (dlopen path) refl
  where
    go : (o : Option Library) → dlopen path ≡ o → ⊥
    go none none_found = ground arith
    go (some library) found = ground (arith, close path library found)
