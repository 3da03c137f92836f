-- ===== src/Loader/Laws.antt =====
-- What a load leaves in the list of probes, and what its result says.
use mathlib.Core.List.{append-nil, append_assoc}
use mathlib.Core.Path.{subst}
use Prim.Native.String.{String}
use lpowerprobe.Common.{
  ◌≡◌, refl, ◌⊎◌, inl, inr, Bool, true, false, Option, List, [], ◌∷◌, ◌++◌, ◌&&◌, arith, All,
}
use lpowerprobe.Probe.{
  Library, Probe, Outcome, done, loading_exception, stopped, new_probe_v1, new_probe_v2,
}
use lpowerprobe.Probe.Laws.{
  IsReady, >>=-eq-done, HasLabels, AllClose, new_probe_v2-ne-stopped, new_probe_v1-ne-stopped,
  new_probe_v1-IsReady, >>=-eq-done, new_probe_v2-IsReady,
}
use lpowerprobe.Loader.{Loader, load_round, load_rounds, try_load_probes, load_probes}

-- The probe that a path gives, by version 2 first.
abbrev pub Loads : (String → Option Library) → String → Probe → Type 0
Loads dlopen path p =
    (new_probe_v2 dlopen path ≡ done p)
    ⊎ ((new_probe_v2 dlopen path ≡ loading_exception) × (new_probe_v1 dlopen path ≡ done p))

-- The probes loaded from a list of paths, in the order of the paths; `true` when none is missing.
pub data Loaded (dlopen : String → Option Library) : List String → List Probe → Bool → Type 0 where
  none_left : Loaded dlopen [] [] true
  loaded :
      {path : String} {paths : List String} {p : Probe} {ps : List Probe} {all : Bool}
      → Loads dlopen path p
      → Loaded dlopen paths ps all
      → Loaded dlopen (path ∷ paths) (p ∷ ps) all
  failed :
      {path : String} {paths : List String} {ps : List Probe} {all : Bool}
      → ((p : Probe) → ¬ Loads dlopen path p)
      → Loaded dlopen paths ps all
      → Loaded dlopen (path ∷ paths) ps false

abbrev RoundResult :
    (String → Option Library) → String → List Probe × Bool → List Probe × Bool → Type 0
RoundResult dlopen path before after =
    ((p : Probe) × Loads dlopen path p × (after ≡ (before.0 ++ (p ∷ []), before.1)))
    ⊎ (((p : Probe) → ¬ Loads dlopen path p) × (after ≡ (before.0, false)))

load_round_cases :
    (dlopen : String → Option Library) (path : String) (before after : List Probe × Bool)
    → load_round dlopen path before ≡ done after
    → RoundResult dlopen path before after
unfolding load_round
load_round_cases dlopen path before after =
    go (new_probe_v2 dlopen path) refl (new_probe_v1 dlopen path) refl
  where
    go :
        (o2 : Outcome Probe)
        → new_probe_v2 dlopen path ≡ o2
        → (o1 : Outcome Probe) → new_probe_v1 dlopen path ≡ o1
        → load_round dlopen path before ≡ done after
        → RoundResult dlopen path before after
    go (done p) e o1 e1 h = inl (p, inl e, ground arith)
    go loading_exception e (done p) e1 h = inl (p, inr (e, e1), ground arith)
    go loading_exception e _ e1 h = inr (λ p l. ground arith, ground arith)
    go stopped e o1 e1 h = absurd (ground arith)
    go _ e o1 e1 h = inr (λ p l. ground arith, ground arith)

-- When the load ends, the list is as before with the loadable probes added in the order of the
-- paths, and the result is true exactly if it was true and no path failed.
load_rounds_lem :
    (dlopen : String → Option Library) (paths : List String) (before after : List Probe × Bool)
    → load_rounds dlopen paths before ≡ done after
    → (ps : List Probe) × (all : Bool) × Loaded dlopen paths ps all
      × (after ≡ (before.0 ++ ps, before.1 && all))
unfolding load_rounds
load_rounds_lem dlopen [] before after h =
    ([], true, none_left, ground (arith, append-nil before.0))
load_rounds_lem dlopen (path ∷ paths) before after h =
    let (mid, ran, rest) = >>=-eq-done (load_round dlopen path before) _ h in
    let (ps, all, l, e) = load_rounds_lem dlopen paths mid after rest in
    elim (load_round_cases dlopen path before mid ran) [
      | inl (p, is, m) ↦
          (p ∷ ps, all, loaded is l, ground (arith, append_assoc before.0 (p ∷ []) ps))
      | inr (missing, m) ↦ (ps, false, failed missing l, ground arith)
    ]

-- The paths that are tried.
abbrev pub wanted_paths : Loader → List String → List String
wanted_paths loader [] = loader.defaults_probes
wanted_paths loader (path ∷ paths) = path ∷ paths

-- When `loadProbes` ends, the list holds what it held and then the probes that could be loaded, in
-- the order of the paths, version 2 before version 1; the paths are those of the user, or the
-- default ones when the user gave none; and the result is true exactly when no path failed.
pub load_probes_lem :
    (dlopen : String → Option Library) (loader : Loader) (paths : List String) (probes : List Probe)
    {out : List Probe} {ok : Bool}
    → load_probes dlopen loader paths probes ≡ done (out, ok)
    → (ps : List Probe) × Loaded dlopen (wanted_paths loader paths) ps ok × (out ≡ probes ++ ps)
unfolding load_probes try_load_probes
load_probes_lem dlopen loader [] probes h =
    let (ps, all, l, e) = load_rounds_lem dlopen loader.defaults_probes (probes, true) _ h in
    (ps, subst (Loaded dlopen loader.defaults_probes ps) (ground arith) l, ground arith)
load_probes_lem dlopen loader (path ∷ paths) probes h =
    let (ps, all, l, e) = load_rounds_lem dlopen (path ∷ paths) (probes, true) _ h in
    (ps, subst (Loaded dlopen (path ∷ paths) ps) (ground arith) l, ground arith)

Loaded-IsReady :
    {dlopen : String → Option Library} {paths : List String} {ps : List Probe} {all : Bool}
    → Loaded dlopen paths ps all
    → All IsReady ps
Loaded-IsReady none_left = tt
Loaded-IsReady {dlopen} (loaded {path} (inl e) l) =
    (new_probe_v2-IsReady dlopen path e, Loaded-IsReady l)
Loaded-IsReady {dlopen} (loaded {path} (inr e) l) =
    (new_probe_v1-IsReady dlopen path e.1, Loaded-IsReady l)
Loaded-IsReady (failed missing l) = Loaded-IsReady l

-- Every probe that `loadProbes` adds is initialised, and can be updated if it has a period.
pub load_probes-IsReady :
    (dlopen : String → Option Library) (loader : Loader) (paths : List String) {out : List Probe}
    {ok : Bool}
    → load_probes dlopen loader paths [] ≡ done (out, ok)
    → All IsReady out
load_probes-IsReady dlopen loader paths h =
    let (ps, l, e) = load_probes_lem dlopen loader paths [] h in rw e (Loaded-IsReady l)

load_round_total :
    (dlopen : String → Option Library) (path : String) (before : List Probe × Bool)
    → HasLabels dlopen
    → AllClose dlopen
    → (after : List Probe × Bool) × (load_round dlopen path before ≡ done after)
unfolding load_round
load_round_total dlopen path before labels close =
    go (new_probe_v2 dlopen path) refl (new_probe_v1 dlopen path) refl
  where
    go :
        (o2 : Outcome Probe)
        → new_probe_v2 dlopen path ≡ o2
        → (o1 : Outcome Probe) → new_probe_v1 dlopen path ≡ o1
        → (after : List Probe × Bool) × (load_round dlopen path before ≡ done after)
    go (done p) e o1 e1 = ((before.0 ++ (p ∷ []), before.1), ground arith)
    go loading_exception e (done p) e1 = ((before.0 ++ (p ∷ []), before.1), ground arith)
    go loading_exception e stopped e1 = absurd (new_probe_v1-ne-stopped dlopen path close e1)
    go loading_exception e _ e1 = ((before.0, false), ground arith)
    go stopped e o1 e1 = absurd (new_probe_v2-ne-stopped dlopen path labels close e)
    go _ e o1 e1 = ((before.0, false), ground arith)

load_rounds_total :
    (dlopen : String → Option Library) (paths : List String) (before : List Probe × Bool)
    → HasLabels dlopen
    → AllClose dlopen
    → (after : List Probe × Bool) × (load_rounds dlopen paths before ≡ done after)
unfolding load_rounds
load_rounds_total dlopen [] before labels close = (before, refl)
load_rounds_total dlopen (path ∷ paths) before labels close =
    let (mid, e) = load_round_total dlopen path before labels close in
    rw e (load_rounds_total dlopen paths mid labels close)

-- If every library that can be opened has a label and can be closed, no failure of a probe ends the load: it
-- returns.
pub load_probes_total :
    (dlopen : String → Option Library) (loader : Loader) (paths : List String) (probes : List Probe)
    → HasLabels dlopen
    → AllClose dlopen
    → (out : List Probe × Bool) × (load_probes dlopen loader paths probes ≡ done out)
unfolding load_probes try_load_probes
load_probes_total dlopen loader [] probes labels close =
    load_rounds_total dlopen loader.defaults_probes (probes, true) labels close
load_probes_total dlopen loader (path ∷ paths) probes labels close =
    load_rounds_total dlopen (path ∷ paths) (probes, true) labels close
