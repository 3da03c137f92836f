-- ===== src/Options/Settings.antt =====
-- The settings that each kind of experimentation starts with.
use lpowerprobe.Common.{
  ℕ, suc, ◌+◌, ◌-◌, ◌%◌, ◌^◌, ◌<◌, ◌≡◌, ◌≢◌, ◌⊎◌, inl, inr, refl, ap, ◌∙◌, Bool, true, false, not,
  ◌&&◌, ◌||◌, some, [], ◌∷◌, length, get_elem?, ◌==◌, if◌then◌else◌, arith, get_elem?_of_lt,
  Bool-cases, ℕ_discrete,
}
use lpowerprobe.Text.{Text, is_empty}
use lpowerprobe.Options.{
  Options, default_output_file, names_kernel, from_end, Kind, daemon_experimentation,
  kernel_experimentation, program_experimentation,
}

names_kernel_at :
    (name : Text) (before last : ℕ)
    → is_empty name ≡ false
    → from_end name 2 ≡ some before
    → from_end name 1 ≡ some last
    → (kernel : Bool) × (names_kernel name ≡ some kernel)
unfolding names_kernel
names_kernel_at name before last full at at' = elim (Bool-cases (before == 46)) [
  | inl dot ↦ ((last == 115), rw (full, at, dot, at'))
  | inr other ↦ (false, rw (full, at, other))
]

pub names_kernel_total :
    (name : Text)
    → length name ≢ 1
    → length name < 2 ^ 64
    → (kernel : Bool) × (names_kernel name ≡ some kernel)
unfolding names_kernel
names_kernel_total [] h small = (false, refl)
names_kernel_total (c ∷ []) h small = absurd (h refl)
names_kernel_total (c ∷ d ∷ name) h small =
    let n = length name in
    let two : (suc (suc n) + 2 ^ 64 - 2) % 2 ^ 64 ≡ n = omega arith in
    let one : (suc (suc n) + 2 ^ 64 - 1) % 2 ^ 64 ≡ suc n = omega arith in
    let (before, at) = get_elem?_of_lt (c ∷ d ∷ name) n (omega arith) in
    let (last, at') = get_elem?_of_lt (d ∷ name) n (omega arith) in
    names_kernel_at (c ∷ d ∷ name) before last refl (ap (get_elem? (c ∷ d ∷ name)) two ∙ at)
      (ap (get_elem? (c ∷ d ∷ name)) one ∙ at')

-- The settings that an experimentation of each kind starts with, made of those of the user.
abbrev pub Settings : Kind → Options → Options → Type 0
Settings daemon_experimentation o o' =
    (o'.nb_process ≡ 1)
    × (o'.nb_repet ≡ 1)
    × (o'.iteration_memory_size ≡ 0)
    × (o'.nb_kernel_iteration ≡ 0)
Settings kernel_experimentation o o' =
    (o'.nb_process ≡ (if o.nb_process == 0 then 1 else o.nb_process))
    × (o'.nb_repet ≡ (if o.nb_repet == 0 then 5 else o.nb_repet))
    × (o'.iteration_memory_size ≡ o.iteration_memory_size)
    × (o'.nb_kernel_iteration
        ≡ (if o.iteration_memory_size == 0 then 1000 else o.nb_kernel_iteration))
Settings program_experimentation o o' =
    (o'.nb_process ≡ (if o.nb_process == 0 then 1 else o.nb_process))
    × (o'.nb_repet ≡ (if o.nb_repet == 0 then 5 else o.nb_repet))
    × (o'.iteration_memory_size ≡ 0)
    × (o'.nb_kernel_iteration ≡ 0)

-- `main` refuses the options, or each process finds its CPU in the pinning, if there is one.
abbrev pub PinsAll : Options → Bool → Type 0
PinsAll o' true = (o'.nb_process ≢ 1) × (length o'.pinning ≢ o'.nb_process)
PinsAll o' false = (o'.nb_process ≡ 1) ⊎ (length o'.pinning ≡ o'.nb_process)

-- The options that `settle` gives.
abbrev pub settled : Kind → Options → Options
settled daemon_experimentation o = record o {
  nb_process = 1;
  nb_repet = 1;
  iteration_memory_size = 0;
  nb_kernel_iteration = 0;
  output_file = if is_empty o.output_file then default_output_file else o.output_file;
}
settled kernel_experimentation o = record o {
  nb_process = if o.nb_process == 0 then 1 else o.nb_process;
  nb_repet = if o.nb_repet == 0 then 5 else o.nb_repet;
  nb_kernel_iteration = if o.iteration_memory_size == 0 then 1000 else o.nb_kernel_iteration;
  output_file = if is_empty o.output_file then default_output_file else o.output_file;
}
settled program_experimentation o = record o {
  nb_process = if o.nb_process == 0 then 1 else o.nb_process;
  nb_repet = if o.nb_repet == 0 then 5 else o.nb_repet;
  iteration_memory_size = 0;
  nb_kernel_iteration = 0;
  output_file = if is_empty o.output_file then default_output_file else o.output_file;
}

abbrev pub lacks_pins : Options → Bool
lacks_pins o =
    not (o.nb_process == 1) && ((length o.pinning == 0) || not (length o.pinning == o.nb_process))

pub lacks_pins_lem : (o : Options) → 0 < o.nb_process → PinsAll o (lacks_pins o)
lacks_pins_lem o some_process = elim (Bool-cases (lacks_pins o)) [
  | inl missing ↦ rw missing (λ e. ground arith, λ e. ground arith)
  | inr pinned ↦ elim (ℕ_discrete o.nb_process 1) [
    | yes one ↦ rw pinned (inl one)
    | no more ↦ rw pinned (inr (ground arith))
  ]
]

default_lt : (n k : ℕ) → 0 < k → 0 < (if n == 0 then k else n)
default_lt n k h = ground arith

named_output :
    (name : Text) → is_empty (if is_empty name then default_output_file else name) ≡ false
named_output [] = refl
named_output (c ∷ name) = refl

-- The settings, what is never empty, and what stays.
pub record Settled (kind : Kind) (o o' : Options) : Type 0 where
  pub settings : Settings kind o o'
  pub processes : 0 < o'.nb_process
  pub repetitions : 0 < o'.nb_repet
  pub output : is_empty o'.output_file ≡ false
  pub exec_name : o'.exec_name ≡ o.exec_name
  pub pinning : o'.pinning ≡ o.pinning
  pub args : o'.args ≡ o.args

pub settled-Settled : (o : Options) (kind : Kind) → Settled kind o (settled kind o)
settled-Settled o daemon_experimentation = record {
  settings = (refl, refl, refl, refl);
  processes = omega arith;
  repetitions = omega arith;
  output = named_output o.output_file;
  exec_name = refl;
  pinning = refl;
  args = refl;
}
settled-Settled o kernel_experimentation = record {
  settings = (refl, refl, refl, refl);
  processes = default_lt o.nb_process 1 (omega arith);
  repetitions = default_lt o.nb_repet 5 (omega arith);
  output = named_output o.output_file;
  exec_name = refl;
  pinning = refl;
  args = refl;
}
settled-Settled o program_experimentation = record {
  settings = (refl, refl, refl, refl);
  processes = default_lt o.nb_process 1 (omega arith);
  repetitions = default_lt o.nb_repet 5 (omega arith);
  output = named_output o.output_file;
  exec_name = refl;
  pinning = refl;
  args = refl;
}
