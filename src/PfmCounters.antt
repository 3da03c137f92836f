-- ===== src/PfmCounters.antt =====
-- probes/pfmcounters/pfmcounters.c: the counters of the processor that a settings file names, on every
-- core. The reader of the file, libpfm and the calls of the system are parameters.
pub mod Cells
pub mod Names
pub mod Open
use lpowerprobe.Common.{
  ℕ, zero, suc, ◌+◌, ◌-◌, ◌*◌, ◌/◌, ◌%◌, ◌^◌, Bool, true, false, ◌&&◌, Option, none, some, List, [],
  ◌∷◌, length, take, get_elem?, set, replicate, ltb, ◌==◌, if◌then◌else◌, ◌>>=◌, for_range,
}
use lpowerprobe.Text.{Text, same_text}
use lpowerprobe.Text.Numbers.{skip_spaces, digits_from}
use lpowerprobe.Text.Tokens.{tokens, count}

-- What the code does with `double`, and with the three numbers of a read counter.
pub record Tally (W : Type 0) : Type 0 where
  pub nought : W
  pub of_u64 : ℕ → W
  pub less_eq : W → W → Bool
  pub add : W → W → W
  pub sub : W → W → W
  pub scaled : ℕ → ℕ → ℕ → ℕ  -- (uint64_t)((double) buf[0] * buf[1] / buf[2])

-- What a descriptor shows: the three numbers that stand in `buf` after the read, whether it succeeds or
-- not.
abbrev pub Reads : Type 0
Reads = ℕ → ℕ × ℕ × ℕ

abbrev pub scaled_of : {W : Type 0} → Tally W → ℕ × ℕ × ℕ → ℕ
scaled_of d (raw, enabled, running) = d.scaled raw enabled running

-- SContext. A name that is not written is `none`.
pub record Context (W : Type 0) : Type 0 where
  pub is_open : Bool
  pub pfm_fds : List ℕ
  pub cores : List ℕ
  pub nb_cores : ℕ
  pub counter_names : List (Option Text)
  pub nb_counters : ℕ
  pub values : List W

-- `counters`.
abbrev pub counters_key : Text
counters_key = 99 ∷ 111 ∷ 117 ∷ 110 ∷ 116 ∷ 101 ∷ 114 ∷ 115 ∷ []

-- `nbCores`.
abbrev pub nb_cores_key : Text
nb_cores_key = 110 ∷ 98 ∷ 67 ∷ 111 ∷ 114 ∷ 101 ∷ 115 ∷ []

-- `strtoul` in base 10 behind the sign: 0 without a digit, ULONG_MAX for what does not fit.
unfoldable pub strtoul_at : Bool → Text → ℕ
unfolding digits_from
strtoul_at negative text =
    let n = (digits_from 0 text).0 in
    if ltb n (2 ^ 64) then (if negative then (2 ^ 64 - n) % 2 ^ 64 else n) else 2 ^ 64 - 1

unfoldable pub strtoul_signed : Text → ℕ
unfolding strtoul_at
strtoul_signed [] = 0
strtoul_signed (c ∷ text) =
    if c == 45
    then strtoul_at true text
    else if c == 43
    then strtoul_at false text
    else strtoul_at false (c ∷ text)

unfoldable pub strtoul : Text → ℕ
unfolding skip_spaces strtoul_signed
strtoul text = strtoul_signed (skip_spaces text)

-- The loop over `strtok_r`, from the name `i` on.
unfoldable pub fill_names : ℕ → List Text → List (Option Text) → List (Option Text)
fill_names i [] names = names
fill_names i (tok ∷ toks) names = fill_names (i + 1) toks (set names i (some tok))

-- The numbers from `i` on.
abbrev pub numbered : ℕ → ℕ → List ℕ
numbered zero i = []
numbered (suc n) i = i ∷ numbered n (i + 1)

abbrev pub semicolon : ℕ
semicolon = 59

unfoldable pub ini_handler : {W : Type 0} → Context W → Text → Text → Context W
unfolding fill_names tokens count strtoul
ini_handler ctx name value =
    if same_text name counters_key
    then (let nb = (1 + count semicolon value) % 2 ^ 64 in
        record ctx {
          nb_counters = nb;
          counter_names = fill_names 0 (tokens semicolon value) (replicate nb none);
        })
    else if same_text name nb_cores_key
    then record ctx { nb_cores = strtoul value; cores = numbered (strtoul value) 0 }
    else ctx

unfoldable pub nb_channels : {W : Type 0} → Context W → ℕ
nb_channels ctx = ctx.nb_cores * ctx.nb_counters % 2 ^ 32

-- What libpfm and the system do: whether libpfm starts and knows a counter, the descriptor of a counter
-- on a core, and whether it can be enabled.
pub record Pfm : Type 0 where
  pub initializes : Bool
  pub encodes : Text → Bool
  pub perf_event_open : Text → ℕ → Option ℕ
  pub enables : ℕ → Bool

-- How the start of the library ends: with a context, with a null pointer that leaves a context behind,
-- by `exit`, or with an access to memory that is not there or not written.
pub data Begun (W : Type 0) : Type 0 where
  ready null_pointer : Context W → Begun W
  exits undefined : Begun W

-- The index of a counter on a core, as an unsigned int.
abbrev pub index : {W : Type 0} → Context W → ℕ → ℕ → ℕ
index ctx core cnt = (core * ctx.nb_counters + cnt) % 2 ^ 32

module _ {W : Type 0} ⦃d : Tally W⦄ where
  -- The rest of a file: the names and values that the reader of the file finds.
  unfoldable pub handle_all : Context W → List (Text × Text) → Context W
  unfolding ini_handler
  handle_all ctx [] = ctx
  handle_all ctx ((name, value) ∷ rest) = handle_all (ini_handler ctx name value) rest

  -- `Context_init`; a file that cannot be opened ends the program. The sizes in bytes are unsigned int.
  unfoldable pub context_init : Option (List (Text × Text)) → Option (Context W)
  unfolding handle_all
  context_init none = none
  context_init (some found) =
      let blank : Context W = record {
        is_open = false;
        pfm_fds = [];
        cores = [];
        nb_cores = 0;
        counter_names = [];
        nb_counters = 0;
        values = [];
      } in
      let ctx = handle_all blank found in
      let tab_size = ctx.nb_cores * ctx.nb_counters % 2 ^ 32 in
      some (record ctx {
        pfm_fds = replicate (tab_size * 4 % 2 ^ 32 / 4) 0;
        values = replicate (tab_size * 8 % 2 ^ 32 / 8) d.nought;
        is_open = false;
      })

module _ {W : Type 0} where
  -- One round of the loops of `init`, for a counter that has a name.
  unfoldable pub open_named : Pfm → Context W → ℕ → ℕ → ℕ → Text → Begun W
  open_named pfm ctx core cnt core_id name =
      if pfm.encodes name
      then elim (pfm.perf_event_open name core_id) [
        | none ↦ exits
        | some fd ↦
            if ltb (index ctx core cnt) (length ctx.pfm_fds)
            then (let opened = record ctx { pfm_fds = set ctx.pfm_fds (index ctx core cnt) fd } in
                if pfm.enables fd then ready opened else null_pointer opened)
            else undefined
      ]
      else null_pointer ctx

  unfoldable pub open_cell : Pfm → ℕ → ℕ → Context W → Begun W
  unfolding open_named
  open_cell pfm core cnt ctx = elim (get_elem? ctx.cores core) [
    | none ↦ undefined
    | some core_id ↦ elim (get_elem? ctx.counter_names cnt) [
      | none ↦ undefined
      | some none ↦ undefined
      | some (some name) ↦ open_named pfm ctx core cnt core_id name
    ]
  ]

  -- A round that is not the last goes on with its context.
  abbrev pub go_on : Begun W → (Context W → Begun W) → Begun W
  go_on (ready ctx) next = next ctx
  go_on (null_pointer ctx) next = null_pointer ctx
  go_on exits next = exits
  go_on undefined next = undefined

  -- The loops over the counters and the cores, `count` of them from the given one on.
  unfoldable pub open_counters : Pfm → ℕ → ℕ → ℕ → Context W → Begun W
  unfolding open_cell
  open_counters pfm core zero cnt ctx = ready ctx
  open_counters pfm core (suc count) cnt ctx =
      go_on (open_cell pfm core cnt ctx) (open_counters pfm core count (cnt + 1))

  unfoldable pub open_cores : Pfm → ℕ → ℕ → Context W → Begun W
  unfolding open_counters
  open_cores pfm zero core ctx = ready ctx
  open_cores pfm (suc count) core ctx =
      go_on (open_counters pfm core ctx.nb_counters 0 ctx) (open_cores pfm count (core + 1))

  abbrev pub opened : Context W → Begun W
  opened ctx = ready (record ctx { is_open = true })

module _ {W : Type 0} ⦃d : Tally W⦄ where
  -- `init`, with what the reader of the file finds.
  unfoldable pub init : Pfm → Option (List (Text × Text)) → Begun W
  unfolding context_init open_cores
  init pfm file = elim (context_init file) [
    | none ↦ exits
    | some ctx ↦
        if pfm.initializes
        then go_on (open_cores pfm ctx.nb_cores 0 ctx) opened
        else null_pointer ctx
  ]

  -- One round of the loops of `start` and `stop`: `f` gives the new value. `none` is an access outside
  -- of the arrays.
  abbrev pub cell : (ℕ → W → W) → Reads → Context W → ℕ → List W → Option (List W)
  cell f reads ctx idx values = do
    fd ← get_elem? ctx.pfm_fds idx
    old ← get_elem? values idx
    some (set values idx (f (scaled_of d (reads fd)) old))

  unfoldable pub each_cell : (ℕ → W → W) → Reads → Context W → Option (List W)
  unfolding for_range
  each_cell f reads ctx =
      for_range ctx.nb_cores 0
        (λ core. for_range ctx.nb_counters 0 (λ cnt. cell f reads ctx (index ctx core cnt)))
        ctx.values

  abbrev pub initial_value : ℕ → W → W
  initial_value value old = d.of_u64 value

  -- `0xFFFFFFFFFFFFFFFFUL` is converted to a double when it meets one.
  abbrev pub difference : ℕ → W → W
  difference value old =
      if d.less_eq old (d.of_u64 value)
      then d.sub (d.of_u64 value) old
      else d.add (d.sub (d.of_u64 (2 ^ 64 - 1)) old) (d.of_u64 value)

  -- A null pointer is let through, as is a context without counters.
  unfoldable pub start : Reads → Option (Context W) → Option (Option (Context W))
  unfolding each_cell
  start reads none = some none
  start reads (some ctx) = if ctx.nb_counters == 0 then some (some ctx) else (do
    values ← each_cell initial_value reads ctx
    some (some (record ctx { values = values })))

  -- Here both are refused by an assertion: `none` as well.
  unfoldable pub stop : Reads → Option (Context W) → Option (Context W)
  unfolding each_cell
  stop reads none = none
  stop reads (some ctx) =
      if ctx.nb_counters == 0
      then none
      else (do values ← each_cell difference reads ctx; some (record ctx { values = values }))

-- `Context_destroy`, which `fini` calls: the descriptors that are closed.
unfoldable pub context_destroy : {W : Type 0} → Option (Context W) → List ℕ
context_destroy none = []
context_destroy (some ctx) =
    if ctx.is_open then take (ctx.nb_counters * ctx.nb_cores) ctx.pfm_fds else []
