-- ===== src/PfmCounters/Cells.antt =====
-- start and stop of probes/pfmcounters/pfmcounters.c: their loops over the counters of every core.
use mathlib.Core.Path.{subst}
use lpowerprobe.Common.{
  ℕ, ◌+◌, ◌-◌, ◌*◌, ◌^◌, ◌≤◌, ◌<◌, ◌≡◌, refl, ◌∙◌, sym, ap, false, some, List, length, get_elem?,
  set, ◌==◌, if◌then◌else◌, for_range, for_range_inv, arith, get_elem?_of_lt, get_elem?-set_ne,
  get_elem?-set_self, length-set, some_injective, ℕ_discrete, ==_iff, Bool-cases, inl, inr,
}
use lpowerprobe.PfmCounters.{
  Tally, Context, Reads, scaled_of, index, cell, each_cell, initial_value, difference, start, stop,
}

pub row_fits :
    (rows row width col : ℕ) → row < rows → col < width → row * width + col < rows * width
row_fits rows row width col below inside =
    let split : (row + 1 + (rows - row - 1)) * width
        ≡ row * width + width + (rows - row - 1) * width =
      omega arith in
    let same : row + 1 + (rows - row - 1) ≡ rows = omega (arith, below) in
    omega (arith, inside, split, ap (λ r. r * width) same)

-- The arrays are as large as the numbers of cores and counters say.
pub record Allocated {W : Type 0} (ctx : Context W) : Type 0 where
  pub small : ctx.nb_cores * ctx.nb_counters < 2 ^ 32
  pub fds : length ctx.pfm_fds ≡ ctx.nb_cores * ctx.nb_counters
  pub cells : length ctx.values ≡ ctx.nb_cores * ctx.nb_counters

module _ {W : Type 0} ⦃d : Tally W⦄ (f : ℕ → W → W) (reads : Reads) (ctx : Context W)
    (a : Allocated ctx) where
  -- The first `k` cells have been visited.
  abbrev Visited : ℕ → List W → Type 0
  Visited k values =
      (length values ≡ ctx.nb_cores * ctx.nb_counters)
      × ((j : ℕ) → k ≤ j → get_elem? values j ≡ get_elem? ctx.values j)
      × ((j fd : ℕ) (old : W)
          → j < k
          → get_elem? ctx.pfm_fds j ≡ some fd
          → get_elem? ctx.values j ≡ some old
          → get_elem? values j ≡ some (f (scaled_of d (reads fd)) old))

  cell-Visited :
      (core cnt : ℕ) (values : List W)
      → core * ctx.nb_counters + cnt < ctx.nb_cores * ctx.nb_counters
      → Visited (core * ctx.nb_counters + cnt) values
      → (values' : List W) × (cell f reads ctx (index ctx core cnt) values ≡ some values')
        × Visited (core * ctx.nb_counters + (cnt + 1)) values'
  cell-Visited core cnt values lt (size, same, seen) =
      let k = core * ctx.nb_counters + cnt in
      let at : index ctx core cnt ≡ k = omega (arith, lt, a.small) in
      let (fd, fd_at) = get_elem?_of_lt ctx.pfm_fds k (omega (arith, lt, a.fds)) in
      let (old, old_at) = get_elem?_of_lt ctx.values k (omega (arith, lt, a.cells)) in
      let old_here : get_elem? values k ≡ some old = same k (omega arith) ∙ old_at in
      let new = f (scaled_of d (reads fd)) old in
      let ran : cell f reads ctx k values ≡ some (set values k new) = rw (fd_at, old_here) refl in
      (
        set values k new,
        ap (λ i. cell f reads ctx i values) at ∙ ran,
        (
          length-set values k new ∙ size,
          λ j le.
              get_elem?-set_ne values k j new (λ e. omega (arith, e, le))
              ∙ same j (omega (arith, le)),
          λ j fd' old' below fd'_at old'_at. elim (ℕ_discrete k j) [
            | yes is ↦
                let same_fd : fd ≡ fd' =
                  some_injective (sym fd_at ∙ ap (get_elem? ctx.pfm_fds) is ∙ fd'_at) in
                let same_old : old ≡ old' =
                  some_injective (sym old_at ∙ ap (get_elem? ctx.values) is ∙ old'_at) in
                rw (← is, ← same_fd, ← same_old)
                  (get_elem?-set_self values k new (omega (arith, lt, size)))
            | no other ↦
                get_elem?-set_ne values k j new other
                ∙ seen j fd' old' (omega (arith, below, other)) fd'_at old'_at
          ],
        ),
      )

  core-Visited :
      (core : ℕ) (values : List W)
      → core < ctx.nb_cores
      → Visited (core * ctx.nb_counters) values
      → (values' : List W) × (for_range ctx.nb_counters 0
            (λ cnt. cell f reads ctx (index ctx core cnt))
            values
          ≡ some values')
        × Visited ((core + 1) * ctx.nb_counters) values'
  core-Visited core values lt visited =
      let first : core * ctx.nb_counters ≡ core * ctx.nb_counters + 0 = omega arith in
      let next : core * ctx.nb_counters + ctx.nb_counters ≡ (core + 1) * ctx.nb_counters =
        omega arith in
      subst
        (λ k.
          (values' : List W) × (for_range ctx.nb_counters 0
              (λ cnt. cell f reads ctx (index ctx core cnt)) values
            ≡ some values')
          × Visited k values')
        next
        (for_range_inv (λ cnt values. Visited (core * ctx.nb_counters + cnt) values) _
          ctx.nb_counters 0 ctx.nb_counters values
          (λ cnt values lt' visited.
            cell-Visited core cnt values (row_fits ctx.nb_cores core ctx.nb_counters cnt lt lt')
              visited)
          (omega arith) (subst (λ k. Visited k values) first visited))

  each_cell-Visited :
      (values' : List W) × (each_cell f reads ctx ≡ some values')
      × Visited (ctx.nb_cores * ctx.nb_counters) values'
  unfolding each_cell for_range
  each_cell-Visited =
      for_range_inv (λ core values. Visited (core * ctx.nb_counters) values) _ ctx.nb_cores 0
        ctx.nb_cores ctx.values (λ core values lt visited. core-Visited core values lt visited)
        (omega arith) (a.cells, λ j le. refl, λ j fd old below. absurd (omega (arith, below)))

module _ {W : Type 0} ⦃d : Tally W⦄ where
  counters-nonzero : (ctx : Context W) → 0 < ctx.nb_counters → (ctx.nb_counters == 0) ≡ false
  counters-nonzero ctx some_counters = elim (Bool-cases (ctx.nb_counters == 0)) [
    | inl none_there ↦
        absurd (omega (arith, some_counters, (==_iff ctx.nb_counters 0).0 none_there))
    | inr some_there ↦ some_there
  ]

  -- For arrays as large as the numbers of cores and counters, whose product is below 2^32, and at least
  -- one counter: `start` and then `stop` stay inside of the arrays and give a value for every counter
  -- of every core, which is the difference of what its own descriptor showed at the two reads. A second
  -- number below the first is taken for a counter that wrapped.
  pub stop-start :
      (reads reads' : Reads) (ctx : Context W)
      → Allocated ctx
      → 0 < ctx.nb_counters
      → (started stopped : Context W) × (start reads (some ctx) ≡ some (some started))
        × (stop reads' (some started) ≡ some stopped)
        × ((core cnt fd : ℕ)
            → core < ctx.nb_cores
            → cnt < ctx.nb_counters
            → get_elem? ctx.pfm_fds (core * ctx.nb_counters + cnt) ≡ some fd
            → get_elem? stopped.values (core * ctx.nb_counters + cnt)
              ≡ some (
                  if d.less_eq
                    (d.of_u64 (scaled_of d (reads fd)))
                    (d.of_u64 (scaled_of d (reads' fd)))
                  then d.sub
                      (d.of_u64 (scaled_of d (reads' fd)))
                      (d.of_u64 (scaled_of d (reads fd)))
                  else d.add
                      (d.sub (d.of_u64 (2 ^ 64 - 1)) (d.of_u64 (scaled_of d (reads fd))))
                      (d.of_u64 (scaled_of d (reads' fd)))))
  unfolding start stop each_cell
  stop-start reads reads' ctx a some_counters =
      let nonzero = counters-nonzero ctx some_counters in
      let (values, ran, (size, _, seen)) = each_cell-Visited initial_value reads ctx a in
      let started = record ctx { values = values } in
      let a' : Allocated started = record { small = a.small; fds = a.fds; cells = size } in
      let (values', ran', (_, _, seen')) = each_cell-Visited difference reads' started a' in
      (
        started,
        record started { values = values' },
        rw (nonzero, ran) refl,
        rw (nonzero, ran') refl,
        λ core cnt fd lt lt' at.
            let k = core * ctx.nb_counters + cnt in
            let below = row_fits ctx.nb_cores core ctx.nb_counters cnt lt lt' in
            let (old, old_at) = get_elem?_of_lt ctx.values k (omega (arith, below, a.cells)) in
            seen' k fd (d.of_u64 (scaled_of d (reads fd))) below at (seen k fd old below at old_at),
      )
