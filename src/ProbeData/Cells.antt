-- ===== src/ProbeData/Cells.antt =====
-- The cells of a matrix that has a shape: what a write and the two nested loops do to them.
use lpowerprobe.Common.{
  ℕ, ◌+◌, ◌<◌, ◌≡◌, ◌∙◌, ◌&&◌, ◌||◌, Option, some, List, length, get_elem?, set, ◌>>=◌, ltb, ◌==◌,
  if◌then◌else◌, arith, for_range, for_range_inv, get_elem?_of_lt, get_elem?-set, length-set,
  All-get_elem?, All-set,
}
use lpowerprobe.ProbeData.{get_cell, set_cell, each_cell, IsShaped}

module _ {W : Type 0} {nd nc : ℕ} where
  -- Inside of the shape there is a row, as long as all the others, and a cell of it.
  pub row_of_shape :
      {m : List (List W)}
      → IsShaped nd nc m
      → (i : ℕ) → i < nd
      → (row : List W) × (get_elem? m i ≡ some row) × (length row ≡ nc)
  row_of_shape {m} s i h =
      let (row, e) = get_elem?_of_lt m i (omega arith) in
      (row, e, All-get_elem? (λ row. length row ≡ nc) m i s.columns e)

  pub cell_of_shape :
      {m : List (List W)}
      → IsShaped nd nc m
      → (i j : ℕ) → i < nd
      → j < nc
      → (v : W) × (get_cell m i j ≡ some v)
  unfolding get_cell
  cell_of_shape s i j hi hj =
      let (row, e, l) = row_of_shape s i hi in rw e (get_elem?_of_lt row j (omega arith))

  pub set_cell_lem :
      {m : List (List W)}
      → IsShaped nd nc m
      → (i j : ℕ) (v : W) → i < nd
      → j < nc
      → (m' : List (List W)) × (set_cell m i j v ≡ some m')
        × IsShaped nd nc m'
        × ((a b : ℕ) → get_cell m' a b ≡ (if a == i && b == j then some v else get_cell m a b))
  unfolding get_cell set_cell
  set_cell_lem {m} s i j v hi hj =
      let (row, e, l) = row_of_shape s i hi in
      let (old, o) = get_elem?_of_lt row j (omega arith) in
      let row' : List W = set row j v in
      (
        set m i row',
        rw e (rw o),
        record {
          rows = length-set m i row' ∙ s.rows;
          columns = All-set (λ row. length row ≡ nc) m i row' s.columns (length-set row j v ∙ l);
        },
        λ a b.
            ground (
              arith,
              get_elem?-set m i a row' (omega arith),
              get_elem?-set row j b v (omega arith),
            ),
      )

module _ {W : Type 0} {nd nc : ℕ} (new : ℕ → ℕ → W → Option W) (g : ℕ → ℕ → Option W)
    (m : List (List W))
    (computes : (i j : ℕ) (old : W)
      → i < nd
      → j < nc
      → get_cell m i j ≡ some old
      → (v : W) × (new i j old ≡ some v) × (g i j ≡ some v)) where
  -- The cells before `(d, c)` have their new values, the others still the old ones.
  record Progress (d c : ℕ) (t : List (List W)) : Type 0 where
    shaped : IsShaped nd nc t
    assigned :
        (i j : ℕ)
        → i < nd
        → j < nc
        → get_cell t i j ≡ (if ltb i d || (i == d && ltb j c) then g i j else get_cell m i j)

  step_cell :
      (d c : ℕ) (t : List (List W))
      → d < nd
      → c < nc
      → Progress d c t
      → (t' : List (List W)) × ((get_cell t d c >>= λ old. new d c old >>= set_cell t d c)
          ≡ some t')
        × Progress d (c + 1) t'
  step_cell d c t hd hc p =
      let (old, o) = cell_of_shape p.shaped d c hd hc in
      let o' : get_cell m d c ≡ some old = ground (arith, p.assigned d c hd hc) in
      let (v, n, k) = computes d c old hd hc o' in
      let (t', e, s, after) = set_cell_lem p.shaped d c v hd hc in
      (
        t',
        rw (o, n) e,
        record {
          shaped = s;
          assigned = λ i j hi hj. ground (arith, after i j, p.assigned i j hi hj);
        },
      )

  -- Both loops end, with every cell assigned once from its old value.
  pub each_cell_lem :
      IsShaped nd nc m
      → (m' : List (List W)) × (each_cell nd nc new m ≡ some m')
        × IsShaped nd nc m'
        × ((i j : ℕ) → i < nd → j < nc → get_cell m' i j ≡ g i j)
  unfolding each_cell
  each_cell_lem s =
      let (m', e, p) =
        for_range_inv (λ d. Progress d 0) _ nd 0 nd m row (omega arith)
          (record { shaped = s; assigned = λ i j hi hj. ground arith }) in
      (m', e, p.shaped, λ i j hi hj. ground (arith, p.assigned i j hi hj))
    where
      row :
          (d : ℕ) (t : List (List W))
          → d < nd
          → Progress d 0 t
          → (t' : List (List W)) × (for_range nc 0
                (λ c u. get_cell u d c >>= λ old. new d c old >>= set_cell u d c)
                t
              ≡ some t')
            × Progress (d + 1) 0 t'
      row d t hd p =
          let (t', e, q) =
            for_range_inv (Progress d) _ nc 0 nc t (λ c u hc. step_cell d c u hd hc) (omega arith)
              p in
          (
            t',
            e,
            record {
              shaped = q.shaped;
              assigned = λ i j hi hj. ground (arith, q.assigned i j hi hj);
            },
          )
