-- ===== src/EnergyMsr/Energy.antt =====
-- How often the counter of a socket is seen to wrap.
use lpowerprobe.Common.{
  ℕ, ◌+◌, ◌-◌, ◌/◌, ◌%◌, ◌^◌, ◌≤◌, ◌<◌, ◌≡◌, refl, ◌∙◌, sym, ap, Option, some, List, [], ◌∷◌, arith,
  ltb, if◌then◌else◌,
}
use lpowerprobe.EnergyMsr.{Joule, Socket, subvalue, start_socket, update_socket, stop_socket}

-- The energy used since the machine was started, in units, at successive readings: it never falls,
-- and less than 2^32 units are used from one reading to the next.
abbrev pub Follows : ℕ → List ℕ → Type 0
Follows x [] = Unit {0}
Follows x (y ∷ ys) = (x ≤ y) × (y < x + 2 ^ 32) × Follows y ys

abbrev pub last_of : ℕ → List ℕ → ℕ
last_of x [] = x
last_of x (y ∷ ys) = last_of y ys

wrap_count :
    (x y n : ℕ)
    → x ≤ y
    → y < x + 2 ^ 32
    → n + 1 < 2 ^ 32
    → (if ltb (y % 2 ^ 32) (x % 2 ^ 32) then (n + 1) % 2 ^ 32 else n)
      ≡ n + (y / 2 ^ 32 - x / 2 ^ 32)
wrap_count x y n le lt small = ground arith

last_of-le : (x : ℕ) (ys : List ℕ) → Follows x ys → x ≤ last_of x ys
last_of-le x [] follows = omega arith
last_of-le x (y ∷ ys) follows = omega (arith, follows.0, last_of-le y ys follows.2)

module _ {W : Type 0} ⦃d : Joule W⦄ where
  -- The comparison of two scaled 32-bit counters is that of the counters.
  abbrev pub KeepsOrder : W → Type 0
  KeepsOrder u = (a b : ℕ) → a < 2 ^ 32 → b < 2 ^ 32 → d.less (d.scale a u) (d.scale b u) ≡ ltb a b

  -- The comparison at the reading `y` that follows `x`, and at each of the readings that follow.
  abbrev pub Compared : W → ℕ → ℕ → Type 0
  Compared u x y =
      d.less (d.scale (y % 2 ^ 32) u) (d.scale (x % 2 ^ 32) u) ≡ ltb (y % 2 ^ 32) (x % 2 ^ 32)

  abbrev pub AllCompared : W → ℕ → List ℕ → Type 0
  AllCompared u x [] = Unit {0}
  AllCompared u x (y ∷ ys) = Compared u x y × AllCompared u y ys

  pub KeepsOrder-Compared : (u : W) → KeepsOrder u → (x y : ℕ) → Compared u x y
  KeepsOrder-Compared u keeps x y = keeps (y % 2 ^ 32) (x % 2 ^ 32) (omega arith) (omega arith)

  pub KeepsOrder-AllCompared : (u : W) → KeepsOrder u → (x : ℕ) (ys : List ℕ) → AllCompared u x ys
  KeepsOrder-AllCompared u keeps x [] = tt
  KeepsOrder-AllCompared u keeps x (y ∷ ys) =
      (KeepsOrder-Compared u keeps x y, KeepsOrder-AllCompared u keeps y ys)

  -- The updates of a socket at these readings, which the register gives modulo 2^32.
  unfoldable pub updates : Socket W → List ℕ → Socket W
  unfolding update_socket
  updates socket [] = socket
  updates socket (y ∷ ys) = updates (update_socket socket (some (y % 2 ^ 32))) ys

  record Counted (u : W) (x : ℕ) (n : ℕ) (ref : W) (socket : Socket W) : Type 0 where
    unit : socket.e_unit ≡ u
    last : socket.last_e ≡ d.scale (x % 2 ^ 32) u
    count : socket.ovf_cnt ≡ n
    from : socket.ref_e ≡ ref

  update_lem :
      (u : W) (x y n : ℕ) (ref : W) (socket : Socket W)
      → Compared u x y
      → x ≤ y
      → y < x + 2 ^ 32
      → n + 1 < 2 ^ 32
      → Counted u x n ref socket
      → Counted u y (n + (y / 2 ^ 32 - x / 2 ^ 32)) ref (update_socket socket (some (y % 2 ^ 32)))
  unfolding update_socket subvalue
  update_lem u x y n ref socket keeps le lt small c =
      let low : y % 2 ^ 32 / 2 ^ 0 % 2 ^ 32 ≡ y % 2 ^ 32 = omega arith in
      record {
        unit = c.unit;
        last = rw (low, c.unit);
        count = rw (low, c.unit, c.last, keeps, c.count) (wrap_count x y n le lt small);
        from = c.from;
      }

  updates_lem :
      (u : W) (x n : ℕ) (ref : W) (ys : List ℕ) (socket : Socket W)
      → AllCompared u x ys
      → Follows x ys
      → n + (last_of x ys / 2 ^ 32 - x / 2 ^ 32) + 1 < 2 ^ 32
      → Counted u x n ref socket
      → Counted u (last_of x ys) (n + (last_of x ys / 2 ^ 32 - x / 2 ^ 32)) ref (updates socket ys)
  unfolding updates
  updates_lem u x n ref [] socket keeps follows small c =
      let same : n + (x / 2 ^ 32 - x / 2 ^ 32) ≡ n = omega arith in
      record { unit = c.unit; last = c.last; count = c.count ∙ sym same; from = c.from }
  updates_lem u x n ref (y ∷ ys) socket keeps follows small c =
      let (le, lt, rest) = follows in
      let over = last_of-le y ys rest in
      let next = n + (y / 2 ^ 32 - x / 2 ^ 32) in
      let c' : Counted u y next ref (update_socket socket (some (y % 2 ^ 32))) =
        update_lem u x y n ref socket keeps.0 le lt (omega (arith, over, le, small)) c in
      let c'' =
        updates_lem u y next ref ys (update_socket socket (some (y % 2 ^ 32))) keeps.1 rest
          (omega (arith, over, le, small)) c' in
      record {
        unit = c''.unit;
        last = c''.last;
        count = omega (arith, c''.count, over, le);
        from = c''.from;
      }

  stop-Counted :
      (u : W) (z n : ℕ) (ref : W) (socket : Socket W) (reading : Option ℕ)
      → Counted u z n ref (update_socket socket reading)
      → (stop_socket socket reading).res ≡ d.sub (d.add (d.scale (z % 2 ^ 32) u) (d.wraps n u)) ref
  unfolding stop_socket
  stop-Counted u z n ref socket reading c = rw (c.last, c.count, c.unit, c.from)

  -- What a socket reports that is started at `x`, updated at `ys` and stopped at `z`.
  unfoldable pub measured : Socket W → ℕ → List ℕ → ℕ → W
  unfolding start_socket stop_socket updates
  measured socket x ys z =
      (stop_socket (updates (start_socket socket (some (x % 2 ^ 32))) ys) (some (z % 2 ^ 32))).res

  -- If at each reading of this measurement the scaled counter is less than the one before just where the
  -- counter itself is, so that no rounding changes a comparison, and less than 2^32 units are used from
  -- each reading to the next, every wrap of the counter is counted: the result is the last counter
  -- plus the wraps between the start and the stop, less the first counter, as the code scales and adds
  -- them. The wraps number fewer than 2^32 - 1.
  pub measured_lem :
      (socket : Socket W) (x : ℕ) (ys : List ℕ) (z : ℕ)
      → AllCompared socket.e_unit x ys
      → Compared socket.e_unit (last_of x ys) z
      → Follows x ys
      → last_of x ys ≤ z
      → z < last_of x ys + 2 ^ 32
      → z / 2 ^ 32 - x / 2 ^ 32 + 1 < 2 ^ 32
      → measured socket x ys z
        ≡ d.sub
            (d.add
              (d.scale (z % 2 ^ 32) socket.e_unit)
              (d.wraps (z / 2 ^ 32 - x / 2 ^ 32) socket.e_unit))
            (d.scale (x % 2 ^ 32) socket.e_unit)
  unfolding measured start_socket subvalue
  measured_lem socket x ys z keeps keeps_last follows le lt small =
      let u = socket.e_unit in
      let low : x % 2 ^ 32 / 2 ^ 0 % 2 ^ 32 ≡ x % 2 ^ 32 = omega arith in
      let first : Counted u x 0 (d.scale (x % 2 ^ 32) u) (start_socket socket (some (x % 2 ^ 32))) =
        record { unit = refl; last = rw low; count = refl; from = rw low } in
      let over = last_of-le x ys follows in
      let c =
        updates_lem u x 0 (d.scale (x % 2 ^ 32) u) ys (start_socket socket (some (x % 2 ^ 32)))
          keeps follows (omega (arith, over, le, small)) first in
      let c' =
        update_lem u (last_of x ys) z (0 + (last_of x ys / 2 ^ 32 - x / 2 ^ 32))
          (d.scale (x % 2 ^ 32) u) (updates (start_socket socket (some (x % 2 ^ 32))) ys) keeps_last
          le lt (omega (arith, over, le, small)) c in
      let total : 0 + (last_of x ys / 2 ^ 32 - x / 2 ^ 32) + (z / 2 ^ 32 - last_of x ys / 2 ^ 32)
          ≡ z / 2 ^ 32 - x / 2 ^ 32 =
        omega (arith, over, le) in
      stop-Counted u z
        (0 + (last_of x ys / 2 ^ 32 - x / 2 ^ 32) + (z / 2 ^ 32 - last_of x ys / 2 ^ 32))
        (d.scale (x % 2 ^ 32) u) (updates (start_socket socket (some (x % 2 ^ 32))) ys)
        (some (z % 2 ^ 32)) c'
      ∙ ap (λ n. d.sub (d.add (d.scale (z % 2 ^ 32) u) (d.wraps n u)) (d.scale (x % 2 ^ 32) u))
          total
