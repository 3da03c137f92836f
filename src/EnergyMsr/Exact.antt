-- ===== src/EnergyMsr/Exact.antt =====
-- The energy in exact arithmetic, in units of 2^-64 J.
use lpowerprobe.Common.{
  ℕ, ◌+◌, ◌-◌, ◌*◌, ◌/◌, ◌%◌, ◌^◌, ◌≤◌, ◌<◌, ◌≡◌, ◌∙◌, sym, ap, List, [], arith, ltb, if◌then◌else◌,
  Bool-cases, inl, inr, lt→ltb, le→ltb-false, ltb→lt, ltb-false→le,
}
use lpowerprobe.EnergyMsr.{Joule, Socket, subvalue, start_socket, update_socket, stop_socket}
use lpowerprobe.EnergyMsr.Energy.{
  Follows, last_of, KeepsOrder, KeepsOrder-Compared, KeepsOrder-AllCompared, measured, measured_lem,
  updates,
}
use native.Mathlib.Nat.{mul-le-mul_right}

instance abbrev pub exact : Joule ℕ
exact = record {
  pow_half = λ n. 2 ^ (64 - n);
  scale = λ n u. n * u;
  wraps = λ n u. n * 2 ^ 32 * u;
  add = λ a b. a + b;
  sub = λ a b. a - b;
  less = ltb;
  nought = 0;
}

pub exact-KeepsOrder : (u : ℕ) → 0 < u → KeepsOrder u
exact-KeepsOrder u pos a b ha hb = elim (Bool-cases (ltb a b)) [
  | inl lt ↦
      lt→ltb (a * u) (b * u) (omega (arith, mul-le-mul_right u (ltb→lt a b lt), pos)) ∙ sym lt
  | inr ge ↦
      le→ltb-false (a * u) (b * u) (omega (arith, mul-le-mul_right u (ltb-false→le a b ge)))
      ∙ sym ge
]

all_units :
    (x z u : ℕ)
    → x ≤ z
    → z % 2 ^ 32 * u + (z / 2 ^ 32 - x / 2 ^ 32) * 2 ^ 32 * u - x % 2 ^ 32 * u ≡ (z - x) * u
all_units x z u le =
    let units : z % 2 ^ 32 + (z / 2 ^ 32 - x / 2 ^ 32) * 2 ^ 32 ≡ (z - x) + x % 2 ^ 32 =
      omega arith in
    omega (arith, ap (λ t. t * u) units)

-- In exact arithmetic, with less than 2^32 units from each reading to the next, and fewer than
-- 2^32 - 1 wraps, the result is the energy used between the start and the stop.
pub energy_measured :
    (socket : Socket ℕ) (x : ℕ) (ys : List ℕ) (z : ℕ)
    → 0 < socket.e_unit
    → Follows x ys
    → last_of x ys ≤ z
    → z < last_of x ys + 2 ^ 32
    → x ≤ z
    → z / 2 ^ 32 - x / 2 ^ 32 + 1 < 2 ^ 32
    → measured socket x ys z ≡ (z - x) * socket.e_unit
energy_measured socket x ys z pos follows le lt le' small =
    let keeps = exact-KeepsOrder socket.e_unit pos in
    measured_lem socket x ys z (KeepsOrder-AllCompared socket.e_unit keeps x ys)
      (KeepsOrder-Compared socket.e_unit keeps (last_of x ys) z) follows le lt small
    ∙ all_units x z socket.e_unit le'

once_counted :
    (x z u : ℕ)
    → x ≤ z
    → z % 2 ^ 32 * u
        + (if ltb (z % 2 ^ 32) (x % 2 ^ 32) then 1 else 0) * 2 ^ 32 * u
        - x % 2 ^ 32 * u
      ≡ (z - x) % 2 ^ 32 * u
once_counted x z u le =
    let units : z % 2 ^ 32 + (if ltb (z % 2 ^ 32) (x % 2 ^ 32) then 1 else 0) * 2 ^ 32
        ≡ (z - x) % 2 ^ 32 + x % 2 ^ 32 =
      ground arith in
    omega (arith, ap (λ t. t * u) units)

-- Without an update between the start and the stop, whole multiples of 2^32 units are lost: in exact
-- arithmetic the result is the remainder of the energy.
pub energy_lost :
    (socket : Socket ℕ) (x z : ℕ)
    → 0 < socket.e_unit
    → x ≤ z
    → measured socket x [] z ≡ (z - x) % 2 ^ 32 * socket.e_unit
unfolding measured start_socket stop_socket update_socket subvalue updates
energy_lost socket x z pos le =
    let u = socket.e_unit in
    let low : (n : ℕ) → n % 2 ^ 32 / 2 ^ 0 % 2 ^ 32 ≡ n % 2 ^ 32 = λ n. omega arith in
    rw (low x, low z, exact-KeepsOrder u pos (z % 2 ^ 32) (x % 2 ^ 32) (omega arith) (omega arith))
      (once_counted x z u le)
