-- ===== src/Double.antt =====
-- All that the code does with a `double`: the constant 0, the conversion of a `size_t`, and three
-- operations. Nothing is assumed of them: rounding, infinities and NaN are left open.
use lpowerprobe.Common.{ℕ, ◌+◌, ◌-◌, ◌/◌}

pub record Double (W : Type 0) : Type 0 where
  pub nought : W
  pub of_size : ℕ → W
  pub add : W → W → W
  pub sub : W → W → W
  pub div : W → W → W

-- Whole numbers, to run the code on.
instance abbrev pub whole : Double ℕ
whole = record {
  nought = 0;
  of_size = λ n. n;
  add = λ a b. a + b;
  sub = λ a b. a - b;
  div = λ a b. a / b;
}
