-- ===== src/Yoko/Places.antt =====
-- What the digits of a number stand for in the loops of parse_float_str, probes/libenergyyoko/yokosrv.c: each
-- digit times the power of ten of its place.
use lpowerprobe.Common.{ℕ, zero, suc, ◌≡◌, refl, ap, ◌∙◌, [], ◌∷◌, length}
use lpowerprobe.Text.{Text}
use lpowerprobe.Yoko.Number.{Real, fraction_step, whole_step, exponent_step}
use lpowerprobe.Yoko.Digits.{from_left, from_right}

module _ {W : Type 0} ⦃d : Real W⦄ where
  -- 10 ^ n, and 0.1 ^ (n + 1).
  abbrev pub ten_power : ℕ → W
  ten_power zero = d.one
  ten_power (suc n) = d.mul (ten_power n) d.ten

  abbrev pub tenth_power : ℕ → W
  tenth_power zero = d.tenth
  tenth_power (suc n) = d.mul (tenth_power n) d.tenth

  -- The digits behind the dot from the place `i` on, added to a sum from the first one on.
  abbrev pub fraction_sum : ℕ → Text → W → W
  fraction_sum i [] sum = sum
  fraction_sum i (c ∷ text) sum =
      fraction_sum (suc i) text (d.add sum (d.mul (d.digit c) (tenth_power i)))

  -- The digits before the dot, added to a sum from the last one on: the place of a digit is the number of
  -- those behind it.
  abbrev pub whole_sum : Text → W → W
  whole_sum [] sum = sum
  whole_sum (c ∷ text) sum =
      d.add (whole_sum text sum) (d.mul (d.digit c) (ten_power (length text)))

  abbrev pub value_of : Text → Text → W
  value_of whole frac = whole_sum whole (fraction_sum 0 frac d.nought)

  abbrev pub exponent_of : Text → W
  exponent_of [] = d.no_exponent
  exponent_of (c ∷ text) = d.add_exponent (exponent_of text) c (ten_power (length text))

  fraction_lem :
      (i : ℕ) (frac : Text) (sum : W)
      → (from_left fraction_step frac (tenth_power i, sum)).1 ≡ fraction_sum i frac sum
  fraction_lem i [] sum = refl
  fraction_lem i (c ∷ frac) sum =
      fraction_lem (suc i) frac (d.add sum (d.mul (d.digit c) (tenth_power i)))

  whole_lem :
      (whole : Text) (sum : W)
      → from_right whole_step whole (d.one, sum) ≡ (ten_power (length whole), whole_sum whole sum)
  whole_lem [] sum = refl
  whole_lem (c ∷ whole) sum = ap (whole_step c) (whole_lem whole sum)

  exponent_lem :
      (exponent : Text)
      → from_right exponent_step exponent (d.one, d.no_exponent)
        ≡ (ten_power (length exponent), exponent_of exponent)
  exponent_lem [] = refl
  exponent_lem (c ∷ exponent) = ap (exponent_step c) (exponent_lem exponent)

  pub value_lem :
      (whole frac : Text)
      → (from_right whole_step whole
          (d.one, (from_left fraction_step frac (d.tenth, d.nought)).1)).1
        ≡ value_of whole frac
  value_lem whole frac =
      ap (λ s. (from_right whole_step whole (d.one, s)).1) (fraction_lem 0 frac d.nought)
      ∙ ap (λ t. t.1) (whole_lem whole (fraction_sum 0 frac d.nought))

  pub exponent_value :
      (exponent : Text)
      → (from_right exponent_step exponent (d.one, d.no_exponent)).1 ≡ exponent_of exponent
  exponent_value exponent = ap (λ t. t.1) (exponent_lem exponent)
