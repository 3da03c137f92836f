-- ===== src/Yoko/Number.antt =====
-- parse_float_str of probes/libenergyyoko/yokosrv.c: the number that an answer of the power meter spells.
use lpowerprobe.Common.{
  ℕ, zero, suc, ◌+◌, ◌-◌, Bool, true, false, ◌||◌, Option, none, some, [], ◌∷◌, length, ◌==◌,
  if◌then◌else◌,
}
use lpowerprobe.Text.{Text, same_text}

-- What the code does with `double`. The `int` of the exponent is kept as a double, which holds it exactly.
pub record Real (W : Type 0) : Type 0 where
  pub nought : W
  pub one : W
  pub tenth : W  -- 0.1
  pub ten : W
  pub minus_one : W  -- -1.
  pub nan : W
  pub infinity : W
  pub digit : ℕ → W  -- str[i] - '0'
  pub add : W → W → W
  pub sub : W → W → W
  pub mul : W → W → W
  pub signed : Bool → W → W  -- sign * res, negative if true
  pub power : Bool → W → W  -- pow(10, esign * eval)
  pub no_exponent : W
  pub add_exponent : W → ℕ → W → W  -- eval += (str[i] - '0') * coeff
  pub negative : W → Bool  -- cur < 0
  pub equals : W → W → Bool  -- ==

-- `str[i]`, with the 0 that ends a string.
abbrev pub char_at : Text → ℕ → ℕ
char_at [] i = 0
char_at (c ∷ str) zero = c
char_at (c ∷ str) (suc i) = char_at str i

-- The loops that search for the first of some bytes.
unfoldable pub find_first : (ℕ → Bool) → Text → Option ℕ
find_first test [] = none
find_first test (c ∷ str) = elim (test c) [
  | true ↦ some 0
  | false ↦ elim (find_first test str) [ none ↦ none | some i ↦ some (suc i) ]
]

-- `.`.
abbrev pub is_dot : ℕ → Bool
is_dot c = c == 46

-- `e` or `E`.
abbrev pub is_e : ℕ → Bool
is_e c = (c == 101) || (c == 69)

-- The loops over `count` bytes from an index up, and from the last of them down to the index.
unfoldable pub scan_up {ℓ} : {S : Type ℓ} → (ℕ → S → S) → Text → ℕ → ℕ → S → S
scan_up step str i zero s = s
scan_up step str i (suc count) s = scan_up step str (i + 1) count (step (char_at str i) s)

unfoldable pub scan_down {ℓ} : {S : Type ℓ} → (ℕ → S → S) → Text → ℕ → ℕ → S → S
scan_down step str i zero s = s
scan_down step str i (suc count) s = scan_down step str i count (step (char_at str (i + count)) s)

-- `9.9E+37` and `9.91E+37`.
abbrev pub nan_text : Text
nan_text = 57 ∷ 46 ∷ 57 ∷ 69 ∷ 43 ∷ 51 ∷ 55 ∷ []

abbrev pub infinity_text : Text
infinity_text = 57 ∷ 46 ∷ 57 ∷ 49 ∷ 69 ∷ 43 ∷ 51 ∷ 55 ∷ []

-- Whether a sign stands at an index, and how many bytes it takes.
abbrev pub is_minus : ℕ → Bool
is_minus c = c == 45

abbrev pub sign_width : ℕ → ℕ
sign_width c = if (c == 45) || (c == 43) then 1 else 0

-- `epos + 1`, where `epos` is -1 if there is no E.
abbrev pub behind : Option ℕ → ℕ
behind none = 0
behind (some epos) = epos + 1

-- Behind the digits before the dot, or before the E where there is no dot.
abbrev pub whole_end : Option ℕ → ℕ → ℕ
whole_end none e1 = e1 - 1
whole_end (some dpos) e1 = dpos

module _ {W : Type 0} ⦃d : Real W⦄ where
  -- One round of the loops, with `coeff` and what is summed.
  abbrev pub fraction_step : ℕ → W × W → W × W
  fraction_step c (coeff, res) = (d.mul coeff d.tenth, d.add res (d.mul (d.digit c) coeff))

  abbrev pub whole_step : ℕ → W × W → W × W
  whole_step c (coeff, res) = (d.mul coeff d.ten, d.add res (d.mul (d.digit c) coeff))

  abbrev pub exponent_step : ℕ → W × W → W × W
  exponent_step c (coeff, eval) = (d.mul coeff d.ten, d.add_exponent eval c coeff)

  -- The digits after the dot, up to the E.
  unfoldable pub after_dot : Text → Option ℕ → ℕ → W
  unfolding scan_up
  after_dot str none e1 = d.nought
  after_dot str (some dpos) e1 =
      (scan_up fraction_step str (dpos + 1) (e1 - (dpos + 2)) (d.tenth, d.nought)).1

  -- A string that is not one of the two special ones.
  unfoldable pub parse_digits : Text → W
  unfolding scan_down after_dot find_first
  parse_digits str =
      let dpos = find_first is_dot str in
      let e1 = behind (find_first is_e str) in
      let npos = sign_width (char_at str 0) in
      let enpos = e1 + sign_width (char_at str e1) in
      let res =
        (scan_down whole_step str npos (whole_end dpos e1 - npos)
          (d.one, after_dot str dpos e1)).1 in
      let eval =
        (scan_down exponent_step str enpos (length str - enpos) (d.one, d.no_exponent)).1 in
      d.mul (d.signed (is_minus (char_at str 0)) res) (d.power (is_minus (char_at str e1)) eval)

  -- `parse_float_str`; `none` is a null pointer.
  unfoldable pub parse_float_str : Option Text → W
  unfolding parse_digits
  parse_float_str none = d.minus_one
  parse_float_str (some str) =
      if same_text str nan_text
      then d.nan
      else if same_text str infinity_text
      then d.infinity
      else parse_digits str
