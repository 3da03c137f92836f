-- ===== src/Text/Numbers/Laws.antt =====
-- Decimal numbers with semicolons behind them are read back.
use lpowerprobe.Common.{
  ℕ, zero, suc, ◌+◌, ◌-◌, ◌*◌, ◌^◌, ◌<◌, ◌≤◌, ◌≡◌, ◌≢◌, refl, ◌∙◌, ap, Bool, true, false, ◌||◌,
  Option, some, List, [], ◌∷◌, ◌++◌, map, length, length-append, All, All-imp, arith, ◌==◌, lt→ltb,
}
use lpowerprobe.Text.{Text, is_space, semicolon, open_up}
use lpowerprobe.Text.Words.{joined, open_up-word}
use lpowerprobe.Text.Numbers.{
  skip_spaces, is_digit, digits_from, fitting, unsigned_at, signed_at, extract, numbers,
}

-- The value of a decimal numeral.
abbrev pub decimal : ℕ → Text → ℕ
decimal read [] = read
decimal read (c ∷ word) = decimal (read * 10 + (c - 48)) word

pub record IsNumeral (width : ℕ) (word : Text) : Type 0 where
  pub nonempty : word ≢ []
  pub digits : All (λ c. is_digit c ≡ true) word
  pub fits : decimal 0 word < 2 ^ width

-- A byte that ends a number.
digits_from-numeral :
    (word : Text) (read c : ℕ) (text : Text)
    → All (λ d. is_digit d ≡ true) word
    → is_digit c ≡ false
    → digits_from read (word ++ (c ∷ text)) ≡ (decimal read word, c ∷ text)
unfolding digits_from
digits_from-numeral [] read c text digits stop = rw (digits_from, stop)
digits_from-numeral (d ∷ word) read c text digits stop =
    rw (digits_from, digits.0)
      (digits_from-numeral word (read * 10 + (d - 48)) c text digits.1 stop)

skip_spaces-solid : (d : ℕ) (text : Text) → is_space d ≡ false → skip_spaces (d ∷ text) ≡ d ∷ text
unfolding skip_spaces
skip_spaces-solid d text solid = rw (skip_spaces, solid)

signed_at-digit :
    (width d : ℕ) (text : Text)
    → is_digit d ≡ true
    → signed_at width (d ∷ text) ≡ unsigned_at width false (d ∷ text)
unfolding signed_at
signed_at-digit width d text digit =
    let plus : (d == 43) ≡ false = ground arith in
    let minus : (d == 45) ≡ false = ground arith in rw (minus, plus)

unsigned_at-digit :
    (width d : ℕ) (text : Text) {n : ℕ} {behind : Text}
    → is_digit d ≡ true
    → digits_from 0 (d ∷ text) ≡ (n, behind)
    → n < 2 ^ width
    → unsigned_at width false (d ∷ text) ≡ (some n, behind)
unfolding unsigned_at
unsigned_at-digit width d text {n} {behind} digit read fits =
    let fit : fitting width false n ≡ some n = rw (lt→ltb n (2 ^ width) fits) in
    rw (unsigned_at, digit, read, fit)

-- A numeral that fits, with a byte behind it that is no digit, is read up to that byte.
pub extract-numeral :
    (width : ℕ) (word : Text) (c : ℕ) (text : Text)
    → IsNumeral width word
    → is_digit c ≡ false
    → extract width (word ++ (c ∷ text)) ≡ (some (decimal 0 word), c ∷ text)
unfolding extract
extract-numeral width [] c text numeral stop = absurd (numeral.nonempty refl)
extract-numeral width (d ∷ word) c text numeral stop =
    let digit : is_digit d ≡ true = numeral.digits.0 in
    let solid : is_space d ≡ false = ground arith in
    ap (signed_at width) (skip_spaces-solid d (word ++ (c ∷ text)) solid)
    ∙ signed_at-digit width d (word ++ (c ∷ text)) digit
    ∙ unsigned_at-digit width d (word ++ (c ∷ text)) digit
        (digits_from-numeral (d ∷ word) 0 c text numeral.digits stop) numeral.fits

numbers-space :
    (width fuel : ℕ) (text : Text)
    → numbers width (suc fuel) (32 ∷ text) ≡ numbers width (suc fuel) text
unfolding numbers extract skip_spaces
numbers-space width fuel text = refl

numbers-step :
    (width fuel : ℕ) (text : Text) {n : ℕ} {left : Text} {ns : List ℕ} {ended : Bool}
    → extract width text ≡ (some n, left)
    → numbers width fuel left ≡ (ns, ended)
    → numbers width (suc fuel) text ≡ (n ∷ ns, ended)
unfolding numbers
numbers-step width fuel text {n} {left} found more =
    let value : (extract width text).0 ≡ some n = ap (λ (r : Option ℕ × Text). r.0) found in
    let behind : (extract width text).1 ≡ left = ap (λ (r : Option ℕ × Text). r.1) found in
    rw (numbers, value, behind, more)

-- With fuel for each numeral and one more round, the numerals are read in order, up to the end.
pub numbers-joined :
    (width fuel : ℕ) (ws : List Text)
    → All (IsNumeral width) ws
    → length ws < fuel
    → numbers width fuel (open_up (joined ws)) ≡ (map (decimal 0) ws, true)
unfolding numbers extract skip_spaces signed_at open_up
numbers-joined width zero ws good h = absurd (omega arith)
numbers-joined width (suc fuel) [] good h = refl
numbers-joined width (suc zero) (word ∷ ws) good h = absurd (omega arith)
numbers-joined width (suc (suc fuel)) (word ∷ ws) good h =
    let solid : All (λ c. (is_space c || (c == semicolon)) ≡ false) word =
      All-imp _ _ word (λ c d. ground arith) good.0.digits in
    ap (numbers width (suc (suc fuel))) (open_up-word word (joined ws) solid)
    ∙ numbers-step width (suc fuel) (word ++ (32 ∷ open_up (joined ws)))
        (extract-numeral width word 32 (open_up (joined ws)) good.0 refl)
        (numbers-space width fuel (open_up (joined ws))
          ∙ numbers-joined width (suc fuel) ws good.1 (omega arith))

-- There are as many bytes as numerals, at least.
pub length-joined :
    (width : ℕ) (ws : List Text) → All (IsNumeral width) ws → length ws ≤ length (joined ws)
length-joined width [] good = omega arith
length-joined width (word ∷ ws) good =
    omega (arith, length-joined width ws good.1, length-append word (semicolon ∷ joined ws))
