-- ===== src/Yoko/Digits.antt =====
-- The loops of parse_float_str in probes/libenergyyoko/yokosrv.c over the bytes of a text.
use mathlib.Core.List.{append_assoc}
use lpowerprobe.Common.{
  ℕ, zero, suc, ◌+◌, ◌≡◌, refl, ◌∙◌, sym, ap, Bool, true, false, some, [], ◌∷◌, ◌++◌, length, All,
  All-imp, arith, length-append,
}
use lpowerprobe.Text.{Text}
use lpowerprobe.Text.Numbers.{is_digit}
use lpowerprobe.Yoko.Number.{
  char_at, find_first, is_dot, is_e, scan_up, scan_down, is_minus, sign_width,
}

-- A sign, which may be left out.
pub data Sign : Type 0 where
  no_sign plus minus : Sign

abbrev pub sign_text : Sign → Text
sign_text no_sign = []
sign_text plus = 43 ∷ []
sign_text minus = 45 ∷ []

abbrev pub is_negative : Sign → Bool
is_negative no_sign = false
is_negative plus = false
is_negative minus = true

abbrev pub AllDigits : Text → Type 0
AllDigits text = All (λ c. is_digit c ≡ true) text

-- From the first element on, and from the last one.
abbrev pub from_left {ℓ} : {S : Type ℓ} → (ℕ → S → S) → Text → S → S
from_left step [] s = s
from_left step (c ∷ text) s = from_left step text (step c s)

abbrev pub from_right {ℓ} : {S : Type ℓ} → (ℕ → S → S) → Text → S → S
from_right step [] s = s
from_right step (c ∷ text) s = step c (from_right step text s)

pub char_at-append :
    (front back : Text) (i : ℕ) → char_at (front ++ back) (length front + i) ≡ char_at back i
char_at-append [] back i = let e : 0 + i ≡ i = omega arith in ap (char_at back) e
char_at-append (c ∷ front) back i =
    let e : suc (length front) + i ≡ suc (length front + i) = omega arith in
    ap (char_at (c ∷ (front ++ back))) e ∙ char_at-append front back i

char_at-here :
    (str front back : Text) (c i : ℕ)
    → str ≡ front ++ (c ∷ back)
    → i ≡ length front
    → char_at str i ≡ c
char_at-here str front back c i is at =
    let e : i ≡ length front + 0 = omega (arith, at) in
    ap (λ t. char_at t i) is
    ∙ ap (char_at (front ++ (c ∷ back))) e
    ∙ char_at-append front (c ∷ back) 0

pub find_first-append :
    (test : ℕ → Bool) (front : Text) (c : ℕ) (back : Text)
    → All (λ b. test b ≡ false) front
    → test c ≡ true
    → find_first test (front ++ (c ∷ back)) ≡ some (length front)
unfolding find_first
find_first-append test [] c back skip hit = rw hit refl
find_first-append test (b ∷ front) c back skip hit =
    rw (skip.0, find_first-append test front c back skip.1 hit) refl

module _ {ℓ} {S : Type ℓ} (step : ℕ → S → S) where
  pub scan_up_lem :
      (str front mid back : Text) (i : ℕ) (s : S)
      → str ≡ front ++ (mid ++ back)
      → i ≡ length front
      → scan_up step str i (length mid) s ≡ from_left step mid s
  unfolding scan_up
  scan_up_lem str front [] back i s is at = refl
  scan_up_lem str front (c ∷ mid) back i s is at =
      ap (λ b. scan_up step str (i + 1) (length mid) (step b s))
        (char_at-here str front (mid ++ back) c i is at)
      ∙ scan_up_lem str (front ++ (c ∷ [])) mid back (i + 1) (step c s)
          (is ∙ sym (append_assoc front (c ∷ []) (mid ++ back)))
          (omega (arith, at, length-append front (c ∷ [])))

  -- The first byte is taken last.
  scan_down-first :
      (str : Text) (i count : ℕ) (s : S)
      → scan_down step str i (suc count) s
        ≡ step (char_at str i) (scan_down step str (i + 1) count s)
  unfolding scan_down
  scan_down-first str i zero s =
      let e : i + 0 ≡ i = omega arith in ap (λ j. step (char_at str j) s) e
  scan_down-first str i (suc count) s =
      let e : i + suc count ≡ i + 1 + count = omega arith in
      scan_down-first str i count (step (char_at str (i + suc count)) s)
      ∙ ap (λ j. step (char_at str i) (scan_down step str (i + 1) count (step (char_at str j) s))) e

  pub scan_down_lem :
      (str front mid back : Text) (i : ℕ) (s : S)
      → str ≡ front ++ (mid ++ back)
      → i ≡ length front
      → scan_down step str i (length mid) s ≡ from_right step mid s
  unfolding scan_down
  scan_down_lem str front [] back i s is at = refl
  scan_down_lem str front (c ∷ mid) back i s is at =
      scan_down-first str i (length mid) s
      ∙ ap (λ b. step b (scan_down step str (i + 1) (length mid) s))
          (char_at-here str front (mid ++ back) c i is at)
      ∙ ap (step c) (
          scan_down_lem str (front ++ (c ∷ [])) mid back (i + 1) s
            (is ∙ sym (append_assoc front (c ∷ []) (mid ++ back)))
            (omega (arith, at, length-append front (c ∷ []))))

-- No sign stands in front of digits, nor behind the end.
pub digits-unsigned :
    (digits back : Text)
    → AllDigits digits
    → (sign_width (char_at back 0) ≡ 0) × (is_minus (char_at back 0) ≡ false)
    → (sign_width (char_at (digits ++ back) 0) ≡ 0)
      × (is_minus (char_at (digits ++ back) 0) ≡ false)
digits-unsigned [] back all unsigned = unsigned
digits-unsigned (c ∷ digits) back all unsigned = (ground (arith, all.0), ground (arith, all.0))

pub sign_lem :
    (s : Sign) (rest : Text)
    → (sign_width (char_at rest 0) ≡ 0) × (is_minus (char_at rest 0) ≡ false)
    → (sign_width (char_at (sign_text s ++ rest) 0) ≡ length (sign_text s))
      × (is_minus (char_at (sign_text s ++ rest) 0) ≡ is_negative s)
sign_lem no_sign rest unsigned = unsigned
sign_lem plus rest unsigned = (refl, refl)
sign_lem minus rest unsigned = (refl, refl)

pub digits-solid :
    (text : Text)
    → AllDigits text
    → All (λ c. is_dot c ≡ false) text × All (λ c. is_e c ≡ false) text
digits-solid text all = (
  All-imp _ _ text (λ c h. ground (arith, h)) all,
  All-imp _ _ text (λ c h. ground (arith, h)) all,
)

pub sign-solid :
    (s : Sign) → All (λ c. is_dot c ≡ false) (sign_text s) × All (λ c. is_e c ≡ false) (sign_text s)
sign-solid no_sign = (tt, tt)
sign-solid plus = ((refl, tt), (refl, tt))
sign-solid minus = ((refl, tt), (refl, tt))

-- The text of a number.
abbrev pub spelt : Sign → Text → Text → Sign → Text → Text
spelt s whole frac es exponent =
    sign_text s ++ (whole ++ (46 ∷ (frac ++ (69 ∷ (sign_text es ++ exponent)))))
