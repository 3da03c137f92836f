-- ===== src/Yoko/Spelling.antt =====
-- parse_float_str of probes/libenergyyoko/yokosrv.c on the text of a number.
use lpowerprobe.Common.{◌+◌, ◌≡◌, some, [], ◌∷◌, ◌++◌, length}
use lpowerprobe.Text.{Text}
use lpowerprobe.Yoko.Number.{char_at, find_first, is_dot, is_e, is_minus, sign_width}
use lpowerprobe.Yoko.Digits.{Sign, sign_text, is_negative, AllDigits, spelt}

-- Where the parts of a number stand in its text.
record Places (str : Text) (s : Sign) (whole frac : Text) (es : Sign) (exponent : Text)
    : Type 0 where
  dot : find_first is_dot str ≡ some (length (sign_text s) + length whole)
  e : find_first is_e str ≡ some (length (sign_text s) + length whole + 1 + length frac)
  size :
      length str
      ≡ length (sign_text s)
        + length whole
        + 1
        + length frac
        + 1
        + length (sign_text es)
        + length exponent
  width : sign_width (char_at str 0) ≡ length (sign_text s)
  negative : is_minus (char_at str 0) ≡ is_negative s
  width' :
      sign_width (char_at str (length (sign_text s) + length whole + 1 + length frac + 1))
      ≡ length (sign_text es)
  negative' :
      is_minus (char_at str (length (sign_text s) + length whole + 1 + length frac + 1))
      ≡ is_negative es

module _ (str : Text) (s : Sign) (whole frac : Text) (es : Sign) (exponent : Text)
    (digits : AllDigits whole) (digits' : AllDigits frac) (digits'' : AllDigits exponent)
    (is : str ≡ spelt s whole frac es exponent) where
  -- Up to the dot, up to the E, and up to the digits of the exponent.
  abbrev to_dot : Text
  to_dot = sign_text s ++ whole

  abbrev to_e : Text
  to_e = to_dot ++ (46 ∷ frac)

  abbrev tail : Text
  tail = sign_text es ++ exponent

  abbrev to_exponent : Text
  to_exponent = (to_e ++ (69 ∷ [])) ++ sign_text es
