-- ===== src/Yoko/Fields.antt =====
-- The answer of the power meter, as send_req and read_measurement of probes/libenergyyoko/yokosrv.c take it
-- apart: numbers between commas, and a newline.
use mathlib.Core.List.{append_assoc, append-nil}
use lpowerprobe.Common.{
  ℕ, zero, suc, ◌<◌, ◌≡◌, ◌≢◌, refl, ◌∙◌, sym, ap, false, some, List, [], ◌∷◌, ◌++◌, length,
  get_elem?, All, All-append, arith, ◌==◌,
}
use lpowerprobe.Text.{Text, ended}
use lpowerprobe.Text.Tokens.{tokens_from, tokens}
use lpowerprobe.Yoko.Number.{Real, parse_float_str}
use lpowerprobe.Yoko.{
  Context, Ending, line, c_string, read_line, field_in, field_of, read_measurement,
}

-- A field: not empty, without a comma, a newline or a 0.
pub record IsField (text : Text) : Type 0 where
  pub nonempty : text ≢ []
  pub solid : All (λ c. (c == 44) ≡ false) text
  pub in_line : All (λ c. (c == 10) ≡ false) text
  pub in_string : All (λ c. (c == 0) ≡ false) text

abbrev pub joined : List Text → Text
joined [] = []
joined (field ∷ []) = field
joined (field ∷ next ∷ fields) = field ++ (44 ∷ joined (next ∷ fields))

tokens_from-solid :
    (before field rest : Text)
    → All (λ c. (c == 44) ≡ false) field
    → tokens_from 44 before (field ++ rest) ≡ tokens_from 44 (before ++ field) rest
unfolding tokens_from
tokens_from-solid before [] rest solid = ap (λ t. tokens_from 44 t rest) (sym (append-nil before))
tokens_from-solid before (c ∷ field) rest solid =
    rw (tokens_from, solid.0)
      (tokens_from-solid (before ++ (c ∷ [])) field rest solid.1
        ∙ ap (λ t. tokens_from 44 t rest) (append_assoc before (c ∷ []) field))

ended-nonempty : (field : Text) → field ≢ [] → ended field ≡ field ∷ []
ended-nonempty [] nonempty = absurd (nonempty refl)
ended-nonempty (c ∷ field) nonempty = refl

tokens-joined : (fields : List Text) → All IsField fields → tokens 44 (joined fields) ≡ fields
unfolding tokens tokens_from
tokens-joined [] all = refl
tokens-joined (field ∷ []) all =
    ap (tokens_from 44 []) (sym (append-nil field))
    ∙ tokens_from-solid [] field [] all.0.solid
    ∙ ended-nonempty field all.0.nonempty
tokens-joined (field ∷ next ∷ fields) all =
    tokens_from-solid [] field (44 ∷ joined (next ∷ fields)) all.0.solid
    ∙ ap (λ ts. ended field ++ ts) (tokens-joined (next ∷ fields) all.1)
    ∙ ap (λ ts. ts ++ (next ∷ fields)) (ended-nonempty field all.0.nonempty)

joined-in_line :
    (fields : List Text) → All IsField fields → All (λ c. (c == 10) ≡ false) (joined fields)
joined-in_line [] all = tt
joined-in_line (field ∷ []) all = all.0.in_line
joined-in_line (field ∷ next ∷ fields) all =
    All-append _ field (44 ∷ joined (next ∷ fields)) all.0.in_line
      (refl, joined-in_line (next ∷ fields) all.1)

joined-in_string :
    (fields : List Text) → All IsField fields → All (λ c. (c == 0) ≡ false) (joined fields)
joined-in_string [] all = tt
joined-in_string (field ∷ []) all = all.0.in_string
joined-in_string (field ∷ next ∷ fields) all =
    All-append _ field (44 ∷ joined (next ∷ fields)) all.0.in_string
      (refl, joined-in_string (next ∷ fields) all.1)

c_string_lem :
    (text : Text) → All (λ c. (c == 0) ≡ false) text → c_string (text ++ (0 ∷ [])) ≡ some text
unfolding c_string
c_string_lem [] all = refl
c_string_lem (c ∷ text) all = rw (c_string, all.0, c_string_lem text all.1) refl

read_line_lem :
    (room : ℕ) (got text rest : Text) (ending : Ending)
    → All (λ c. (c == 10) ≡ false) text
    → length text < room
    → read_line room got (text ++ (10 ∷ rest)) ending ≡ line (got ++ text)
unfolding read_line
read_line_lem zero got text rest ending in_line small = absurd (omega (arith, small))
read_line_lem (suc room) got [] rest ending in_line small = ap line (sym (append-nil got))
read_line_lem (suc room) got (c ∷ text) rest ending in_line small =
    rw (read_line, in_line.0)
      (read_line_lem room (got ++ (c ∷ [])) text rest ending in_line.1 (omega (arith, small))
        ∙ ap line (append_assoc got (c ∷ []) text))

module _ {W : Type 0} ⦃d : Real W⦄ where
  -- An open context, and an answer of fields between commas, none of them empty or with a comma, a
  -- newline or a 0 in it, with a newline behind fewer than 1024 bytes: `read_measurement` gives the number that
  -- the field of the given position spells, and -1 if there are fewer fields. What follows the newline
  -- makes no difference.
  pub read_measurement_lem :
      (ctx : Context W) (fields : List Text) (field : ℕ) (rest : Text) (ending : Ending)
      → All IsField fields
      → length (joined fields) < 1024
      → read_measurement (some ctx) field (joined fields ++ (10 ∷ rest)) ending
        ≡ some (parse_float_str (get_elem? fields field))
  unfolding read_measurement field_of field_in
  read_measurement_lem ctx fields field rest ending all small =
      rw
        (
          read_line_lem 1024 [] (joined fields) rest ending (joined-in_line fields all) small,
          c_string_lem (joined fields) (joined-in_string fields all),
          tokens-joined fields all,
        )
        refl
