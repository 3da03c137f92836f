-- ===== src/Text/Numbers.antt =====
-- The extraction of an unsigned number from a std::istringstream, as src/Options.cpp and
-- src/StringUtils.hpp use it.
pub mod Laws
use lpowerprobe.Common.{
  ℕ, zero, suc, ◌+◌, ◌-◌, ◌*◌, ◌%◌, ◌^◌, Bool, true, false, ◌&&◌, ◌||◌, Option, none, some, List,
  [], ◌∷◌, leb, ltb, ◌==◌, if◌then◌else◌, length,
}
use lpowerprobe.Text.{Text, is_empty, is_space}

unfoldable pub skip_spaces : Text → Text
skip_spaces [] = []
skip_spaces (c ∷ text) = elim (is_space c) [ true ↦ skip_spaces text | false ↦ c ∷ text ]

abbrev pub is_digit : ℕ → Bool
is_digit c = leb 48 c && ltb c 58

-- The number whose digits follow those of `read`, and the text behind it.
unfoldable pub digits_from : ℕ → Text → ℕ × Text
digits_from read [] = (read, [])
digits_from read (c ∷ text) = elim (is_digit c) [
  | true ↦ digits_from (read * 10 + (c - 48)) text
  | false ↦ (read, c ∷ text)
]

-- A number that does not fit fails; one behind a minus is taken modulo 2^width.
abbrev pub fitting : ℕ → Bool → ℕ → Option ℕ
fitting width negative n =
    if ltb n (2 ^ width) then some (if negative then (2 ^ width - n) % 2 ^ width else n) else none

-- After the sign. Without a digit nothing more is read.
unfoldable pub unsigned_at : ℕ → Bool → Text → Option ℕ × Text
unfolding digits_from
unsigned_at width negative [] = (none, [])
unsigned_at width negative (c ∷ text) =
    let (n, behind) = digits_from 0 (c ∷ text) in
    elim (is_digit c) [ true ↦ (fitting width negative n, behind) | false ↦ (none, c ∷ text) ]

unfoldable pub signed_at : ℕ → Text → Option ℕ × Text
unfolding unsigned_at
signed_at width [] = (none, [])
signed_at width (c ∷ text) =
    if c == 45
    then unsigned_at width true text
    else if c == 43
    then unsigned_at width false text
    else unsigned_at width false (c ∷ text)

-- `iss >> n`: the number, or none when it fails, and what is left of the stream.
unfoldable pub extract : ℕ → Text → Option ℕ × Text
unfolding skip_spaces signed_at
extract width text = signed_at width (skip_spaces text)

-- `StringUtils::from_string`.
unfoldable pub from_string : ℕ → Text → Option ℕ
unfolding extract
from_string width text = (extract width text).0

-- `while (iss >> n)`, with the numbers and whether the stream then is at its end. Each round but the
-- last reads a byte, so there are at most as many rounds as bytes, and one.
unfoldable pub numbers : ℕ → ℕ → Text → List ℕ × Bool
unfolding extract
numbers width zero text = ([], is_empty text)
numbers width (suc fuel) text =
    let (found, left) = extract width text in
    elim found [
      | none ↦ ([], is_empty left)
      | some n ↦ let (ns, ended) = numbers width fuel left in (n ∷ ns, ended)
    ]
