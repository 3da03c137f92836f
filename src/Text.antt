-- ===== src/Text.antt =====
-- What src/Options.cpp does with std::string and std::istringstream. A text is its list of bytes.
pub mod Words
pub mod Numbers
pub mod Tokens
use lpowerprobe.Common.{
  ℕ, zero, suc, ◌+◌, ◌-◌, Bool, true, false, ◌||◌, ◌&&◌, Option, none, some, List, [], ◌∷◌, ◌++◌,
  map, leb, ltb, ◌==◌, if◌then◌else◌, take,
}

abbrev pub Text : Type 0
Text = List ℕ

abbrev pub is_empty : Text → Bool
is_empty [] = true
is_empty (c ∷ text) = false

-- `strcmp` gives 0.
abbrev pub same_text : Text → Text → Bool
same_text [] [] = true
same_text [] (d ∷ ys) = false
same_text (c ∷ xs) [] = false
same_text (c ∷ xs) (d ∷ ys) = (c == d) && same_text xs ys

abbrev pub slash : ℕ
slash = 47

-- `/` or `\`.
abbrev pub is_slash : ℕ → Bool
is_slash c = (c == 47) || (c == 92)

-- `std::isspace` in the C locale.
abbrev pub is_space : ℕ → Bool
is_space c = (c == 32) || (leb 9 c && ltb c 14)

abbrev pub semicolon : ℕ
semicolon = 59

-- The loop over `find(';', index)`, which puts a space for every semicolon.
unfoldable pub open_up : Text → Text
open_up [] = []
open_up (c ∷ text) = (if c == semicolon then 32 else c) ∷ open_up text

-- `text.find_last_of("/\\")`.
unfoldable pub find_last_slash : Text → Option ℕ
find_last_slash [] = none
find_last_slash (c ∷ text) = elim (find_last_slash text) [
  | some i ↦ some (suc i)
  | none ↦ if is_slash c then some 0 else none
]

-- A token that has ended, if it is one.
abbrev pub ended : Text → List Text
ended [] = []
ended (c ∷ word) = (c ∷ word) ∷ []

-- The tokens that `while (iss >> token)` reads, after the bytes of `word`.
unfoldable pub words_from : Text → Text → List Text
words_from word [] = ended word
words_from word (c ∷ text) = elim (is_space c) [
  | true ↦ ended word ++ words_from [] text
  | false ↦ words_from (word ++ (c ∷ [])) text
]

unfoldable pub words : Text → List Text
unfolding words_from
words text = words_from [] text
