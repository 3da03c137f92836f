-- ===== src/Text/Tokens.antt =====
-- `strtok_r` over a text, as probes/pfmcounters/pfmcounters.c and probes/libenergyyoko/yokosrv.c call it.
use lpowerprobe.Common.{
  ℕ, suc, ◌+◌, ◌≤◌, ◌≡◌, ◌≢◌, refl, sym, ap, ◌↔◌, true, false, List, [], ◌∷◌, ◌++◌, length, All,
  arith, ◌==◌, Bool-cases, inl, inr,
}
use lpowerprobe.Text.{Text, ended}

-- The tokens behind the bytes of `word`: a token is never empty.
unfoldable pub tokens_from : ℕ → Text → Text → List Text
tokens_from delimiter word [] = ended word
tokens_from delimiter word (c ∷ text) = elim (c == delimiter) [
  | true ↦ ended word ++ tokens_from delimiter [] text
  | false ↦ tokens_from delimiter (word ++ (c ∷ [])) text
]

unfoldable pub tokens : ℕ → Text → List Text
unfolding tokens_from
tokens delimiter text = tokens_from delimiter [] text

-- How often a byte is in a text.
unfoldable pub count : ℕ → Text → ℕ
count delimiter [] = 0
count delimiter (c ∷ text) = elim (c == delimiter) [
  | true ↦ suc (count delimiter text)
  | false ↦ count delimiter text
]

-- What stands between the delimiters, empty or not, behind the bytes of `word`.
abbrev pub pieces_from : ℕ → Text → Text → List Text
pieces_from delimiter word [] = word ∷ []
pieces_from delimiter word (c ∷ text) = elim (c == delimiter) [
  | true ↦ word ∷ pieces_from delimiter [] text
  | false ↦ pieces_from delimiter (word ++ (c ∷ [])) text
]

abbrev pub pieces : ℕ → Text → List Text
pieces delimiter text = pieces_from delimiter [] text

abbrev pub nonempty_of : List Text → List Text
nonempty_of [] = []
nonempty_of (piece ∷ rest) = ended piece ++ nonempty_of rest

length-ended : (word : Text) → length (ended word) ≤ 1
length-ended [] = omega arith
length-ended (c ∷ word) = omega arith

append-nil_of : (word : Text) → ended word ++ [] ≡ ended word
append-nil_of [] = refl
append-nil_of (c ∷ word) = refl

-- The tokens are the pieces that are not empty.
pub tokens_from-pieces :
    (delimiter : ℕ) (word text : Text)
    → tokens_from delimiter word text ≡ nonempty_of (pieces_from delimiter word text)
unfolding tokens_from
tokens_from-pieces delimiter word [] = sym (append-nil_of word)
tokens_from-pieces delimiter word (c ∷ text) = elim (Bool-cases (c == delimiter)) [
  | inl ends ↦
      rw (tokens_from, pieces_from, ends)
        (ap (λ ts. ended word ++ ts) (tokens_from-pieces delimiter [] text))
  | inr goes ↦
      rw (tokens_from, pieces_from, goes) (tokens_from-pieces delimiter (word ++ (c ∷ [])) text)
]

pub length-pieces_from :
    (delimiter : ℕ) (word text : Text)
    → length (pieces_from delimiter word text) ≡ count delimiter text + 1
unfolding count
length-pieces_from delimiter word [] = refl
length-pieces_from delimiter word (c ∷ text) = elim (Bool-cases (c == delimiter)) [
  | inl ends ↦ rw (count, pieces_from, ends) (omega (arith, length-pieces_from delimiter [] text))
  | inr goes ↦ rw (count, pieces_from, goes) (length-pieces_from delimiter (word ++ (c ∷ [])) text)
]

pub length-nonempty_of-le : (ps : List Text) → length (nonempty_of ps) ≤ length ps
length-nonempty_of-le [] = omega arith
length-nonempty_of-le ([] ∷ ps) = omega (arith, length-nonempty_of-le ps)
length-nonempty_of-le ((c ∷ p) ∷ ps) = omega (arith, length-nonempty_of-le ps)

-- Every piece is a token exactly if none is empty.
pub length-nonempty_of_iff :
    (ps : List Text) → (length (nonempty_of ps) ≡ length ps) ↔ All (λ p. p ≢ []) ps
length-nonempty_of_iff ps = (all_full ps, counted ps)
  where
    all_full : (ps : List Text) → length (nonempty_of ps) ≡ length ps → All (λ p. p ≢ []) ps
    all_full [] same = tt
    all_full ([] ∷ ps) same = absurd (omega (arith, same, length-nonempty_of-le ps))
    all_full ((c ∷ p) ∷ ps) same = (λ e. cc, all_full ps (omega (arith, same)))

    counted : (ps : List Text) → All (λ p. p ≢ []) ps → length (nonempty_of ps) ≡ length ps
    counted [] full = refl
    counted ([] ∷ ps) full = absurd (full.0 refl)
    counted ((c ∷ p) ∷ ps) full = omega (arith, counted ps full.1)
