-- ===== src/Text/Words.antt =====
-- Texts that are put together of words give these words again.
use mathlib.Core.List.{append_assoc, append-nil}
use lpowerprobe.Common.{
  ◌≡◌, ◌≢◌, refl, ◌∙◌, ap, false, List, [], ◌∷◌, ◌++◌, All, arith, if◌then◌else◌, ◌==◌, ◌||◌,
}
use lpowerprobe.Text.{Text, is_space, semicolon, open_up, ended, words_from, words}

-- A path that can be named in a list: not empty, without a space or a semicolon.
pub record IsWord (word : Text) : Type 0 where
  pub nonempty : word ≢ []
  pub solid : All (λ c. ((is_space c) || (c == semicolon)) ≡ false) word

-- The words with a semicolon after each.
abbrev pub joined : List Text → Text
joined [] = []
joined (word ∷ ws) = word ++ (semicolon ∷ joined ws)

open_up-append : (xs ys : Text) → open_up (xs ++ ys) ≡ open_up xs ++ open_up ys
unfolding open_up
open_up-append [] ys = refl
open_up-append (c ∷ xs) ys = ap (λ t. (if c == semicolon then 32 else c) ∷ t) (open_up-append xs ys)

open_up_solid :
    (word : Text) → All (λ c. ((is_space c) || (c == semicolon)) ≡ false) word → open_up word ≡ word
unfolding open_up
open_up_solid [] solid = refl
open_up_solid (c ∷ word) solid =
    let kept : (c == semicolon) ≡ false = ground arith in rw (kept, open_up_solid word solid.1)

words_from-solid :
    (before word rest : Text)
    → All (λ c. ((is_space c) || (c == semicolon)) ≡ false) word
    → words_from before (word ++ rest) ≡ words_from (before ++ word) rest
unfolding words_from
words_from-solid before [] rest solid = rw append-nil
words_from-solid before (c ∷ word) rest solid =
    let inside : is_space c ≡ false = ground arith in
    rw (words_from, inside)
      (words_from-solid (before ++ (c ∷ [])) word rest solid.1
        ∙ ap (λ w. words_from w rest) (append_assoc before (c ∷ []) word))

ended-nonempty : (word : Text) → word ≢ [] → ended word ≡ word ∷ []
ended-nonempty [] h = absurd (h refl)
ended-nonempty (c ∷ word) h = refl

pub open_up-word :
    (word : Text) (text : Text)
    → All (λ c. (is_space c || (c == semicolon)) ≡ false) word
    → open_up (word ++ (semicolon ∷ text)) ≡ word ++ (32 ∷ open_up text)
unfolding open_up
open_up-word word text solid =
    open_up-append word (semicolon ∷ text)
    ∙ ap (λ t. t ++ (32 ∷ open_up text)) (open_up_solid word solid)

-- The semicolons of a list of words are read as spaces, and the words come back in order.
pub words-joined : (ws : List Text) → All IsWord ws → words (open_up (joined ws)) ≡ ws
unfolding words words_from open_up
words-joined [] solid = refl
words-joined (word ∷ ws) solid = rw (open_up-word word (joined ws) solid.0.solid) (
    words_from-solid [] word (32 ∷ open_up (joined ws)) solid.0.solid
    ∙ rw (ended-nonempty word solid.0.nonempty) (ap (λ t. word ∷ t) (words-joined ws solid.1)))
