-- ===== src/Common/Lists.antt =====
-- Lists measured and indexed by native numbers, under the library's names.
use Prim.Native.Nat.{ℕ, zero, suc, ◌+◌, ◌<◌, ◌≤◌}
use mathlib.Core.Path.{◌≡◌, refl, sym, ap}
use mathlib.Core.Logic.{◌≢◌, ◌⊎◌, inl, inr}
use mathlib.Core.List.{List, [], ◌∷◌, ◌++◌, map}
use mathlib.Core.Option.{Option, none, some}
use native.Mathlib.Decide.{ℕ_discrete}
use native.Mathlib.Numerals.{add-one}
use native.Mathlib.Omega.{arith}
use lpowerprobe.Common.Tests.{◌==◌, if◌then◌else◌}

module _ {ℓ} {A : Type ℓ} where
  abbrev pub length : List A → ℕ
  length [] = 0
  length (x ∷ xs) = suc (length xs)

  abbrev pub get_elem? : List A → ℕ → Option A
  get_elem? [] i = none
  get_elem? (x ∷ xs) zero = some x
  get_elem? (x ∷ xs) (suc i) = get_elem? xs i

  -- A write out of bounds changes nothing.
  abbrev pub set : List A → ℕ → A → List A
  set [] i v = []
  set (x ∷ xs) zero v = v ∷ xs
  set (x ∷ xs) (suc i) v = x ∷ set xs i v

  abbrev pub take : ℕ → List A → List A
  take zero xs = []
  take (suc n) [] = []
  take (suc n) (x ∷ xs) = x ∷ take n xs

  abbrev pub replicate : ℕ → A → List A
  replicate zero a = []
  replicate (suc n) a = a ∷ replicate n a

  abbrev pub All {κ} : (A → Type κ) → List A → Type κ
  All P [] = Unit
  All P (x ∷ xs) = P x × All P xs

module _ {ℓ} {A : Type ℓ} where
  pub length-append : (xs ys : List A) → length (xs ++ ys) ≡ length xs + length ys
  length-append [] ys = omega arith
  length-append (x ∷ xs) ys = omega (arith, length-append xs ys)

  pub length-set : (xs : List A) (i : ℕ) (v : A) → length (set xs i v) ≡ length xs
  length-set [] i v = refl
  length-set (x ∷ xs) zero v = refl
  length-set (x ∷ xs) (suc i) v = ap suc (length-set xs i v)

  pub length-replicate : (n : ℕ) (a : A) → length (replicate n a) ≡ n
  length-replicate zero a = refl
  length-replicate (suc n) a = ap suc (length-replicate n a)

  take-suc :
      (xs : List A) (i : ℕ) {x : A}
      → get_elem? xs i ≡ some x
      → take (suc i) xs ≡ take i xs ++ (x ∷ [])
  take-suc [] i h = absurd (cc)
  take-suc (y ∷ xs) zero h = cc
  take-suc (y ∷ xs) (suc i) h = ap (λ t. y ∷ t) (take-suc xs i h)

  pub take-add_one :
      (xs : List A) (i : ℕ) {x : A}
      → get_elem? xs i ≡ some x
      → take (i + 1) xs ≡ take i xs ++ (x ∷ [])
  take-add_one xs i h = rw add-one (take-suc xs i h)

  pub take_all : (xs : List A) (n : ℕ) → length xs ≡ n → take n xs ≡ xs
  take_all [] zero h = refl
  take_all [] (suc n) h = refl
  take_all (x ∷ xs) zero h = absurd (omega arith)
  take_all (x ∷ xs) (suc n) h = ap (λ t. x ∷ t) (take_all xs n (omega arith))

  pub length-map {κ} : {B : Type κ} (f : A → B) (xs : List A) → length (map f xs) ≡ length xs
  length-map f [] = refl
  length-map f (x ∷ xs) = ap suc (length-map f xs)

  pub get_elem?-map {κ} :
      {B : Type κ} (f : A → B) (xs : List A) (i : ℕ) {x : A}
      → get_elem? xs i ≡ some x
      → get_elem? (map f xs) i ≡ some (f x)
  get_elem?-map f [] i h = absurd (cc)
  get_elem?-map f (y ∷ xs) zero h = cc
  get_elem?-map f (y ∷ xs) (suc i) h = get_elem?-map f xs i h

  pub get_elem?_of_lt : (xs : List A) (i : ℕ) → i < length xs → (x : A) × (get_elem? xs i ≡ some x)
  get_elem?_of_lt [] i h = absurd (omega arith)
  get_elem?_of_lt (x ∷ xs) zero h = (x, refl)
  get_elem?_of_lt (x ∷ xs) (suc i) h = get_elem?_of_lt xs i (omega arith)

  pub lt_of_get_elem? : (xs : List A) (i : ℕ) {x : A} → get_elem? xs i ≡ some x → i < length xs
  lt_of_get_elem? [] i h = absurd (cc)
  lt_of_get_elem? (y ∷ xs) zero h = omega arith
  lt_of_get_elem? (y ∷ xs) (suc i) h = omega (arith, lt_of_get_elem? xs i h)

  pub get_elem?-ge : (xs : List A) (i : ℕ) → length xs ≤ i → get_elem? xs i ≡ none
  get_elem?-ge [] i h = refl
  get_elem?-ge (x ∷ xs) zero h = absurd (omega arith)
  get_elem?-ge (x ∷ xs) (suc i) h = get_elem?-ge xs i (omega arith)

  pub get_elem?-set_self :
      (xs : List A) (i : ℕ) (v : A) → i < length xs → get_elem? (set xs i v) i ≡ some v
  get_elem?-set_self [] i v h = absurd (omega arith)
  get_elem?-set_self (x ∷ xs) zero v h = refl
  get_elem?-set_self (x ∷ xs) (suc i) v h = get_elem?-set_self xs i v (omega arith)

  pub get_elem?-set_ne :
      (xs : List A) (i j : ℕ) (v : A) → i ≢ j → get_elem? (set xs i v) j ≡ get_elem? xs j
  get_elem?-set_ne [] i j v h = refl
  get_elem?-set_ne (x ∷ xs) zero zero v h = absurd (h refl)
  get_elem?-set_ne (x ∷ xs) zero (suc j) v h = refl
  get_elem?-set_ne (x ∷ xs) (suc i) zero v h = refl
  get_elem?-set_ne (x ∷ xs) (suc i) (suc j) v h = get_elem?-set_ne xs i j v (λ e. h (ap suc e))

  pub get_elem?-set :
      (xs : List A) (i j : ℕ) (v : A)
      → i < length xs
      → get_elem? (set xs i v) j ≡ (if j == i then some v else get_elem? xs j)
  get_elem?-set [] i j v h = absurd (omega arith)
  get_elem?-set (x ∷ xs) zero zero v h = refl
  get_elem?-set (x ∷ xs) zero (suc j) v h = ground arith
  get_elem?-set (x ∷ xs) (suc i) zero v h = ground arith
  get_elem?-set (x ∷ xs) (suc i) (suc j) v h = ground (arith, get_elem?-set xs i j v (omega arith))

  -- What stands in a list after a write.
  pub get_elem?-set_cases :
      (xs : List A) (i j : ℕ) (v : A) {x : A}
      → i < length xs
      → get_elem? (set xs i v) j ≡ some x
      → ((j ≡ i) × (x ≡ v)) ⊎ ((j ≢ i) × (get_elem? xs j ≡ some x))
  get_elem?-set_cases xs i j v h e = elim (ℕ_discrete j i) [
    | yes same ↦ inl (same, cc (ap (get_elem? (set xs i v)) same, get_elem?-set_self xs i v h))
    | no other ↦ inr (other, cc (get_elem?-set_ne xs i j v (λ k. other (sym k))))
  ]

  pub get_elem?-replicate : (n i : ℕ) (a : A) → i < n → get_elem? (replicate n a) i ≡ some a
  get_elem?-replicate zero i a h = absurd (omega arith)
  get_elem?-replicate (suc n) zero a h = refl
  get_elem?-replicate (suc n) (suc i) a h = get_elem?-replicate n i a (omega arith)

  pub get_elem?-append_left :
      (xs ys : List A) (i : ℕ) → i < length xs → get_elem? (xs ++ ys) i ≡ get_elem? xs i
  get_elem?-append_left [] ys i h = absurd (omega arith)
  get_elem?-append_left (x ∷ xs) ys zero h = refl
  get_elem?-append_left (x ∷ xs) ys (suc i) h = get_elem?-append_left xs ys i (omega arith)

  pub All-get_elem? {κ} :
      (P : A → Type κ) (xs : List A) (i : ℕ) {x : A} → All P xs → get_elem? xs i ≡ some x → P x
  All-get_elem? P [] i a h = absurd (cc)
  All-get_elem? P (y ∷ xs) zero {x} a h = rw (← (some_inj y x h)) a.0
    where
      some_inj : (u v : A) → ◌≡◌ {A = Option A} (some u) (some v) → u ≡ v
      some_inj u v e = cc
  All-get_elem? P (y ∷ xs) (suc i) a h = All-get_elem? P xs i a.1 h

  pub All-set {κ} :
      (P : A → Type κ) (xs : List A) (i : ℕ) (v : A) → All P xs → P v → All P (set xs i v)
  All-set P [] i v a p = tt
  All-set P (x ∷ xs) zero v a p = (p, a.1)
  All-set P (x ∷ xs) (suc i) v a p = (a.0, All-set P xs i v a.1 p)

  pub All-replicate {κ} : (P : A → Type κ) (n : ℕ) (a : A) → P a → All P (replicate n a)
  All-replicate P zero a p = tt
  All-replicate P (suc n) a p = (p, All-replicate P n a p)

  pub All-append {κ} : (P : A → Type κ) (xs ys : List A) → All P xs → All P ys → All P (xs ++ ys)
  All-append P [] ys hx hy = hy
  All-append P (x ∷ xs) ys hx hy = (hx.0, All-append P xs ys hx.1 hy)

  pub All-of-append {κ} : (P : A → Type κ) (xs ys : List A) → All P (xs ++ ys) → All P xs × All P ys
  All-of-append P [] ys h = (tt, h)
  All-of-append P (x ∷ xs) ys h =
      let (left, right) = All-of-append P xs ys h.1 in ((h.0, left), right)

  pub All-imp {κ μ} :
      (P : A → Type κ) (Q : A → Type μ) (xs : List A) → ((x : A) → P x → Q x) → All P xs → All Q xs
  All-imp P Q [] f h = tt
  All-imp P Q (x ∷ xs) f h = (f x h.0, All-imp P Q xs f h.1)

  -- What stands in a list with one more element at its end.
  pub get_elem?-snoc_cases :
      (xs : List A) (v : A) (i : ℕ) {x : A}
      → get_elem? (xs ++ (v ∷ [])) i ≡ some x
      → ((i ≡ length xs) × (x ≡ v)) ⊎ (get_elem? xs i ≡ some x)
  get_elem?-snoc_cases [] v zero e = inl (refl, cc)
  get_elem?-snoc_cases [] v (suc i) e = absurd (cc)
  get_elem?-snoc_cases (y ∷ xs) v zero e = inr e
  get_elem?-snoc_cases (y ∷ xs) v (suc i) e = elim (get_elem?-snoc_cases xs v i e) [
    | inl (last, is) ↦ inl (ap suc last, is)
    | inr before ↦ inr before
  ]
