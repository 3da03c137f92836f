-- ===== src/Common/Weight.antt =====
-- Elements of a list counted by a weight.
use lpowerprobe.Common.{
  ℕ, zero, suc, ◌+◌, ◌*◌, ◌≤◌, ◌<◌, ◌≡◌, refl, ap, some, List, [], ◌∷◌, length, get_elem?, set,
  replicate, All, arith,
}

module _ {ℓ} {A : Type ℓ} (w : A → ℕ) where
  abbrev pub weight : List A → ℕ
  weight [] = 0
  weight (x ∷ xs) = w x + weight xs

  pub weight-set :
      (xs : List A) (k : ℕ) (x' : A) {x : A}
      → get_elem? xs k ≡ some x
      → weight (set xs k x') + w x ≡ weight xs + w x'
  weight-set [] k x' at = absurd (cc)
  weight-set (y ∷ xs) zero x' {x} at = let same : y ≡ x = cc in omega (arith, ap w same)
  weight-set (y ∷ xs) (suc k) x' at = omega (arith, weight-set xs k x' at)

  pub weight-le : (xs : List A) → ((x : A) → w x ≤ 1) → weight xs ≤ length xs
  weight-le [] small = omega arith
  weight-le (x ∷ xs) small = omega (arith, small x, weight-le xs small)

  pub weight-le-length : (xs : List A) (n : ℕ) → All (λ x. w x ≤ n) xs → weight xs ≤ length xs * n
  weight-le-length [] n small = omega arith
  weight-le-length (x ∷ xs) n small = omega (arith, small.0, weight-le-length xs n small.1)

  pub elem-le-weight : (xs : List A) (k : ℕ) {x : A} → get_elem? xs k ≡ some x → w x ≤ weight xs
  elem-le-weight [] k at = absurd (cc)
  elem-le-weight (y ∷ xs) zero {x} at = let same : y ≡ x = cc in omega (arith, ap w same)
  elem-le-weight (y ∷ xs) (suc k) at = omega (arith, elem-le-weight xs k at)

  -- An element leaves room for the others only.
  pub weight-slack :
      (xs : List A) (k : ℕ) {x : A}
      → ((y : A) → w y ≤ 1)
      → get_elem? xs k ≡ some x
      → weight xs + 1 ≤ length xs + w x
  weight-slack [] k small at = absurd (cc)
  weight-slack (y ∷ xs) zero {x} small at =
      let same : y ≡ x = cc in omega (arith, ap w same, weight-le xs small)
  weight-slack (y ∷ xs) (suc k) small at = omega (arith, weight-slack xs k small at, small y)

  pub weight-replicate : (n : ℕ) (x : A) → w x ≡ 0 → weight (replicate n x) ≡ 0
  weight-replicate zero x h = refl
  weight-replicate (suc n) x h = omega (arith, weight-replicate n x h)

  -- When fewer are counted than there are, one is not.
  pub not_counted :
      (xs : List A)
      → ((x : A) → w x ≤ 1)
      → weight xs < length xs
      → (k : ℕ) × (x : A) × (get_elem? xs k ≡ some x) × (w x ≡ 0)
  not_counted [] small few = absurd (omega (arith, few))
  not_counted (x ∷ xs) small few = here (w x) refl (λ h. not_counted xs small h)
    where
      here :
          (n : ℕ)
          → w x ≡ n
          → (weight xs < length xs → (k : ℕ) × (y : A) × (get_elem? xs k ≡ some y) × (w y ≡ 0))
          → (k : ℕ) × (y : A) × (get_elem? (x ∷ xs) k ≡ some y) × (w y ≡ 0)
      here zero is rest = (0, x, refl, is)
      here (suc n) is rest =
          let (k, y, at, free) = rest (omega (arith, few, is, small x)) in (suc k, y, at, free)
