-- ===== src/Collector/Gcd.antt =====
-- `gcd` is the greatest common divisor.
use Prim.Native.Nat.{◌∣◌}
use mathlib.Core.WellFounded.{Acc}
use mathlib.Core.Logic.{dif_pos}
use native.Mathlib.Bridge.{le_prop}
use native.Mathlib.Nat.{dvd_refl, dvd-mod_iff, dvd_of_mod-eq-zero}
use lpowerprobe.Common.{
  ℕ, ◌%◌, ◌<◌, ◌≡◌, inl, inr, some, dec_lt, arith, Bool-cases, ==_iff, ◌==◌, ltb,
}
use lpowerprobe.Common.Order.{lt_wf}
use lpowerprobe.Collector.{gcd, gcd_acc, larger, smaller_of, smaller_of-lt}

pub record IsGcd (a b g : ℕ) : Type 0 where
  pub positive : 0 < g
  pub left : g ∣ a
  pub right : g ∣ b
  pub greatest : (e : ℕ) → e ∣ a → e ∣ b → e ∣ g

IsGcd-step : (a b g : ℕ) → IsGcd b (a % b) g → IsGcd a b g
IsGcd-step a b g i = record {
  positive = i.positive;
  left = (dvd-mod_iff g i.left).0 i.right;
  right = i.left;
  greatest = λ e ea eb. i.greatest e eb ((dvd-mod_iff e eb).1 ea);
}

IsGcd-swap : (a b g : ℕ) → IsGcd a b g → IsGcd b a g
IsGcd-swap a b g i = record {
  positive = i.positive;
  left = i.right;
  right = i.left;
  greatest = λ e eb ea. i.greatest e ea eb;
}

IsGcd-ordered : (a b g : ℕ) → IsGcd (larger a b) (smaller_of a b) g → IsGcd a b g
IsGcd-ordered a b g i = elim (Bool-cases (ltb a b)) [
  | inl swapped ↦ IsGcd-swap b a g (rw swapped at i)
  | inr kept ↦ rw kept at i
]

gcd_acc_lem : (a b : ℕ) (w : Acc ◌<◌ b) → 0 < b → (g : ℕ) × (gcd_acc a b w ≡ some g) × IsGcd a b g
unfolding gcd_acc
gcd_acc_lem a b (Acc.intro _ smaller) h = elim (Bool-cases (a % b == 0)) [
  | inl last ↦ (
    b,
    rw (dif_pos (dec_lt 0 b) le_prop h) (rw last),
    record {
      positive = h;
      left = dvd_of_mod-eq-zero b (omega (arith, (==_iff (a % b) 0).0 last));
      right = dvd_refl b;
      greatest = λ e ea eb. eb;
    },
  )
  | inr more ↦
      let (g, e, i) =
        gcd_acc_lem (larger b (a % b)) (smaller_of b (a % b))
          (smaller (smaller_of b (a % b)) (smaller_of-lt a b h)) (ground arith) in
      (
        g,
        rw (dif_pos (dec_lt 0 b) le_prop h) (rw more e),
        IsGcd-step a b g (IsGcd-ordered b (a % b) g i),
      )
]

-- On two positive numbers, in either order, `gcd` returns their greatest common divisor.
pub gcd_lem : (a b : ℕ) → 0 < a → 0 < b → (g : ℕ) × (gcd a b ≡ some g) × IsGcd a b g
unfolding gcd
gcd_lem a b ha hb =
    let (g, e, i) =
      gcd_acc_lem (larger a b) (smaller_of a b) (lt_wf.apply (smaller_of a b)) (ground arith) in
    (g, e, IsGcd-ordered a b g i)
