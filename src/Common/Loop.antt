-- ===== src/Common/Loop.antt =====
-- `for (i = first; i < first + rounds; i++)` over a state, where a round may stop the program.
use Prim.Native.Nat.{ℕ, zero, suc, ◌+◌, ◌<◌}
use mathlib.Core.Path.{◌≡◌, refl}
use mathlib.Core.Option.{Option, some}
use native.Mathlib.Omega.{arith}
use lpowerprobe.Common.Tests.{◌>>=◌}

module _ {ℓ} {S : Type ℓ} where
  unfoldable pub for_range : ℕ → ℕ → (ℕ → S → Option S) → S → Option S
  for_range zero i body s = some s
  for_range (suc n) i body s = body i s >>= for_range n (i + 1) body

  -- A loop whose rounds all succeed and keep an invariant succeeds, and the invariant holds.
  pub for_range_inv {κ} :
      (P : ℕ → S → Type κ) (body : ℕ → S → Option S) (n i j : ℕ) (s : S)
      → ((k : ℕ) (t : S) → k < j → P k t → (t' : S) × (body k t ≡ some t') × P (k + 1) t')
      → i + n ≡ j
      → P i s
      → (s' : S) × (for_range n i body s ≡ some s') × P j s'
  unfolding for_range
  for_range_inv P body zero i j s keep e h = let e' : i ≡ j = omega arith in (s, refl, rw (← e') h)
  for_range_inv P body (suc n) i j s keep e h =
      let (t, ran, p) = keep i s (omega arith) h in
      rw ran (for_range_inv P body n (i + 1) j t keep (omega arith) p)
