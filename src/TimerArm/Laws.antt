-- ===== src/TimerArm/Laws.antt =====
-- The barrier of probes/libtimerarm/barrier.c, and the sum of cycles in measureThread.
use mathlib.Core.Path.{subst}
use lpowerprobe.Common.{
  ℕ, ◌+◌, ◌-◌, ◌/◌, ◌%◌, ◌^◌, ◌≤◌, ◌<◌, ◌≡◌, refl, ◌∙◌, sym, ap, Bool, true, false, not, some, List,
  [], ◌∷◌, map, length, get_elem?, set, All, All-set, All-get_elem?, All-replicate, length-set,
  length-map, length-replicate, arith, ltb, ℕ_discrete, ◌==◌, ==_iff, Bool-cases, Option-cases, inl,
  inr, if◌then◌else◌, some_injective,
}
use lpowerprobe.Common.Weight.{weight, weight-set, weight-le, weight-replicate, not_counted}
use lpowerprobe.TimerArm.{
  Thread, State, barrier_create, initial, woken, barrier_wait, Steps, rest, then_step, then_wake,
}

abbrev bit : Bool → ℕ
bit true = 1
bit false = 0

abbrev waits : Thread → ℕ
waits t = bit t.waiting

bit-le_one : (b : Bool) → bit b ≤ 1
bit-le_one true = omega arith
bit-le_one false = omega arith

-- The barrier counts the threads that wait, and these are not all.
record Inv (n : ℕ) (s : State) : Type 0 where
  round : ℕ
  size : length s.threads ≡ n
  to_wait : s.barrier.nb_to_wait ≡ n
  counts : s.barrier.count ≡ weight waits s.threads
  few : s.barrier.count < n
  in_step : All (λ t. t.passed ≡ round) s.threads

-- When all threads wait, each of them is woken.
woken-All :
    (r : ℕ) (ts : List Thread)
    → All (λ t. t.passed ≡ r) ts
    → weight waits ts ≡ length ts
    → All (λ t. t.passed ≡ r + 1) (map woken ts) × (weight waits (map woken ts) ≡ 0)
woken-All r [] all full = (tt, refl)
woken-All r (t ∷ ts) all full =
    let le = weight-le waits ts (λ u. bit-le_one u.waiting) in
    let rest = woken-All r ts all.1 (omega (arith, full, le, bit-le_one t.waiting)) in
    elim (Bool-cases t.waiting) [
      | inl inside ↦ rw inside ((omega (arith, all.0), rest.0), omega (arith, rest.1))
      | inr outside ↦ absurd (omega (arith, full, le, ap bit outside))
    ]

module _ (n k : ℕ) (small : n < 2 ^ 32) (s : State) (inv : Inv n s) (t : Thread)
    (at : get_elem? s.threads k ≡ some t) (outside : t.waiting ≡ false) where
  abbrev inside : List Thread
  inside = set s.threads k (record { passed = t.passed; waiting = true })

  weight-inside : weight waits inside ≡ s.barrier.count + 1
  weight-inside = omega (
    arith,
    weight-set waits s.threads k (record { passed = t.passed; waiting = true }) at,
    ap bit outside,
    inv.counts,
  )

  inside-All : All (λ u. u.passed ≡ inv.round) inside
  inside-All =
      All-set _ s.threads k _ inv.in_step
        (All-get_elem? (λ u. u.passed ≡ inv.round) s.threads k inv.in_step at)

  size_inside : length inside ≡ n
  size_inside = length-set s.threads k _ ∙ inv.size

  whole : (s.barrier.count + 1) % 2 ^ 32 ≡ s.barrier.count + 1
  whole = omega (arith, inv.few, small)

  -- The thread waits, or it comes through with all others.
  wait_lem : (s' : State) × (barrier_wait k s ≡ some s') × Inv n s'
  unfolding barrier_wait
  wait_lem = elim (Bool-cases ((s.barrier.count + 1) % 2 ^ 32 == s.barrier.nb_to_wait)) [
    | inl last ↦
        let full : s.barrier.count + 1 ≡ n =
          sym whole
          ∙ (==_iff ((s.barrier.count + 1) % 2 ^ 32) s.barrier.nb_to_wait).0 last
          ∙ inv.to_wait in
        let (all, none_wait) =
          woken-All inv.round inside inside-All (weight-inside ∙ full ∙ sym size_inside) in
        (
          record { barrier = record s.barrier { count = 0 }; threads = map woken inside },
          rw (at, outside, last) refl,
          record {
            round = inv.round + 1;
            size = length-map woken inside ∙ size_inside;
            to_wait = inv.to_wait;
            counts = sym none_wait;
            few = omega (arith, full);
            in_step = all;
          },
        )
    | inr more ↦ (
      record {
        barrier = record s.barrier { count = (s.barrier.count + 1) % 2 ^ 32 };
        threads = inside;
      },
      rw (at, outside, more) refl,
      record {
        round = inv.round;
        size = size_inside;
        to_wait = inv.to_wait;
        counts = whole ∙ sym weight-inside;
        few = not_last more;
        in_step = inside-All;
      },
    )
  ]
    where
      not_last :
          ((s.barrier.count + 1) % 2 ^ 32 == s.barrier.nb_to_wait) ≡ false
          → (s.barrier.count + 1) % 2 ^ 32 < n
      not_last more = elim (ℕ_discrete ((s.barrier.count + 1) % 2 ^ 32) s.barrier.nb_to_wait) [
        | yes e ↦
            absurd (cc ((==_iff ((s.barrier.count + 1) % 2 ^ 32) s.barrier.nb_to_wait).1 e, more))
        | no other ↦ omega (arith, whole, inv.few, inv.to_wait, other)
      ]

module _ (n : ℕ) (some_thread : 0 < n) (small : n < 2 ^ 32) where
  initial-Inv : Inv n (initial n)
  unfolding initial barrier_create
  initial-Inv = record {
    round = 0;
    size = length-replicate n _;
    to_wait = refl;
    counts = sym (weight-replicate waits n _ refl);
    few = some_thread;
    in_step = All-replicate _ n _ refl;
  }

  step_keeps : (k : ℕ) (s : State) {s' : State} → Inv n s → barrier_wait k s ≡ some s' → Inv n s'
  unfolding barrier_wait
  step_keeps k s inv ran = elim (Option-cases (get_elem? s.threads k)) [
    | inl missing ↦ absurd (cc (rw missing at ran))
    | inr (t, at) ↦ elim (Bool-cases t.waiting) [
      | inl inside ↦ absurd (cc (rw (at, inside) at ran))
      | inr outside ↦
          let (s', ran', inv') = wait_lem n k small s inv t at outside in
          let is : s' ≡ _ = some_injective (sym ran' ∙ ran) in subst (Inv n) is inv'
    ]
  ]

  Steps-keep : {s : State} → Steps false (initial n) s → Inv n s
  Steps-keep reached = go reached refl
    where
      go : {first s : State} → Steps false first s → first ≡ initial n → Inv n s
      go rest is = rw is initial-Inv
      go (then_step {s' = mid} k before ran) is = step_keeps k mid (go before is) ran
      go (then_wake k allowed before ran) is = absurd (cc)

  -- In every reachable state of `n` threads, at least one and fewer than 2^32, whatever the order in which
  -- they call `barrier_wait`, as long as `pthread_cond_wait` has no spurious wake-up: all have come through the barrier equally often, and some thread does not
  -- wait and can call it.
  pub barrier_lem :
      {s : State}
      → Steps false (initial n) s
      → ((k j : ℕ) (t u : Thread)
          → get_elem? s.threads k ≡ some t
          → get_elem? s.threads j ≡ some u
          → t.passed ≡ u.passed)
        × ((k : ℕ) × (s' : State) × (barrier_wait k s ≡ some s'))
  barrier_lem {s} reached =
      let inv = Steps-keep reached in
      let (k, t, at, rests) =
        not_counted waits s.threads (λ u. bit-le_one u.waiting)
          (omega (arith, inv.few, inv.counts, inv.size)) in
      let (s', ran, _) = wait_lem n k small s inv t at (free t.waiting rests) in
      (
        λ i j t u at at'.
            All-get_elem? (λ t. t.passed ≡ inv.round) s.threads i inv.in_step at
            ∙ sym (All-get_elem? (λ t. t.passed ≡ inv.round) s.threads j inv.in_step at'),
        (k, s', ran),
      )
    where
      free : (b : Bool) → bit b ≡ 0 → b ≡ false
      free true rests = absurd (omega (arith, rests))
      free false rests = refl

-- What the counter shows of a number of cycles below 2^33 since it was reset.
abbrev pub shown_of : ℕ → Bool × ℕ
shown_of cycles = (not (ltb cycles (2 ^ 32)), cycles % 2 ^ 32)

abbrev pub sum : List ℕ → ℕ
sum [] = 0
sum (x ∷ xs) = x + sum xs

abbrev pub overflows : List ℕ → ℕ
overflows [] = 0
overflows (x ∷ xs) = x / 2 ^ 32 + overflows xs

-- What an overflow before the measurement adds, where the first round does not overflow itself: UINT_MAX.
abbrev pub left_over : Bool → ℕ → ℕ
left_over false c = 0
left_over true c = if ltb c (2 ^ 32) then 2 ^ 32 - 1 else 0
