-- ===== src/ProgramRunner/Moving.antt =====
-- Steps that are possible: of one thread, of the leader and of its child.
use lpowerprobe.Common.{
  ℕ, zero, suc, ◌+◌, ◌≤◌, ◌<◌, ◌≡◌, ◌≢◌, refl, true, some, List, [], ◌∷◌, get_elem?, All, arith,
  ◌⊎◌, inl, inr, ◌>>=◌,
}
use lpowerprobe.KernelRunner.{sem_wait, evaluations}
use lpowerprobe.ProgramRunner.{
  is_alive, Phase, before_fork, before_post, at_process_lock, in_program, ended, at_end_lock,
  finished, crashed, Leader, beginning, waiting, through, exited, collecting, releasing, gathering,
  ending, State, other_move, other_step, own_move, own_step, wait_own, leader_move, leader_step,
  Step, by_other, by_own, by_leader,
}
use lpowerprobe.ProgramRunner.Invariant.{post_at, may_at, end_at, Early, Mid}

pub data CanStep (nb_meta_repet others : ℕ) (s : State) : Type 0 where
  steps : (s' : State) → Step nb_meta_repet others s s' → CanStep nb_meta_repet others s

-- A semaphore that is not 0 can be taken.
pub taken :
    (n : ℕ) (f : ℕ → State)
    → 0 < n
    → (s' : State) × ((sem_wait n >>= (λ rest. some (f rest))) ≡ some s')
taken zero f pos = absurd (omega (arith, pos))
taken (suc n) f pos = (f n, refl)

is_alive-true : (leader : Leader) → leader ≢ exited → is_alive leader ≡ true
is_alive-true beginning alive = refl
is_alive-true (collecting i) alive = refl
is_alive-true (releasing i) alive = refl
is_alive-true waiting alive = refl
is_alive-true (gathering i) alive = refl
is_alive-true (ending i) alive = refl
is_alive-true through alive = refl
is_alive-true exited alive = absurd (alive refl)

module _ (nb_meta_repet m k : ℕ) (s : State) (alive : s.leader ≢ exited) where
  abbrev total : ℕ
  total = evaluations nb_meta_repet

  other_goes :
      (p : Phase) (e : ℕ)
      → get_elem? s.others k ≡ some (record { phase = p; evaluated = e })
      → (s' : State) × (other_move total k true s p e ≡ some s')
      → CanStep nb_meta_repet m s
  unfolding other_step
  other_goes p e at (s', ran) =
      steps s' (by_other k true (rw (at, is_alive-true s.leader alive) ran))

  -- A process before its round goes on, or is ready.
  pub Early-goes :
      (r : ℕ) (p : Phase) (e : ℕ)
      → get_elem? s.others k ≡ some (record { phase = p; evaluated = e })
      → Early total r (record { phase = p; evaluated = e })
      → (post_at p ≡ 0)
      → (end_at p ≤ s.process_end_lock)
      → CanStep nb_meta_repet m s ⊎ ((p ≡ finished) × (total ≤ r))
  unfolding other_move
  Early-goes r before_fork e at early no_post le = inl (other_goes before_fork e at (_, refl))
  Early-goes r before_post e at early no_post le = inl (other_goes before_post e at (_, refl))
  Early-goes r at_process_lock e at early no_post le = absurd (omega (arith, no_post))
  Early-goes r in_program e at early no_post le = absurd early
  Early-goes r ended e at early no_post le = absurd early
  Early-goes r at_end_lock e at early no_post le =
      inl (other_goes at_end_lock e at (taken s.process_end_lock _ (omega (arith, le))))
  Early-goes r finished e at early no_post le = inr (refl, omega (arith, early.0, early.1))
  Early-goes r crashed e at early no_post le = inl (other_goes crashed e at (_, refl))

  -- A process within its round goes on, or is behind the program.
  pub Mid-goes :
      (r : ℕ) (p : Phase) (e : ℕ)
      → get_elem? s.others k ≡ some (record { phase = p; evaluated = e })
      → Mid r (record { phase = p; evaluated = e })
      → (end_at p ≡ 0)
      → (1 ≤ s.process_lock + may_at p)
      → CanStep nb_meta_repet m s
  unfolding other_move
  Mid-goes r before_fork e at mid no_end le = absurd mid
  Mid-goes r before_post e at mid no_end le = absurd mid
  Mid-goes r at_process_lock e at mid no_end le =
      other_goes at_process_lock e at (taken s.process_lock _ (omega (arith, le)))
  Mid-goes r in_program e at mid no_end le = other_goes in_program e at (_, refl)
  Mid-goes r ended e at mid no_end le = other_goes ended e at (_, refl)
  Mid-goes r at_end_lock e at mid no_end le = absurd (omega (arith, no_end))
  Mid-goes r finished e at mid no_end le = absurd mid
  Mid-goes r crashed e at mid no_end le = other_goes crashed e at (_, refl)

module _ (nb_meta_repet m : ℕ) (s : State) where
  pub own_goes :
      (own : Phase)
      → s.own ≡ own
      → (s' : State) × (own_move true s own ≡ some s')
      → CanStep nb_meta_repet m s
  unfolding own_step
  own_goes own is (s', ran) = steps s' (by_own true (rw is ran))

  pub leader_goes :
      (leader : Leader)
      → s.leader ≡ leader
      → (s' : State) × (leader_move nb_meta_repet m true s leader ≡ some s')
      → CanStep nb_meta_repet m s
  unfolding leader_step
  leader_goes leader is (s', ran) = steps s' (by_leader true (rw is ran))

pub reaped :
    (s : State) (own phase : Phase)
    → own ≡ phase
    → (s' : State) × (wait_own s phase ≡ some s')
    → (s' : State) × (wait_own s own ≡ some s')
reaped s own phase is (s', ran) = (s', rw is ran)

pub may_at-le : (p : Phase) → may_at p ≤ 1
may_at-le at_process_lock = omega arith
may_at-le before_fork = omega arith
may_at-le before_post = omega arith
may_at-le in_program = omega arith
may_at-le ended = omega arith
may_at-le at_end_lock = omega arith
may_at-le finished = omega arith
may_at-le crashed = omega arith

pub post_at-le : (p : Phase) → post_at p ≤ 1
post_at-le at_process_lock = omega arith
post_at-le before_fork = omega arith
post_at-le before_post = omega arith
post_at-le in_program = omega arith
post_at-le ended = omega arith
post_at-le at_end_lock = omega arith
post_at-le finished = omega arith
post_at-le crashed = omega arith

-- No thread is ready for a round behind the last.
pub no_post :
    (total r : ℕ) (p : Phase) (e : ℕ)
    → Early total r (record { phase = p; evaluated = e })
    → total ≤ r
    → post_at p ≡ 0
no_post total r before_fork e h over = refl
no_post total r before_post e h over = refl
no_post total r at_process_lock e h over = absurd (omega (arith, h.0, h.1, over))
no_post total r in_program e h over = refl
no_post total r ended e h over = refl
no_post total r at_end_lock e h over = refl
no_post total r finished e h over = refl
no_post total r crashed e h over = refl

-- Each element has a property, or one of them gives something else.
pub all_or_one :
    {A C : Type 0} (P : A → Type 0) (xs : List A)
    → ((k : ℕ) (x : A) → get_elem? xs k ≡ some x → C ⊎ P x)
    → C ⊎ All P xs
all_or_one P [] each = inr tt
all_or_one P (x ∷ xs) each = elim (each 0 x refl) [
  | inl c ↦ inl c
  | inr here ↦ elim (all_or_one P xs (λ k y at. each (suc k) y at)) [
    | inl c ↦ inl c
    | inr rest ↦ inr (here, rest)
  ]
]
