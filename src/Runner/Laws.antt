-- ===== src/Runner/Laws.antt =====
-- The constructor and the destructor of src/Runner.cpp, on the names and the semaphores.
use lpowerprobe.Common.{
  ℕ, ◌≡◌, ◌≢◌, refl, ◌∙◌, inl, inr, none, some, Bool, true, false, ◌&&◌, ◌==◌, ==-refl, ==_iff,
  if◌then◌else◌, Bool-cases,
}
use lpowerprobe.Runner.{
  Lock, father, process, process_end, same_lock, Shared, put, Calls, goes_on, open_lock, new_runner,
  delete_runner,
}

put_self {ℓ} :
    {A : Type ℓ} (f : Lock → ℕ → A) (lock : Lock) (pid : ℕ) (a : A) → put f lock pid a lock pid ≡ a
put_self f father pid a = rw (==-refl pid) refl
put_self f process pid a = rw (==-refl pid) refl
put_self f process_end pid a = rw (==-refl pid) refl

put_ne {ℓ} :
    {A : Type ℓ} (f : Lock → ℕ → A) (lock : Lock) (pid : ℕ) (a : A) (lock' : Lock) (pid' : ℕ)
    → (same_lock lock lock' && (pid == pid')) ≡ false
    → put f lock pid a lock' pid' ≡ f lock' pid'
put_ne f lock pid a lock' pid' apart = rw apart refl

-- Another process has other names.
differs : (b : Bool) (pid other : ℕ) → pid ≢ other → (b && (pid == other)) ≡ false
differs b pid other apart = elim (Bool-cases (pid == other)) [
  | inl same ↦ absurd (apart ((==_iff pid other).0 same))
  | inr is ↦ elim (Bool-cases b) [ inl yes_b ↦ rw (yes_b, is) refl | inr no_b ↦ rw no_b refl ]
]

-- The calls succeed for a lock.
pub record Opens (calls : Calls) : Type 0 where
  pub shm_open : calls.shm_open ≡ true
  pub ftruncate : calls.ftruncate ≡ true
  pub mmap : calls.mmap ≡ true
  pub sem_init : calls.sem_init ≡ true

-- The lock is there and at 0, and all others are as they were.
record Opened (pid : ℕ) (lock : Lock) (shared shared' : Shared) : Type 0 where
  there : shared'.present lock pid ≡ true
  at_zero : shared'.value lock pid ≡ some 0
  others :
      (lock' : Lock) (pid' : ℕ)
      → (same_lock lock lock' && (pid == pid')) ≡ false
      → (shared'.present lock' pid' ≡ shared.present lock' pid')
        × (shared'.value lock' pid' ≡ shared.value lock' pid')

open_lock_lem :
    (pid : ℕ) (calls : Calls) (lock : Lock) (shared : Shared)
    → Opens calls
    → (shared' : Shared) × (open_lock pid calls lock shared ≡ goes_on shared')
      × Opened pid lock shared shared'
unfolding open_lock
open_lock_lem pid calls lock shared o =
    let old = if shared.present lock pid then shared.value lock pid else none in
    let named : Shared = record {
      present = put shared.present lock pid true;
      value = put shared.value lock pid old;
    } in
    (
      record named { value = put named.value lock pid (some 0) },
      rw (o.shm_open, o.ftruncate, o.mmap, o.sem_init) refl,
      record {
        there = put_self shared.present lock pid true;
        at_zero = put_self named.value lock pid (some 0);
        others = λ lock' pid' apart. (
          put_ne shared.present lock pid true lock' pid' apart,
          put_ne named.value lock pid (some 0) lock' pid' apart
              ∙ put_ne shared.value lock pid old lock' pid' apart,
        );
      },
    )

module _ (pid : ℕ) (calls : Lock → Calls) (shared : Shared)
    (opens : (lock : Lock) → Opens (calls lock)) where
  -- Where all calls succeed for the three locks, the constructor goes on, and each lock is there and at 0,
  -- whatever was there before. The destructor then takes the three names away, and between the two nothing
  -- has changed for any other process.
  pub new_runner_lem :
      (opened : Shared) × (new_runner pid calls shared ≡ goes_on opened)
      × ((lock : Lock) → (opened.present lock pid ≡ true) × (opened.value lock pid ≡ some 0))
      × ((lock : Lock) → (delete_runner pid opened).present lock pid ≡ false)
      × ((lock : Lock) (other : ℕ)
          → pid ≢ other
          → ((delete_runner pid opened).present lock other ≡ shared.present lock other)
            × ((delete_runner pid opened).value lock other ≡ shared.value lock other))
  unfolding new_runner delete_runner
  new_runner_lem =
      let (a, ran_a, is_a) = open_lock_lem pid (calls father) father shared (opens father) in
      let (b, ran_b, is_b) = open_lock_lem pid (calls process) process a (opens process) in
      let (c, ran_c, is_c) =
        open_lock_lem pid (calls process_end) process_end b (opens process_end) in
      let c_process = is_c.others process pid refl in
      let c_father = is_c.others father pid refl in
      let b_father = is_b.others father pid refl in
      (
        c,
        rw (ran_a, ran_b, ran_c) refl,
        at_rest c (c_father.0 ∙ b_father.0 ∙ is_a.there, c_father.1 ∙ b_father.1 ∙ is_a.at_zero)
            (c_process.0 ∙ is_b.there, c_process.1 ∙ is_b.at_zero) (is_c.there, is_c.at_zero),
        removed c,
        λ lock other apart.
            let apart_of : (l : Lock) → (same_lock l lock && (pid == other)) ≡ false =
              λ l. differs (same_lock l lock) pid other apart in
            let of_c = is_c.others lock other (apart_of process_end) in
            let of_b = is_b.others lock other (apart_of process) in
            let of_a = is_a.others lock other (apart_of father) in
            (
              put_ne (put (put c.present process_end pid false) process pid false) father pid false
                    lock other (apart_of father)
                  ∙ put_ne (put c.present process_end pid false) process pid false lock other
                      (apart_of process)
                  ∙ put_ne c.present process_end pid false lock other (apart_of process_end)
                  ∙ of_c.0
                  ∙ of_b.0
                  ∙ of_a.0,
              of_c.1 ∙ of_b.1 ∙ of_a.1,
            ),
      )
    where
      at_rest :
          (c : Shared)
          → (c.present father pid ≡ true) × (c.value father pid ≡ some 0)
          → (c.present process pid ≡ true) × (c.value process pid ≡ some 0)
          → (c.present process_end pid ≡ true) × (c.value process_end pid ≡ some 0)
          → (lock : Lock) → (c.present lock pid ≡ true) × (c.value lock pid ≡ some 0)
      at_rest c f p e father = f
      at_rest c f p e process = p
      at_rest c f p e process_end = e

      removed : (c : Shared) (lock : Lock) → (delete_runner pid c).present lock pid ≡ false
      removed c father =
          put_self (put (put c.present process_end pid false) process pid false) father pid false
      removed c process = put_self (put c.present process_end pid false) process pid false
      removed c process_end = put_self c.present process_end pid false
