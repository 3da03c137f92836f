-- ===== src/Runner.antt =====
-- src/Runner.cpp: the three semaphores of a runner, each in a shared memory that has the process id in its
-- name. Which of the system's calls succeed is a parameter.
pub mod Laws
use lpowerprobe.Common.{ℕ, Bool, true, false, Option, none, some, ◌&&◌, ◌==◌, if◌then◌else◌}

-- The names: `/shmFather`, `/shmProcess` and `/shmProcessEnd`.
pub data Lock : Type 0 where
  father process process_end : Lock

abbrev pub same_lock : Lock → Lock → Bool
same_lock father father = true
same_lock father process = false
same_lock father process_end = false
same_lock process father = false
same_lock process process = true
same_lock process process_end = false
same_lock process_end father = false
same_lock process_end process = false
same_lock process_end process_end = true

-- The shared memories of the system by name and process id: whether there is one, and the semaphore in
-- it, or `none` if it has not been initialised.
pub record Shared : Type 0 where
  pub present : Lock → ℕ → Bool
  pub value : Lock → ℕ → Option ℕ

abbrev pub put {ℓ} : {A : Type ℓ} → (Lock → ℕ → A) → Lock → ℕ → A → Lock → ℕ → A
put f lock pid a lock' pid' = if same_lock lock lock' && (pid == pid') then a else f lock' pid'

-- Which calls succeed for a lock.
pub record Calls : Type 0 where
  pub shm_open : Bool
  pub ftruncate : Bool
  pub mmap : Bool
  pub sem_init : Bool

-- The program goes on or ends by `exit`, and leaves the shared memories so.
pub data Opening : Type 0 where
  goes_on exits : Shared → Opening

-- One of the three parts of the constructor. A memory that is new holds no semaphore; one that is there is
-- kept. Where `sem_init` fails that is only reported.
unfoldable pub open_lock : ℕ → Calls → Lock → Shared → Opening
open_lock pid calls lock shared =
    let named = record shared {
      present = put shared.present lock pid true;
      value =
          put shared.value lock pid
            (if shared.present lock pid then shared.value lock pid else none);
    } in
    if calls.shm_open
    then if calls.ftruncate
      then if calls.mmap
        then goes_on (
            if calls.sem_init
            then record named { value = put named.value lock pid (some 0) }
            else named)
        else exits named
      else exits named
    else exits shared

abbrev pub and_then : Opening → (Shared → Opening) → Opening
and_then (goes_on shared) next = next shared
and_then (exits shared) next = exits shared

-- The constructor.
unfoldable pub new_runner : ℕ → (Lock → Calls) → Shared → Opening
unfolding open_lock
new_runner pid calls shared = and_then (open_lock pid (calls father) father shared) (λ shared.
    and_then (open_lock pid (calls process) process shared)
      (open_lock pid (calls process_end) process_end))

abbrev pub unlink : ℕ → Lock → Shared → Shared
unlink pid lock shared = record shared { present = put shared.present lock pid false }

-- The destructor.
unfoldable pub delete_runner : ℕ → Shared → Shared
delete_runner pid shared = unlink pid father (unlink pid process (unlink pid process_end shared))
