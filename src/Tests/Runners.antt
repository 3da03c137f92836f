-- ===== src/Tests/Runners.antt =====
-- src/Runner.cpp for the process 7, next to a runner of the process 8.
use lpowerprobe.Common.{ℕ, ◌≡◌, ◌≢◌, refl, true, false, none, some, ◌==◌}
use lpowerprobe.Runner.{
  Lock, father, Shared, Calls, goes_on, open_lock, put, new_runner, delete_runner,
}
use lpowerprobe.Runner.Laws.{Opens, new_runner_lem}

abbrev of_eight : Shared
of_eight = record { present = λ lock pid. pid == 8; value = λ lock pid. some 5 }

abbrev all_calls : Lock → Calls
all_calls lock = record { shm_open = true; ftruncate = true; mmap = true; sem_init = true }

all_calls-Opens : (lock : Lock) → Opens (all_calls lock)
all_calls-Opens lock = record { shm_open = refl; ftruncate = refl; mmap = refl; sem_init = refl }

new_runner_lem_example :
    (opened : Shared) × (new_runner 7 all_calls of_eight ≡ goes_on opened)
    × ((lock : Lock) → (opened.present lock 7 ≡ true) × (opened.value lock 7 ≡ some 0))
    × ((lock : Lock) → (delete_runner 7 opened).present lock 7 ≡ false)
    × ((lock : Lock) (other : ℕ)
        → 7 ≢ other
        → ((delete_runner 7 opened).present lock other ≡ of_eight.present lock other)
          × ((delete_runner 7 opened).value lock other ≡ of_eight.value lock other))
new_runner_lem_example = new_runner_lem 7 all_calls of_eight all_calls-Opens

-- Where `sem_init` fails the constructor goes on with a semaphore that is not initialised.
not_initialised :
    open_lock 7 (record (all_calls father) { sem_init = false }) father of_eight
    ≡ goes_on (record {
      present = put of_eight.present father 7 true;
      value = put of_eight.value father 7 none;
    })
unfolding open_lock
not_initialised = refl
