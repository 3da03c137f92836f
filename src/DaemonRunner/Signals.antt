-- ===== src/DaemonRunner/Signals.antt =====
-- What the signals to a daemon, src/DaemonRunner.cpp, make of its turns.
use lpowerprobe.Common.{
  ℕ, suc, ◌≡◌, ◌≢◌, refl, Bool, true, false, List, [], ◌∷◌, Bool-cases, ◌⊎◌, inl, inr,
}
use lpowerprobe.DaemonRunner.{
  Signal, sigterm, sigint, sigusr1, sighandler, Turn, handle, unanswered, Course, course,
  left_at_loop, in_first_pause, left_at_pause, in_second_pause, cancelled, measured,
}

-- Whether SIGTERM or SIGINT is among some signals.
abbrev pub is_told : List Signal → Bool
is_told [] = false
is_told (sigterm ∷ ss) = true
is_told (sigint ∷ ss) = true
is_told (sigusr1 ∷ ss) = is_told ss

-- A pause that another signal has ended.
abbrev pub Passed : List Signal → Type 0
Passed ss = (ss ≢ []) × (is_told ss ≡ false)

-- Which signals give a turn which course.
pub data Goes (t : Turn) : Course → Type 0 where
  goes_loop : is_told t.before ≡ true → Goes t left_at_loop
  goes_first : is_told t.before ≡ false → t.first_pause ≡ [] → Goes t in_first_pause
  goes_pause : is_told t.before ≡ false → is_told t.first_pause ≡ true → Goes t left_at_pause
  goes_second :
      is_told t.before ≡ false → Passed t.first_pause → t.second_pause ≡ [] → Goes t in_second_pause
  goes_cancelled :
      is_told t.before ≡ false
      → Passed t.first_pause
      → is_told t.second_pause ≡ true
      → Goes t cancelled
  goes_measured :
      is_told t.before ≡ false → Passed t.first_pause → Passed t.second_pause → Goes t measured

-- The daemon is told to end behind `n` measured turns.
pub data Ends : List Turn → ℕ → Type 0 where
  at_loop : {t : Turn} {ts : List Turn} → Goes t left_at_loop → Ends (t ∷ ts) 0
  at_pause : {t : Turn} {ts : List Turn} → Goes t left_at_pause → Ends (t ∷ ts) 0
  by_cancel : {t : Turn} {ts : List Turn} → Goes t cancelled → Ends (t ∷ ts) 0
  and_on : {t : Turn} {ts : List Turn} {n : ℕ} → Goes t measured → Ends ts n → Ends (t ∷ ts) (suc n)

-- The signals end in a pause.
pub data Waits : List Turn → Type 0 where
  no_more : Waits []
  first_unanswered : {t : Turn} {ts : List Turn} → Goes t in_first_pause → Waits (t ∷ ts)
  second_unanswered : {t : Turn} {ts : List Turn} → Goes t in_second_pause → Waits (t ∷ ts)
  and_waits : {t : Turn} {ts : List Turn} → Goes t measured → Waits ts → Waits (t ∷ ts)

handle-true : (ss : List Signal) → handle ss true ≡ true
unfolding handle sighandler
handle-true [] = refl
handle-true (sigterm ∷ ss) = handle-true ss
handle-true (sigint ∷ ss) = handle-true ss
handle-true (sigusr1 ∷ ss) = handle-true ss

handle_lem : (ss : List Signal) → handle ss false ≡ is_told ss
unfolding handle sighandler
handle_lem [] = refl
handle_lem (sigterm ∷ ss) = handle-true ss
handle_lem (sigint ∷ ss) = handle-true ss
handle_lem (sigusr1 ∷ ss) = handle_lem ss

pub course-true : (t : Turn) → course t true ≡ left_at_loop
unfolding course
course-true t = rw (course, handle-true t.before) refl

pause_cases :
    (ss : List Signal)
    → ((ss ≡ []) × (unanswered ss ≡ true))
      ⊎ ((unanswered ss ≡ false) × ((is_told ss ≡ true) ⊎ Passed ss))
pause_cases [] = inl (refl, refl)
pause_cases (s ∷ ss) = inr (refl, told_or_not)
  where
    told_or_not : (is_told (s ∷ ss) ≡ true) ⊎ Passed (s ∷ ss)
    told_or_not = elim (Bool-cases (is_told (s ∷ ss))) [
      | inl ending ↦ inl ending
      | inr quiet ↦ inr ((λ e. cc), quiet)
    ]

pub course_lem : (t : Turn) → Goes t (course t false)
unfolding course
course_lem t = elim (Bool-cases (is_told t.before)) [
  | inl ending ↦ rw (course, handle_lem t.before, ending) (goes_loop ending)
  | inr quiet ↦ elim (pause_cases t.first_pause) [
    | inl (empty, still) ↦ rw (course, handle_lem t.before, quiet, still) (goes_first quiet empty)
    | inr (answered, inl ending) ↦
        rw (course, handle_lem t.before, quiet, answered, handle_lem t.first_pause, ending)
          (goes_pause quiet ending)
    | inr (answered, inr passed) ↦ elim (pause_cases t.second_pause) [
      | inl (empty, still) ↦
          rw
            (
              course,
              handle_lem t.before,
              quiet,
              answered,
              handle_lem t.first_pause,
              passed.1,
              still,
            )
            (goes_second quiet passed empty)
      | inr (answered', inl ending) ↦
          rw
            (
              course,
              handle_lem t.before,
              quiet,
              answered,
              handle_lem t.first_pause,
              passed.1,
              answered',
              handle_lem t.second_pause,
              ending,
            )
            (goes_cancelled quiet passed ending)
      | inr (answered', inr passed') ↦
          rw
            (
              course,
              handle_lem t.before,
              quiet,
              answered,
              handle_lem t.first_pause,
              passed.1,
              answered',
              handle_lem t.second_pause,
              passed'.1,
            )
            (goes_measured quiet passed passed')
    ]
  ]
]
