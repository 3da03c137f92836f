-- ===== src/EnergyServer/Agree.antt =====
-- probes/libenergyserver: how far the arrays of the server and of a client hold a measurement.
use lpowerprobe.Common.{
  ℕ, ◌+◌, ◌≤◌, ◌<◌, ◌≡◌, refl, sym, ◌∙◌, true, some, List, length, get_elem?, set, arith, ltb,
  ltb→lt, get_elem?-set_ne, get_elem?-set_self, ℕ_discrete,
}
use lpowerprobe.EnergyServer.{
  Server, at_head, waiting, stopping, copying, posting, starting, ended, Asking, idle, to_post,
  to_wait, reading, returned,
}
use lpowerprobe.EnergyServer.Invariant.{asks, in_service}

-- Two arrays hold the same at the first `n` indices.
abbrev pub Agree {ℓ} : {A : Type ℓ} → ℕ → List A → List A → Type ℓ
Agree n xs ys = (j : ℕ) → j < n → get_elem? xs j ≡ get_elem? ys j

pub Agree-set {ℓ} :
    {A : Type ℓ} (i : ℕ) (xs ys : List A) (v : A)
    → ltb i (length xs) ≡ true
    → get_elem? ys i ≡ some v
    → Agree i xs ys
    → Agree (i + 1) (set xs i v) ys
Agree-set i xs ys v inside found same j lt = elim (ℕ_discrete i j) [
  | yes is ↦ rw (← is) (get_elem?-set_self xs i v (ltb→lt i (length xs) inside) ∙ sym found)
  | no other ↦ get_elem?-set_ne xs i j v other ∙ same j (omega (arith, lt, other))
]

-- How far the array in the shared memory is the measurement.
abbrev pub Written : {W : Type 0} → ℕ → Server → List W → List W → Type 0
Written nb (copying i) energy last_results = Agree i energy last_results
Written nb at_head energy last_results = Agree nb energy last_results
Written nb waiting energy last_results = Agree nb energy last_results
Written nb stopping energy last_results = Agree nb energy last_results
Written nb posting energy last_results = Agree nb energy last_results
Written nb starting energy last_results = Agree nb energy last_results
Written nb ended energy last_results = Agree nb energy last_results

-- How far the client's array is.
abbrev pub Held : {W : Type 0} → ℕ → Asking → List W → List W → Type 0
Held nb idle res last_results = Unit {0}
Held nb (to_post call) res last_results = Unit {0}
Held nb (to_wait call) res last_results = Unit {0}
Held nb (reading i) res last_results = Agree i res last_results
Held nb returned res last_results = Agree nb res last_results

-- While a client waits, nothing is said of its array.
pub Held-waiting :
    {W : Type 0} (nb : ℕ) (asking : Asking) (res last_results : List W)
    → asks asking ≡ 1
    → Held nb asking res last_results
Held-waiting nb idle res last_results wants = tt
Held-waiting nb (to_post call) res last_results wants = tt
Held-waiting nb (to_wait call) res last_results wants = tt
Held-waiting nb (reading i) res last_results wants = absurd (omega (arith, wants))
Held-waiting nb returned res last_results wants = absurd (omega (arith, wants))

-- Between two requests the shared memory holds the last measurement.
pub Written-calm :
    {W : Type 0} (nb : ℕ) (server : Server) (energy last_results : List W)
    → in_service server ≡ 0
    → Written nb server energy last_results
    → Agree nb energy last_results
Written-calm nb at_head energy last_results calm h = h
Written-calm nb waiting energy last_results calm h = h
Written-calm nb stopping energy last_results calm h = absurd (omega (arith, calm))
Written-calm nb (copying i) energy last_results calm h = absurd (omega (arith, calm))
Written-calm nb posting energy last_results calm h = h
Written-calm nb starting energy last_results calm h = h
Written-calm nb ended energy last_results calm h = h

pub asks-le_one : (asking : Asking) → asks asking ≤ 1
asks-le_one idle = omega arith
asks-le_one (to_post call) = omega arith
asks-le_one (to_wait call) = omega arith
asks-le_one (reading i) = omega arith
asks-le_one returned = omega arith

-- A client that has come back from `stop` holds this.
pub Held-returned :
    {W : Type 0} (nb : ℕ) (asking : Asking) (res last_results : List W)
    → asking ≡ returned
    → Held nb asking res last_results
    → (asks asking ≡ 0) × Agree nb res last_results
Held-returned nb idle res last_results is h = absurd (cc)
Held-returned nb (to_post call) res last_results is h = absurd (cc)
Held-returned nb (to_wait call) res last_results is h = absurd (cc)
Held-returned nb (reading i) res last_results is h = absurd (cc)
Held-returned nb returned res last_results is h = (refl, h)
