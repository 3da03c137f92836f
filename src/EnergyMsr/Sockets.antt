-- ===== src/EnergyMsr/Sockets.antt =====
-- Which sockets are found, and which core stands for each.
use lpowerprobe.Common.{
  ℕ, zero, suc, ◌+◌, ◌/◌, ◌%◌, ◌^◌, ◌≤◌, ◌<◌, ◌≡◌, ◌≢◌, refl, ◌∙◌, ap, true, false, none, some,
  List, [], ◌∷◌, length, arith, ◌⊎◌, inl, inr, Bool-cases, Option-cases, ltb, ◌==◌, if◌then◌else◌,
  ℕ_discrete,
}
use lpowerprobe.EnergyMsr.{
  Joule, Machine, Socket, subvalue, energy_unit, nb_sockets_from, nb_devices, find_core,
  open_sockets, init,
}

-- `core` is the first core from `c` on that belongs to a socket.
pub record IsFirst (machine : Machine) (socket c core : ℕ) : Type 0 where
  pub from : c ≤ core
  pub here : machine.package_id core ≡ some socket
  pub first : (before : ℕ) → c ≤ before → before < core → machine.package_id before ≢ some socket

abbrev pub NoCore : Machine → ℕ → ℕ → ℕ → Type 0
NoCore machine socket c end =
    (core : ℕ) → c ≤ core → core < end → machine.package_id core ≢ some socket

eq_same : (a : ℕ) → (a == a) ≡ true
eq_same a = ground arith

eq_other : (a b : ℕ) → a ≢ b → (a == b) ≡ false
eq_other a b other = elim (Bool-cases (a == b)) [
  | inl same ↦ absurd (other (ground arith))
  | inr differs ↦ differs
]

find_core-here :
    (machine : Machine) (socket count c : ℕ)
    → machine.package_id c ≡ some socket
    → find_core machine socket (suc count) c ≡ some c
unfolding find_core
find_core-here machine socket count c known = rw (find_core, known, eq_same socket) refl

find_core-skips :
    (machine : Machine) (socket count c : ℕ)
    → machine.package_id c ≢ some socket
    → find_core machine socket (suc count) c ≡ find_core machine socket count (c + 1)
unfolding find_core
find_core-skips machine socket count c other = elim (Option-cases (machine.package_id c)) [
  | inl unknown ↦ rw (find_core, unknown) refl
  | inr (id, known) ↦
      let differs : (id == socket) ≡ false =
        eq_other id socket (λ same. other (known ∙ ap some same)) in
      rw (find_core, known, differs) refl
]

belongs_or_not :
    (machine : Machine) (socket c : ℕ)
    → (machine.package_id c ≡ some socket) ⊎ (machine.package_id c ≢ some socket)
belongs_or_not machine socket c = elim (Option-cases (machine.package_id c)) [
  | inl unknown ↦ inr (λ known. cc)
  | inr (id, known) ↦ elim (ℕ_discrete id socket) [
    | yes same ↦ inl (known ∙ ap some same)
    | no other ↦ inr (λ known'. other (cc))
  ]
]

at_or_after :
    (machine : Machine) (socket c core : ℕ)
    → machine.package_id c ≢ some socket
    → c ≤ core
    → (c + 1 ≤ core → machine.package_id core ≢ some socket)
    → machine.package_id core ≢ some socket
at_or_after machine socket c core other from after = elim (ℕ_discrete c core) [
  | yes same ↦ λ known. other (ap machine.package_id same ∙ known)
  | no differs ↦ after (omega (arith, from, differs))
]

pub find_core_lem :
    (machine : Machine) (socket count c : ℕ)
    → ((core : ℕ) × (find_core machine socket count c ≡ some core)
        × (core < c + count)
        × IsFirst machine socket c core)
      ⊎ ((find_core machine socket count c ≡ none) × NoCore machine socket c (c + count))
unfolding find_core
find_core_lem machine socket zero c = inr (refl, λ core from to. absurd (omega (arith, from, to)))
find_core_lem machine socket (suc count) c = elim (belongs_or_not machine socket c) [
  | inl known ↦ inl (
    c,
    find_core-here machine socket count c known,
    omega arith,
    record {
      from = omega arith;
      here = known;
      first = λ before from to. absurd (omega (arith, from, to));
    },
  )
  | inr other ↦ elim (find_core_lem machine socket count (c + 1)) [
    | inl (core, found, below, is_first) ↦
        let from' = is_first.from in
        inl (
          core,
          find_core-skips machine socket count c other ∙ found,
          omega (arith, below),
          record {
            from = omega (arith, from');
            here = is_first.here;
            first = λ before from to.
                at_or_after machine socket c before other from
                  (λ after. is_first.first before after to);
          },
        )
    | inr (missing, no_core) ↦ inr (
      find_core-skips machine socket count c other ∙ missing,
      λ core from to.
          at_or_after machine socket c core other from
            (λ after. no_core core after (omega (arith, to))),
    )
  ]
]

-- The state that `init` gives to a socket.
pub record IsOpen {W : Type 0} ⦃d : Joule W⦄ (machine : Machine) (s : ℕ) (socket : Socket W)
    : Type 0 where
  pub core : IsFirst machine s 0 socket.fd
  pub below : socket.fd < machine.nb_cores
  pub opens : machine.opens socket.fd ≡ true
  pub unit :
      ((value : ℕ) × (machine.power_unit socket.fd ≡ some value)
        × (socket.e_unit ≡ d.pow_half (value / 2 ^ 8 % 2 ^ 5)))
      ⊎ (machine.power_unit socket.fd ≡ none)

-- What keeps a socket from being opened.
pub data Fails (machine : Machine) (s : ℕ) : Type 0 where
  no_core : NoCore machine s 0 machine.nb_cores → Fails machine s
  shut : (core : ℕ) → IsFirst machine s 0 core → machine.opens core ≡ false → Fails machine s

module _ {W : Type 0} ⦃d : Joule W⦄ where
  abbrev pub AllOpen : Machine → ℕ → List (Socket W) → Type 0
  AllOpen machine s [] = Unit {0}
  AllOpen machine s (socket ∷ sockets) = IsOpen machine s socket × AllOpen machine (s + 1) sockets

  open_sockets_lem :
      (machine : Machine) (garbage : Socket W) (count s : ℕ)
      → ((sockets : List (Socket W)) × (open_sockets machine garbage count s ≡ some sockets)
          × (length sockets ≡ count)
          × AllOpen machine s sockets)
        ⊎ ((open_sockets machine garbage count s ≡ none)
            × ((s' : ℕ) × (s ≤ s') × (s' < s + count) × Fails machine s'))
  unfolding open_sockets subvalue energy_unit
  open_sockets_lem machine garbage zero s = inl ([], refl, refl, tt)
  open_sockets_lem machine garbage (suc count) s =
      elim (find_core_lem machine s machine.nb_cores 0) [
        | inr (missing, none_has) ↦ inr (
          rw (open_sockets, missing) refl,
          (
            s,
            omega arith,
            omega arith,
            no_core (λ core from to. none_has core from (omega (arith, to))),
          ),
        )
        | inl (core, found, below, is_first) ↦ elim (Bool-cases (machine.opens core)) [
          | inr closed ↦ inr (
            rw (open_sockets, found, closed) refl,
            (s, omega arith, omega arith, shut core is_first closed),
          )
          | inl opened ↦ elim (open_sockets_lem machine garbage count (s + 1)) [
            | inr (failed, (s', from, to, why)) ↦ inr (
              rw (open_sockets, found, opened, failed) refl,
              (s', omega (arith, from), omega (arith, to), why),
            )
            | inl (sockets, ran, size, all) ↦ inl (
              record garbage {
                fd = core;
                e_unit = d.pow_half (subvalue (energy_unit machine core) 8 5);
              }
                  ∷ sockets,
              rw (open_sockets, found, opened, ran) refl,
              ap suc size,
              (
                record {
                  core = is_first;
                  below = omega (arith, below);
                  opens = opened;
                  unit = elim (Option-cases (machine.power_unit core)) [
                    | inl unread ↦ inr unread
                    | inr (value, read) ↦ inl (value, read, rw (energy_unit, read) refl)
                  ];
                },
                all,
              ),
            )
          ]
        ]
      ]

  -- `init` gives one entry for each socket below the number of sockets, whose open file is that of the
  -- first core of the socket, and whose energy unit is 0.5 to the power of bits 8 to 12 of the core's
  -- MSR_RAPL_POWER_UNIT where that register can be read; or it gives a null pointer, and then some socket below that number has no
  -- core, or the registers of its first core cannot be opened.
  pub init_lem :
      (machine : Machine) (garbage : Socket W)
      → ((sockets : List (Socket W)) × (init machine garbage ≡ some sockets)
          × (length sockets ≡ nb_devices machine)
          × AllOpen machine 0 sockets)
        ⊎ ((init machine garbage ≡ none) × ((s : ℕ) × (s < nb_devices machine) × Fails machine s))
  unfolding init
  init_lem machine garbage = elim (open_sockets_lem machine garbage (nb_devices machine) 0) [
    | inl opened ↦ inl opened
    | inr (failed, (s, from, to, why)) ↦ inr (failed, (s, omega (arith, to), why))
  ]

nb_sockets-grows : (machine : Machine) (count i n : ℕ) → n ≤ nb_sockets_from machine count i n
unfolding nb_sockets_from
nb_sockets-grows machine zero i n = omega arith
nb_sockets-grows machine (suc count) i n = elim (Option-cases (machine.package_id i)) [
  | inl unknown ↦ rw (nb_sockets_from, unknown) (nb_sockets-grows machine count (i + 1) n)
  | inr (id, known) ↦
      let next = if ltb n ((id + 1) % 2 ^ 32) then (id + 1) % 2 ^ 32 else n in
      let le : n ≤ next = ground arith in
      rw (nb_sockets_from, known) (omega (arith, le, nb_sockets-grows machine count (i + 1) next))
]

id-lt-nb_sockets :
    (machine : Machine) (count i n core id : ℕ)
    → i ≤ core
    → core < i + count
    → machine.package_id core ≡ some id
    → id + 1 < 2 ^ 32
    → id < nb_sockets_from machine count i n
unfolding nb_sockets_from
id-lt-nb_sockets machine zero i n core id from to known small = absurd (omega (arith, from, to))
id-lt-nb_sockets machine (suc count) i n core id from to known small = elim (ℕ_discrete i core) [
  | yes same ↦
      let here : machine.package_id i ≡ some id = ap machine.package_id same ∙ known in
      let next = if ltb n ((id + 1) % 2 ^ 32) then (id + 1) % 2 ^ 32 else n in
      let lt : id < next = ground (arith, small) in
      rw (nb_sockets_from, here) (omega (arith, lt, nb_sockets-grows machine count (i + 1) next))
  | no other ↦
      let after : i + 1 ≤ core = omega (arith, from, other) in
      let to' : core < (i + 1) + count = omega (arith, to) in
      elim (Option-cases (machine.package_id i)) [
        | inl unknown ↦
            rw (nb_sockets_from, unknown)
              (id-lt-nb_sockets machine count (i + 1) n core id after to' known small)
        | inr (seen, is) ↦
            let next = if ltb n ((seen + 1) % 2 ^ 32) then (seen + 1) % 2 ^ 32 else n in
            rw (nb_sockets_from, is)
              (id-lt-nb_sockets machine count (i + 1) next core id after to' known small)
      ]
]

-- Every package id of a core that can be read, less than 2^32 - 1, is less than the number of sockets.
pub id-lt-nb_devices :
    (machine : Machine) (core id : ℕ)
    → core < machine.nb_cores
    → machine.package_id core ≡ some id
    → id + 1 < 2 ^ 32
    → id < nb_devices machine
unfolding nb_devices
id-lt-nb_devices machine core id below known small =
    id-lt-nb_sockets machine machine.nb_cores 0 1 core id (omega arith) (omega (arith, below)) known
      small
