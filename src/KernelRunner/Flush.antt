-- ===== src/KernelRunner/Flush.antt =====
-- flushCaches reads inside of the memory, and writes its first byte only.
use lpowerprobe.Common.{
  ℕ, zero, suc, ◌+◌, ◌*◌, ◌/◌, ◌%◌, ◌^◌, ◌≤◌, ◌<◌, ◌≡◌, ◌≢◌, refl, ◌∙◌, sym, ap, some, List, [],
  ◌∷◌, length, get_elem?, set, ltb, ltb→lt, ◌==◌, Bool-cases, inl, inr, arith, get_elem?_of_lt,
  get_elem?-set_ne, get_elem?-set_self, lt_of_get_elem?, some_injective, length-set,
}
use lpowerprobe.KernelRunner.Memory.{Memories, sum_pages, char_to_size, flush_block, flush_caches}

-- Every byte of a block is 0.
abbrev pub IsClear : List ℕ → Type 0
IsClear block = (k : ℕ) (x : ℕ) → get_elem? block k ≡ some x → x ≡ 0

sum_pages_lem :
    (fuel : ℕ) (block : List ℕ) (size i c : ℕ)
    → length block ≡ size
    → size + 4096 ≤ 2 ^ 64
    → size + 4096 ≤ i + fuel * 4096
    → i < size + 4096
    → c < 2 ^ 8
    → (c' : ℕ) × (sum_pages fuel block size i c ≡ some c') × (IsClear block → c' ≡ c)
unfolding sum_pages
sum_pages_lem zero block size i c full small enough near char = absurd (omega (arith, enough, near))
sum_pages_lem (suc fuel) block size i c full small enough near char =
    elim (Bool-cases (ltb i size)) [
      | inl inside ↦
          let (x, at) = get_elem?_of_lt block i (omega (arith, full, ltb→lt i size inside)) in
          let (c', ran, clear) =
            sum_pages_lem fuel block size ((i + 4096) % 2 ^ 64) ((c + x) % 2 ^ 8) full small
              (omega (arith, enough, small, ltb→lt i size inside))
              (omega (arith, small, ltb→lt i size inside)) (omega arith) in
          (
            c',
            rw (inside, at, ran) refl,
            λ all_clear. omega (arith, clear all_clear, all_clear i x at, char),
          )
      | inr outside ↦ (c, rw outside refl, λ all_clear. refl)
    ]

set-same {ℓ} :
    {A : Type ℓ} (xs : List A) (k : ℕ) {x : A} → get_elem? xs k ≡ some x → set xs k x ≡ xs
set-same [] k at = refl
set-same (y ∷ xs) zero {x} at = let same : y ≡ x = some_injective at in ap (λ z. z ∷ xs) (sym same)
set-same (y ∷ xs) (suc k) at = ap (λ zs. y ∷ zs) (set-same xs k at)

char_to_size-zero : (size : ℕ) → char_to_size 0 / size % 2 ^ 8 ≡ 0
unfolding char_to_size
char_to_size-zero size = omega arith

flush_block_lem :
    (size : ℕ) (block : List ℕ)
    → length block ≡ size
    → size + 4096 ≤ 2 ^ 64
    → (flushed : List ℕ) × (flush_block size block ≡ some flushed)
      × (length flushed ≡ length block)
      × ((k : ℕ) → 0 < k → get_elem? flushed k ≡ get_elem? block k)
      × (IsClear block → flushed ≡ block)
unfolding flush_block
flush_block_lem size block full small = elim (Bool-cases (size == 0)) [
  | inl empty ↦ (block, rw empty refl, refl, λ k pos. refl, λ clear. refl)
  | inr some_bytes ↦
      let pos : 0 < size = ground arith in
      let (c, ran, clear) =
        sum_pages_lem (size / 4096 + 2) block size 0 0 full small (omega arith) (omega arith)
          (omega arith) in
      (
        set block 0 (char_to_size c / size % 2 ^ 8),
        rw (some_bytes, ran) refl,
        length-set block 0 _,
        λ k after. get_elem?-set_ne block 0 k _ (λ same. omega (arith, same, after)),
        λ all_clear.
            let (x, at) = get_elem?_of_lt block 0 (omega (arith, full, pos)) in
            ap (λ c. set block 0 (char_to_size c / size % 2 ^ 8)) (clear all_clear)
            ∙ ap (λ n. set block 0 n) (char_to_size-zero size ∙ sym (all_clear 0 x at))
            ∙ set-same block 0 at,
      )
]

-- What flushCaches leaves of the memory `m`, at thread `n`.
pub record IsFlushed (n : ℕ) (block : List ℕ) (m m' : Memories) : Type 0 where
  pub others : (k : ℕ) → n ≢ k → get_elem? m'.memory k ≡ get_elem? m.memory k
  pub flushed : List ℕ
  pub own : get_elem? m'.memory n ≡ some flushed
  pub size : length flushed ≡ length block
  pub bytes : (k : ℕ) → 0 < k → get_elem? flushed k ≡ get_elem? block k
  pub overhead : m'.overhead_memory ≡ m.overhead_memory
  pub clear : IsClear block → m' ≡ m

-- When the block of a thread has the size that the constructor gives it, 4096 less than 2^64 at most,
-- flushCaches returns without a read outside of it. It leaves the other blocks and the memory of the
-- overhead, and of its own block all bytes but the first; a block in which every byte is 0 it leaves as
-- it is.
pub flush_caches_lem :
    (n : ℕ) (m : Memories) {block : List ℕ}
    → get_elem? m.memory n ≡ some block
    → length block ≡ m.iteration_memory_size * m.nb_kernel_iteration % 2 ^ 64
    → length block + 4096 ≤ 2 ^ 64
    → (m' : Memories) × (flush_caches n m ≡ some m') × IsFlushed n block m m'
unfolding flush_caches
flush_caches_lem n m {block} at full small =
    let (flushed, ran, size, bytes, clear) =
      flush_block_lem (m.iteration_memory_size * m.nb_kernel_iteration % 2 ^ 64) block full
        (omega (arith, full, small)) in
    (
      record m { memory = set m.memory n flushed },
      rw (at, ran) refl,
      record {
        others = λ k other. get_elem?-set_ne m.memory n k flushed other;
        flushed = flushed;
        own = get_elem?-set_self m.memory n flushed (lt_of_get_elem? m.memory n at);
        size = size;
        bytes = bytes;
        overhead = refl;
        clear = λ all_clear.
            ap (λ (mem : List (List ℕ)). record m { memory = mem })
              (ap (λ b. set m.memory n b) (clear all_clear) ∙ set-same m.memory n at);
      },
    )
