-- ===== src/KernelRunner/Memory.antt =====
-- The memory of src/KernelRunner.cpp: one block of bytes for each thread, which flushCaches reads page by
-- page.
use lpowerprobe.Common.{
  ℕ, zero, suc, ◌+◌, ◌-◌, ◌*◌, ◌/◌, ◌%◌, ◌^◌, Option, none, some, List, replicate, get_elem?, set,
  ◌>>=◌, ltb, ◌==◌, if◌then◌else◌,
}

abbrev pub overhead_kerneliter : ℕ
overhead_kerneliter = 1

pub record Memories : Type 0 where
  pub memory : List (List ℕ)  -- chars, as unsigned
  pub overhead_memory : List (List ℕ)
  pub iteration_memory_size : ℕ  -- size_t
  pub nb_kernel_iteration : ℕ  -- unsigned long int

-- The constructor. `overhead_memory_size` is never set: any number can stand there.
unfoldable pub new_memories : ℕ → ℕ → ℕ → ℕ → Memories
new_memories overhead_memory_size nb_kernel_iteration iteration_memory_size nb_process = record {
  memory =
      replicate nb_process (replicate (iteration_memory_size * nb_kernel_iteration % 2 ^ 64) 0);
  overhead_memory =
      replicate nb_process (replicate (overhead_memory_size * overhead_kerneliter % 2 ^ 64) 0);
  iteration_memory_size = iteration_memory_size;
  nb_kernel_iteration = nb_kernel_iteration;
}

-- The loop over the pages from byte `i` on, on fuel: `none` is a read outside, or no fuel.
unfoldable pub sum_pages : ℕ → List ℕ → ℕ → ℕ → ℕ → Option ℕ
sum_pages zero block size i c = none
sum_pages (suc fuel) block size i c =
    let rest = λ (x : ℕ). sum_pages fuel block size ((i + 4096) % 2 ^ 64) ((c + x) % 2 ^ 8) in
    if ltb i size then (do x ← get_elem? block i; rest x) else some c

-- A char, which is signed, as a size_t.
unfoldable pub char_to_size : ℕ → ℕ
char_to_size c = if ltb c 128 then c else c + (2 ^ 64 - 2 ^ 8)

-- `flushCaches` on the block of one thread.
unfoldable pub flush_block : ℕ → List ℕ → Option (List ℕ)
unfolding sum_pages char_to_size
flush_block size block = if size == 0 then some block else (do
  c ← sum_pages (size / 4096 + 2) block size 0 0
  some (set block 0 (char_to_size c / size % 2 ^ 8)))

unfoldable pub flush_caches : ℕ → Memories → Option Memories
unfolding flush_block
flush_caches nb_process m = do
  block ← get_elem? m.memory nb_process
  flushed ← flush_block (m.iteration_memory_size * m.nb_kernel_iteration % 2 ^ 64) block
  some (record m { memory = set m.memory nb_process flushed })
