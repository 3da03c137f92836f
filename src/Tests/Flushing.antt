-- ===== src/Tests/Flushing.antt =====
-- flushCaches of src/KernelRunner.cpp on the memory of two threads, 3 iterations of 10 bytes.
use lpowerprobe.Common.{◌≡◌, refl, some, replicate, arith}
use lpowerprobe.KernelRunner.Memory.{Memories, new_memories, flush_caches}
use lpowerprobe.KernelRunner.Flush.{IsFlushed, flush_caches_lem}

abbrev small_memories : Memories
small_memories = record {
  memory = replicate 2 (replicate 30 0);
  overhead_memory = replicate 2 (replicate 7 0);
  iteration_memory_size = 10;
  nb_kernel_iteration = 3;
}

small_memories_made : new_memories 7 3 10 2 ≡ small_memories
unfolding new_memories
small_memories_made = refl

flush_caches_lem_example :
    (m' : Memories) × (flush_caches 1 small_memories ≡ some m')
    × IsFlushed 1 (replicate 30 0) small_memories m'
flush_caches_lem_example = flush_caches_lem 1 small_memories refl refl (omega arith)
