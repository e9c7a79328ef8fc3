-- ===== src/Mem/Tests.antt =====
-- sw/os/mem.c: runs on a pool of 1 MB, and the theorems there.
use zeitlos.Prelude.{ℕ, ◌+◌, ◌≡◌, refl, true, false, none, some, [], ◌∷◌, arith, leb}
use zeitlos.Mem.{
  Pool, mem_base, align_up, alloc_metadata, k_mem_init, split, carve, fits, alloc_walk, rounded,
  k_mem_alloc, merge_next, is_target, free_blocks, k_mem_free, k_mem_dump,
}
use zeitlos.Mem.Layout.{IsValid}
use zeitlos.Mem.Valid.{k_mem_init-IsValid, k_mem_alloc-IsValid}
use zeitlos.Mem.Live.{live, Outcome, k_mem_alloc_grants}
use zeitlos.Mem.Release.{free-alloc_live}
use zeitlos.Mem.Shape.{Paged, Coalesced, k_mem_init_shape, k_mem_alloc_shape}
use zeitlos.Mem.Fit.{granted, granted-k_mem_alloc, k_mem_alloc_wraps}

abbrev megabyte : ℕ
megabyte = 0x10_0000

abbrev idle : Pool
idle = k_mem_init megabyte

abbrev busy : Pool
busy = record {
  blocks =
      record { start = 0x4000_0000; size = 40960; used = true }
      ∷ record { start = 0x4000_a000; size = 1007616; used = false }
      ∷ [];
  block_count = 2;
}

-- A request of 40,000 bytes is granted ten pages.
k_mem_alloc_first : k_mem_alloc 40000 idle ≡ (some 0x4000_0000, busy)
unfolding k_mem_alloc k_mem_init rounded alloc_walk fits carve split alloc_metadata align_up
k_mem_alloc_first = refl

k_mem_free_last : (k_mem_free 0x4000_0000 busy).blocks ≡ idle.blocks
unfolding k_mem_free k_mem_init free_blocks is_target merge_next
k_mem_free_last = refl

-- A request that no block holds.
k_mem_alloc_refuses : (k_mem_alloc 0x20_0000 busy).0 ≡ none
unfolding k_mem_alloc rounded alloc_walk fits align_up
k_mem_alloc_refuses = refl

idle-IsValid : IsValid megabyte idle
idle-IsValid = k_mem_init-IsValid megabyte (omega arith) (omega arith)

busy-IsValid : IsValid megabyte busy
busy-IsValid = rw k_mem_alloc_first at (k_mem_alloc-IsValid megabyte 40000 idle idle-IsValid)

busy_shape : Paged busy.blocks × Coalesced busy.blocks
busy_shape =
    let (p, c) = k_mem_init_shape megabyte in
    rw k_mem_alloc_first at (k_mem_alloc_shape megabyte 40000 idle idle-IsValid p c)

k_mem_alloc_grants_example :
    let (r, q) = k_mem_alloc 50000 busy in
    Outcome (rounded 50000) mem_base (mem_base + megabyte) (live busy.blocks) r (live q.blocks)
k_mem_alloc_grants_example = k_mem_alloc_grants megabyte 50000 busy busy-IsValid

free-alloc_live_example : live (k_mem_free 0x4000_0000 busy).blocks ≡ live idle.blocks
free-alloc_live_example =
    free-alloc_live megabyte 40000 0x4000_0000 idle busy idle-IsValid k_mem_alloc_first

granted-k_mem_alloc_example :
    granted (k_mem_alloc 50000 busy).0 ≡ leb (rounded 50000) (k_mem_dump busy).largest_free
granted-k_mem_alloc_example =
    granted-k_mem_alloc megabyte 50000 busy busy-IsValid busy_shape.0 (omega arith)

k_mem_alloc_wraps_example :
    (k_mem_alloc 0xffff_f800 busy ≡ k_mem_alloc 1 busy) × (rounded 0xffff_f800 ≡ 32768)
k_mem_alloc_wraps_example = k_mem_alloc_wraps 0xffff_f800 busy (omega arith) (omega arith)
