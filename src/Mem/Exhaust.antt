-- ===== src/Mem/Exhaust.antt =====
-- sw/os/mem.c: descriptors are handed out and never taken back, so that a pool wears out.
use zeitlos.Prelude.{ℕ, zero, suc, false, none, some, [], ◌∷◌}
use zeitlos.Mem.{Pool, mem_base, k_mem_alloc, k_mem_free}

-- An allocation and its release, if it was granted.
pub cycle : ℕ → Pool → Pool
cycle size p = let (r, q) = k_mem_alloc size p in elim r [ none ↦ q | some a ↦ k_mem_free a q ]

pub cycles : ℕ → ℕ → Pool → Pool
cycles zero size p = p
cycles (suc k) size p = cycles k size (cycle size p)

-- A pool that is one free block, with `n` descriptors handed out.
abbrev pub worn : ℕ → ℕ → Pool
worn total n = record {
  blocks = record { start = mem_base; size = total; used = false } ∷ [];
  block_count = n;
}
