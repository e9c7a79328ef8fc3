-- ===== src/Mem/Fit.antt =====
-- sw/os/mem.c: when `k_mem_alloc` succeeds, and what its descriptor table does to it.
use zeitlos.Prelude.{
  ℕ, ◌+◌, ◌-◌, ◌^◌, ◌≤◌, ◌<◌, ◌≡◌, refl, Bool, true, false, Option, none, some, List, [], ◌∷◌,
  arith, leb,
}
use zeitlos.Mem.{
  Block, Pool, mem_base, max_blocks, alloc_metadata, align_up, split, alloc_walk, rounded,
  k_mem_alloc, k_mem_dump,
}
use zeitlos.Mem.Layout.{Tiles, Tiles-le, mirror, IsValid, rounded-le, rounded-pos, align_up_page}
use zeitlos.Mem.Shape.{Paged, carve_page, fits_page}
use zeitlos.Mem.Report.{largest, k_mem_dump_lem}

-- Whether a request was granted.
abbrev pub granted : Option ℕ → Bool
granted none = false
granted (some a) = true

granted-alloc_walk :
    (size : ℕ) (bs : List Block) (n s e : ℕ)
    → Tiles s e bs
    → e ≤ mirror
    → 0 < size
    → size < 2 ^ 32
    → n < max_blocks
    → Paged bs
    → granted (alloc_walk size bs n).0 ≡ leb size (largest bs)
unfolding alloc_walk split alloc_metadata
granted-alloc_walk size [] n s e t h pos small room p = ground arith
granted-alloc_walk size (b ∷ bs) n s e t h pos small room p =
    let le : b.start ≤ mirror = omega (arith, Tiles-le (s + b.size) e bs t.2) in
    ground (
      arith,
      carve_page size b bs n p.0 le,
      fits_page size b p.0 le small,
      granted-alloc_walk size bs n (s + b.size) e t.2 h pos small room p.1,
    )

-- On a valid paged pool with a descriptor to spare, a request is granted exactly when its rounded
-- size is at most the largest free block that `k_mem_dump` reports.
pub granted-k_mem_alloc :
    (total size : ℕ) (p : Pool)
    → IsValid total p
    → Paged p.blocks
    → p.block_count < max_blocks
    → granted (k_mem_alloc size p).0 ≡ leb (rounded size) (k_mem_dump p).largest_free
unfolding k_mem_alloc
granted-k_mem_alloc total size p v paged room = rw ((k_mem_dump_lem total p v).3) (
    granted-alloc_walk (rounded size) p.blocks p.block_count mem_base (mem_base + total) v.tiles
      v.below (omega (arith, rounded-pos size)) (omega (arith, rounded-le size)) room paged)

rounded_last_page : (size : ℕ) → 2 ^ 32 - 4096 < size → size < 2 ^ 32 → rounded size ≡ 32768
unfolding rounded
rounded_last_page size h k = ground (arith, align_up_page size)

rounded_byte : rounded 1 ≡ 32768
unfolding rounded align_up
rounded_byte = refl

-- The rounding of a request in the last page of the word wraps to nothing, so that the request is
-- taken for one of a single byte: what it is granted is 32 KB.
pub k_mem_alloc_wraps :
    (size : ℕ) (p : Pool)
    → 2 ^ 32 - 4096 < size
    → size < 2 ^ 32
    → (k_mem_alloc size p ≡ k_mem_alloc 1 p) × (rounded size ≡ 32768)
unfolding k_mem_alloc
k_mem_alloc_wraps size p h k = let e = rounded_last_page size h k in (rw (e, rounded_byte) refl, e)
