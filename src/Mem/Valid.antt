-- ===== src/Mem/Valid.antt =====
-- sw/os/mem.c: the invariant of the pool, kept by every operation on every branch.
use zeitlos.Prelude.{ℕ, ◌+◌, ◌≤◌, ◌<◌, refl, false, List, [], ◌∷◌, arith, length, add32, sub32}
use zeitlos.Mem.{
  Block, Pool, mem_base, max_blocks, alignment, alloc_metadata, align_up, k_mem_init, split, carve,
  alloc_walk, rounded, k_mem_alloc, merge_next, merge_prev, free_walk, free_blocks, k_mem_free,
}
use zeitlos.Mem.Layout.{
  Tiles, Tiles-le, Tiles-at, mirror, IsValid, alloc_walk-Tiles, rounded-pos, rounded-le,
}

-- Descriptors in use never exceed those handed out, and those never the table.
split_count :
    (size : ℕ) (b : Block) (next : List Block) (n : ℕ)
    → n ≤ max_blocks
    → let (r, l, n') = split size b next n in
      (length l + n ≤ length next + 1 + n') × (n' ≤ max_blocks)
unfolding split alloc_metadata
split_count size b next n h = ground arith

carve_count :
    (size a : ℕ) (b : Block) (next : List Block) (n : ℕ)
    → n ≤ max_blocks
    → let (r, l, n') = carve size a b next n in
      (length l + n ≤ length next + 1 + n') × (n' ≤ max_blocks)
unfolding carve alloc_metadata
carve_count size a b next n h = ground (
  arith,
  split_count size b next n h,
  split_count size (record b { start = a; size = sub32 b.size (sub32 a b.start) }) next (n + 1),
)

alloc_walk_count :
    (size : ℕ) (bs : List Block) (n : ℕ)
    → n ≤ max_blocks
    → let (r, l, n') = alloc_walk size bs n in (length l + n ≤ length bs + n') × (n' ≤ max_blocks)
unfolding alloc_walk
alloc_walk_count size [] n h = omega arith
alloc_walk_count size (b ∷ bs) n h =
    ground
      (arith, alloc_walk_count size bs n h, carve_count size (align_up b.start alignment) b bs n h)

-- `k_mem_init` on a pool that stays below the mirror gives a valid pool.
pub k_mem_init-IsValid :
    (total : ℕ) → 0 < total → mem_base + total ≤ mirror → IsValid total (k_mem_init total)
unfolding k_mem_init
k_mem_init-IsValid total pos h = record {
  tiles = (refl, pos, refl);
  below = h;
  counted = omega arith;
  in_table = omega arith;
}

-- `k_mem_alloc` keeps the pool valid for every request, whether it grants the request, finds no
-- block, or runs out of descriptors half way.
pub k_mem_alloc-IsValid :
    (total size : ℕ) (p : Pool) → IsValid total p → IsValid total (k_mem_alloc size p).1
unfolding k_mem_alloc
k_mem_alloc-IsValid total size p v =
    let count = alloc_walk_count (rounded size) p.blocks p.block_count v.in_table in
    record {
      tiles =
          alloc_walk-Tiles (rounded size) p.blocks p.block_count mem_base (mem_base + total) v.tiles
            v.below (omega (arith, rounded-pos size)) (rounded-le size);
      below = v.below;
      counted = omega (arith, count, v.counted);
      in_table = count.1;
    }

module _ (e : ℕ) (h : e ≤ mirror) where
  merge_next-Tiles :
      (b : Block) (next : List Block) (s : ℕ) → Tiles s e (b ∷ next) → Tiles s e (merge_next b next)
  unfolding merge_next
  merge_next-Tiles b [] s t = t
  merge_next-Tiles b (n ∷ ns) s t =
      let le = Tiles-le (s + b.size + n.size) e ns t.2.2 in
      ground (
        arith,
        le,
        Tiles-at (s + b.size + n.size) (s + add32 b.size n.size) e ns t.2.2 (omega arith),
      )

  merge_prev-Tiles :
      (b : Block) (next : List Block) (s : ℕ) → Tiles s e (b ∷ next) → Tiles s e (merge_prev b next)
  unfolding merge_prev
  merge_prev-Tiles b [] s t = t
  merge_prev-Tiles b (n ∷ ns) s t =
      let le = Tiles-le (s + b.size + n.size) e ns t.2.2 in
      ground (
        arith,
        le,
        Tiles-at (s + b.size + n.size) (s + add32 b.size n.size) e ns t.2.2 (omega arith),
      )

  free_walk-Tiles :
      (addr : ℕ) (prev : Block) (bs : List Block) (s : ℕ)
      → Tiles s e (prev ∷ bs)
      → Tiles s e (free_walk addr prev bs)
  unfolding free_walk
  free_walk-Tiles addr prev [] s t = t
  free_walk-Tiles addr prev (b ∷ bs) s t = ground (
    arith,
    free_walk-Tiles addr b bs (s + prev.size) t.2,
    merge_prev-Tiles prev (merge_next (record b { used = false }) bs) s
        (t.0, t.1, merge_next-Tiles (record b { used = false }) bs (s + prev.size) t.2),
  )

  free_blocks-Tiles :
      (addr : ℕ) (bs : List Block) (s : ℕ) → Tiles s e bs → Tiles s e (free_blocks addr bs)
  unfolding free_blocks
  free_blocks-Tiles addr [] s t = t
  free_blocks-Tiles addr (b ∷ bs) s t =
      ground
        (arith, free_walk-Tiles addr b bs s t, merge_next-Tiles (record b { used = false }) bs s t)

length-merge_next : (b : Block) (next : List Block) → length (merge_next b next) ≤ length next + 1
unfolding merge_next
length-merge_next b [] = omega arith
length-merge_next b (n ∷ ns) = ground arith

length-merge_prev : (b : Block) (next : List Block) → length (merge_prev b next) ≤ length next + 1
unfolding merge_prev
length-merge_prev b [] = omega arith
length-merge_prev b (n ∷ ns) = ground arith

length-free_walk :
    (addr : ℕ) (prev : Block) (bs : List Block) → length (free_walk addr prev bs) ≤ length bs + 1
unfolding free_walk
length-free_walk addr prev [] = omega arith
length-free_walk addr prev (b ∷ bs) = ground (
  arith,
  length-free_walk addr b bs,
  length-merge_next (record b { used = false }) bs,
  length-merge_prev prev (merge_next (record b { used = false }) bs),
)

length-free_blocks : (addr : ℕ) (bs : List Block) → length (free_blocks addr bs) ≤ length bs
unfolding free_blocks
length-free_blocks addr [] = omega arith
length-free_blocks addr (b ∷ bs) =
    ground (arith, length-free_walk addr b bs, length-merge_next (record b { used = false }) bs)

-- `k_mem_free` keeps the pool valid for every address, one that starts no used block included.
pub k_mem_free-IsValid :
    (total addr : ℕ) (p : Pool) → IsValid total p → IsValid total (k_mem_free addr p)
unfolding k_mem_free
k_mem_free-IsValid total addr p v = record {
  tiles = free_blocks-Tiles (mem_base + total) v.below addr p.blocks mem_base v.tiles;
  below = v.below;
  counted = omega (arith, length-free_blocks addr p.blocks, v.counted);
  in_table = v.in_table;
}
