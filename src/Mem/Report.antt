-- ===== src/Mem/Report.antt =====
-- sw/os/mem.c: what `k_mem_dump` reports of a valid pool.
use zeitlos.Prelude.{
  ℕ, ◌+◌, ◌-◌, ◌^◌, ◌≤◌, ◌<◌, ◌≡◌, true, false, List, [], ◌∷◌, arith, length, Bool-cases, inl, inr,
  if◌then◌else◌,
}
use zeitlos.Mem.{Block, Pool, mem_base, Stats, count_block, dump_walk, k_mem_dump, free_total}
use zeitlos.Prelude.{max}
use zeitlos.Mem.Layout.{Tiles, Tiles-le, IsValid}
use zeitlos.Mem.Live.{live}

abbrev pub bytes : List Block → ℕ
bytes [] = 0
bytes (b ∷ bs) = b.size + bytes bs

-- The largest free block, by a plain recursion.
abbrev pub largest : List Block → ℕ
largest [] = 0
largest (b ∷ bs) = if b.used then largest bs else max b.size (largest bs)

bytes-live-le : (s e : ℕ) (bs : List Block) → Tiles s e bs → bytes (live bs) + s ≤ e
bytes-live-le s e [] t = omega arith
bytes-live-le s e (b ∷ bs) t = ground (arith, bytes-live-le (s + b.size) e bs t.2)

count_used :
    (acc : Stats) (b : Block)
    → b.used ≡ true
    → acc.total + b.size < 2 ^ 32
    → acc.used + b.size < 2 ^ 32
    → let c = count_block acc b in
      (c.total ≡ acc.total + b.size)
      × (c.used ≡ acc.used + b.size)
      × (c.largest_free ≡ acc.largest_free)
      × (c.used_blocks ≡ acc.used_blocks + 1)
      × (c.free_blocks ≡ acc.free_blocks)
unfolding count_block
count_used acc b u h k = ground arith

count_free :
    (acc : Stats) (b : Block)
    → b.used ≡ false
    → acc.total + b.size < 2 ^ 32
    → let c = count_block acc b in
      (c.total ≡ acc.total + b.size)
      × (c.used ≡ acc.used)
      × (c.largest_free ≡ max acc.largest_free b.size)
      × (c.used_blocks ≡ acc.used_blocks)
      × (c.free_blocks ≡ acc.free_blocks + 1)
unfolding count_block
count_free acc b u h = ground arith

dump_walk_lem :
    (acc : Stats) (bs : List Block) (s e : ℕ)
    → Tiles s e bs
    → acc.used ≤ acc.total
    → acc.total + (e - s) < 2 ^ 32
    → let r = dump_walk acc bs in
      (r.total ≡ acc.total + (e - s))
      × (r.used ≡ acc.used + bytes (live bs))
      × (r.largest_free ≡ max acc.largest_free (largest bs))
      × (r.used_blocks ≡ acc.used_blocks + length (live bs))
      × (r.used_blocks + r.free_blocks ≡ acc.used_blocks + acc.free_blocks + length bs)
unfolding dump_walk
dump_walk_lem acc [] s e t u h = omega arith
dump_walk_lem acc (b ∷ bs) s e t u h =
    let le = Tiles-le (s + b.size) e bs t.2 in
    elim (Bool-cases b.used) [
      | inl used ↦
          let c = count_used acc b used (omega arith) (omega arith) in
          let ih =
            dump_walk_lem (count_block acc b) bs (s + b.size) e t.2 (omega arith) (omega arith) in
          ground (arith, le, c, ih)
      | inr free ↦
          let c = count_free acc b free (omega arith) in
          let ih =
            dump_walk_lem (count_block acc b) bs (s + b.size) e t.2 (omega arith) (omega arith) in
          ground (arith, le, c, ih)
    ]

-- On a valid pool the report's total is the size of the pool, its used total the bytes of the blocks
-- in use, its free total what is left of them, its largest free block the maximum over the free
-- blocks, and its two block counts add up to all blocks.
pub k_mem_dump_lem :
    (total : ℕ) (p : Pool)
    → IsValid total p
    → let r = k_mem_dump p in
      (r.total ≡ total)
      × (r.used ≡ bytes (live p.blocks))
      × (free_total r + bytes (live p.blocks) ≡ total)
      × (r.largest_free ≡ largest p.blocks)
      × (r.used_blocks ≡ length (live p.blocks))
      × (r.used_blocks + r.free_blocks ≡ length p.blocks)
unfolding k_mem_dump free_total
k_mem_dump_lem total p v =
    let zero : Stats = record {
      total = 0;
      used = 0;
      largest_free = 0;
      used_blocks = 0;
      free_blocks = 0;
    } in
    let walk =
      dump_walk_lem zero p.blocks mem_base (mem_base + total) v.tiles (omega arith)
        (omega (arith, v.below)) in
    let le = bytes-live-le mem_base (mem_base + total) p.blocks v.tiles in
    ground (arith, walk, le, v.below)
