-- ===== src/Mem.antt =====
-- The kernel's memory pool (sw/os/mem.c, sw/os/mem.h): a list of blocks in address order, whose
-- descriptors come from a fixed table that is never refilled. The linked list is a list of blocks;
-- the `prev` pointer of a walk is the block before the tail that the walk stands at.
pub mod Layout
pub mod Valid
pub mod Live
pub mod Release
pub mod Holds
pub mod Shape
pub mod Fit
pub mod Exhaust
pub mod Report
mod Tests
use zeitlos.Prelude.{
  ℕ, ◌+◌, ◌-◌, ◌≤◌, ◌<◌, Bool, true, false, ◌&&◌, not, Option, none, some, List, [], ◌∷◌, ltb, leb,
  ◌==◌, if◌then◌else◌, add32, sub32, u32_mod, bit_and,
}

-- `k_mem_block_t`, without the link.
pub record Block : Type 0 where
  pub start : ℕ
  pub size : ℕ
  pub used : Bool

-- `block_list` and `mem_block_count`.
pub record Pool : Type 0 where
  pub blocks : List Block
  pub block_count : ℕ

abbrev pub mem_base : ℕ
mem_base = 0x4000_0000

abbrev pub max_blocks : ℕ
max_blocks = 256

abbrev pub alignment : ℕ
alignment = 4096

abbrev pub min_block_size : ℕ
min_block_size = 32768

-- The new `mem_block_count`, or `none` for a full table.
unfoldable pub alloc_metadata : ℕ → Option ℕ
alloc_metadata n = if leb max_blocks n then none else some (n + 1)

-- `~(align - 1)` is the complement of a 32-bit word.
unfoldable pub align_up : ℕ → ℕ → ℕ
align_up val align = bit_and (sub32 (add32 val align) 1) (u32_mod - 1 - sub32 align 1)

-- A fresh pool has a descriptor for its first block: the table is empty before.
unfoldable pub k_mem_init : ℕ → Pool
k_mem_init total_size = record {
  blocks = record { start = mem_base; size = total_size; used = false } ∷ [];
  block_count = 1;
}

-- What a walk of `k_mem_alloc` returns: the pointer (`none` for NULL), the list and the count.
abbrev pub Walk : Type 0
Walk = Option ℕ × List Block × ℕ

-- The remainder of a block that is longer than the request becomes a free block behind it.
unfoldable pub split : ℕ → Block → List Block → ℕ → Walk
split size blk next n =
    if ltb size blk.size
    then (elim (alloc_metadata n) [
      | none ↦ (none, blk ∷ next, n)
      | some n' ↦
          let rem : Block = record {
            start = add32 blk.start size;
            size = sub32 blk.size size;
            used = false;
          } in
          (some blk.start, record blk { size = size; used = true } ∷ rem ∷ next, n')
    ])
    else (some blk.start, record blk { used = true } ∷ next, n)

-- Space before the first aligned address becomes a free block of its own.
unfoldable pub carve : ℕ → ℕ → Block → List Block → ℕ → Walk
carve size aligned_start blk next n =
    let padding = sub32 aligned_start blk.start in
    if ltb 0 padding
    then (elim (alloc_metadata n) [
      | none ↦ (none, blk ∷ next, n)
      | some n' ↦
          let pre : Block = record { start = blk.start; size = padding; used = false } in
          let cut : Block = record blk { start = aligned_start; size = sub32 blk.size padding } in
          let (r, rest, n'') = split size cut next n' in (r, pre ∷ rest, n'')
    ])
    else split size blk next n

-- Does the block take the request?
unfoldable pub fits : ℕ → Block → Bool
fits size blk =
    not blk.used && leb (add32 size (sub32 (align_up blk.start alignment) blk.start)) blk.size

unfoldable pub alloc_walk : ℕ → List Block → ℕ → Walk
alloc_walk size [] n = (none, [], n)
alloc_walk size (blk ∷ next) n =
    let (r, rest, n') = alloc_walk size next n in
    if fits size blk
    then carve size (align_up blk.start alignment) blk next n
    else (r, blk ∷ rest, n')

-- The size that is looked for.
unfoldable pub rounded : ℕ → ℕ
rounded size =
    let aligned = align_up size alignment in
    if ltb aligned min_block_size then min_block_size else aligned

unfoldable pub k_mem_alloc : ℕ → Pool → Option ℕ × Pool
k_mem_alloc size p =
    let (r, blocks, n) = alloc_walk (rounded size) p.blocks p.block_count in
    (r, record { blocks = blocks; block_count = n })

-- Coalescing with the next block, and then with the previous one.
pub merge_next : Block → List Block → List Block
merge_next blk [] = blk ∷ []
merge_next blk (n ∷ ns) =
    if not n.used then record blk { size = add32 blk.size n.size } ∷ ns else blk ∷ n ∷ ns

pub merge_prev : Block → List Block → List Block
merge_prev prev [] = prev ∷ []
merge_prev prev (blk ∷ next) =
    if not prev.used
    then record prev { size = add32 prev.size blk.size } ∷ next
    else prev ∷ blk ∷ next

pub is_target : ℕ → Block → Bool
is_target addr blk = blk.used && blk.start == addr

-- The walk of `k_mem_free` behind its first step: `prev` is in the result.
pub free_walk : ℕ → Block → List Block → List Block
free_walk addr prev [] = prev ∷ []
free_walk addr prev (blk ∷ next) =
    if is_target addr blk
    then merge_prev prev (merge_next (record blk { used = false }) next)
    else prev ∷ free_walk addr blk next

pub free_blocks : ℕ → List Block → List Block
free_blocks addr [] = []
free_blocks addr (blk ∷ next) =
    if is_target addr blk
    then merge_next (record blk { used = false }) next
    else free_walk addr blk next

pub k_mem_free : ℕ → Pool → Pool
k_mem_free addr p = record p { blocks = free_blocks addr p.blocks }

-- The sums that `k_mem_dump` prints.
pub record Stats : Type 0 where
  pub total : ℕ
  pub used : ℕ
  pub largest_free : ℕ
  pub used_blocks : ℕ
  pub free_blocks : ℕ

pub count_block : Stats → Block → Stats
count_block s blk =
    if blk.used
    then record s {
      total = add32 s.total blk.size;
      used = add32 s.used blk.size;
      used_blocks = s.used_blocks + 1;
    }
    else record s {
      total = add32 s.total blk.size;
      largest_free = if ltb s.largest_free blk.size then blk.size else s.largest_free;
      free_blocks = s.free_blocks + 1;
    }

pub dump_walk : Stats → List Block → Stats
dump_walk s [] = s
dump_walk s (blk ∷ next) = dump_walk (count_block s blk) next

pub k_mem_dump : Pool → Stats
k_mem_dump p =
    dump_walk (record { total = 0; used = 0; largest_free = 0; used_blocks = 0; free_blocks = 0 })
      p.blocks

-- The free total that it prints.
pub free_total : Stats → ℕ
free_total s = sub32 s.total s.used
