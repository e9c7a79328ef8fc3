-- ===== src/Mem/Shape.antt =====
-- sw/os/mem.c: pools whose blocks begin at pages. The pool that `k_mem_init` makes of a whole number
-- of pages is one, and stays one, with no two free blocks side by side.
use zeitlos.Prelude.{
  ℕ, ◌+◌, ◌%◌, ◌^◌, ◌≤◌, ◌<◌, ◌≡◌, refl, true, false, List, [], ◌∷◌, arith, Bool-cases, inl, inr,
  ◌⊎◌, leb, not, ◌&&◌,
}
use zeitlos.Mem.{
  Block, Pool, mem_base, alignment, alloc_metadata, align_up, k_mem_init, split, carve, fits,
  alloc_walk, rounded, k_mem_alloc, merge_next, merge_prev, free_walk, free_blocks, k_mem_free,
}
use zeitlos.Prelude.{All}
use zeitlos.Mem.Layout.{Tiles, Tiles-le, mirror, IsValid, align_up_page, rounded-le}

abbrev pub Paged : List Block → Type 0
Paged bs = All (λ b. b.start % 4096 ≡ 0) bs

-- No two free blocks side by side.
abbrev pub Apart : Block → List Block → Type 0
Apart b [] = Unit {0}
Apart b (n ∷ ns) = (b.used ≡ true) ⊎ (n.used ≡ true)

abbrev pub Coalesced : List Block → Type 0
Coalesced [] = Unit {0}
Coalesced (b ∷ bs) = Apart b bs × Coalesced bs

-- At a page nothing is carved off the front of a block.
pub carve_page :
    (size : ℕ) (b : Block) (next : List Block) (n : ℕ)
    → b.start % 4096 ≡ 0
    → b.start ≤ mirror
    → carve size (align_up b.start alignment) b next n ≡ split size b next n
unfolding carve
carve_page size b next n h le = ground (arith, align_up_page b.start)

pub fits_page :
    (size : ℕ) (b : Block)
    → b.start % 4096 ≡ 0
    → b.start ≤ mirror
    → size < 2 ^ 32
    → fits size b ≡ (not b.used && leb size b.size)
unfolding fits
fits_page size b h le small = ground (arith, align_up_page b.start)

pub rounded-Page : (size : ℕ) → rounded size % 4096 ≡ 0
unfolding rounded
rounded-Page size = ground (arith, align_up_page size)

-- A list that begins with a block as free as `b` is as far apart from its neighbours as `b`.
split_shape :
    (size : ℕ) (b : Block) (next : List Block) (n : ℕ)
    → b.used ≡ false
    → size % 4096 ≡ 0
    → Paged (b ∷ next)
    → Coalesced (b ∷ next)
    → let l = (split size b next n).1 in Paged l × Coalesced l
unfolding split alloc_metadata
split_shape size b [] n u al p c = ground arith
split_shape size b (m ∷ ms) n u al p c = ground arith

Apart-used : (b : Block) (l : List Block) → b.used ≡ true → Apart b l
Apart-used b [] u = tt
Apart-used b (n ∷ ns) u = inl u

pub fits_used : (size : ℕ) (b : Block) → b.used ≡ true → fits size b ≡ false
unfolding fits
fits_used size b u = ground arith

-- The walk leaves a block in use where it was.
alloc_walk-Apart :
    (size : ℕ) (b : Block) (bs : List Block) (n : ℕ) → Apart b bs → Apart b (alloc_walk size bs n).1
unfolding alloc_walk
alloc_walk-Apart size b [] n a = tt
alloc_walk-Apart size b (m ∷ ms) n (inl u) = Apart-used b (alloc_walk size (m ∷ ms) n).1 u
alloc_walk-Apart size b (m ∷ ms) n (inr u) = rw (fits_used size m u) (inr u)

alloc_walk_shape :
    (size : ℕ) (bs : List Block) (n s e : ℕ)
    → Tiles s e bs
    → e ≤ mirror
    → size % 4096 ≡ 0
    → size < 2 ^ 32
    → Paged bs
    → Coalesced bs
    → let l = (alloc_walk size bs n).1 in Paged l × Coalesced l
unfolding alloc_walk
alloc_walk_shape size [] n s e t h al small p c = (tt, tt)
alloc_walk_shape size (b ∷ bs) n s e t h al small p c =
    let le : b.start ≤ mirror = omega (arith, Tiles-le (s + b.size) e bs t.2) in
    let ih = alloc_walk_shape size bs n (s + b.size) e t.2 h al small p.1 c.1 in
    elim (Bool-cases (fits size b)) [
      | inl fit ↦
          let free : b.used ≡ false = ground (arith, fits_page size b p.0 le small) in
          rw (fit, carve_page size b bs n p.0 le) (split_shape size b bs n free al p c)
      | inr miss ↦ rw miss (((p.0, ih.0), (alloc_walk-Apart size b bs n c.0, ih.1)))
    ]

-- The memory of a whole number of pages starts out paged and coalesced.
pub k_mem_init_shape :
    (total : ℕ) → Paged (k_mem_init total).blocks × Coalesced (k_mem_init total).blocks
unfolding k_mem_init
k_mem_init_shape total = ((refl, tt), (tt, tt))

-- `k_mem_alloc` keeps every block at a page, and leaves no two free blocks side by side.
pub k_mem_alloc_shape :
    (total size : ℕ) (p : Pool)
    → IsValid total p
    → Paged p.blocks
    → Coalesced p.blocks
    → let q = (k_mem_alloc size p).1 in Paged q.blocks × Coalesced q.blocks
unfolding k_mem_alloc
k_mem_alloc_shape total size p v =
    alloc_walk_shape (rounded size) p.blocks p.block_count mem_base (mem_base + total) v.tiles
      v.below (rounded-Page size) (omega (arith, rounded-le size))

-- What a freed block becomes with its next neighbour.
merge_next_shape :
    (b : Block) (next : List Block)
    → b.used ≡ false
    → Paged (b ∷ next)
    → Coalesced next
    → let l = merge_next b next in Paged l × Coalesced l
unfolding merge_next
merge_next_shape b [] u p c = ground arith
merge_next_shape b (n ∷ []) u p c = ground arith
merge_next_shape b (n ∷ m ∷ ms) u p c = ground arith

merge_shape :
    (prev b : Block) (next : List Block)
    → b.used ≡ false
    → Paged (prev ∷ b ∷ next)
    → Coalesced next
    → let l = merge_prev prev (merge_next b next) in Paged l × Coalesced l
unfolding merge_prev merge_next
merge_shape prev b [] u p c = ground arith
merge_shape prev b (n ∷ []) u p c = ground arith
merge_shape prev b (n ∷ m ∷ ms) u p c = ground arith

-- The head of a walk's result is `prev`, or `prev` with more space.
free_walk-Apart :
    (addr : ℕ) (a prev : Block) (bs : List Block)
    → (a.used ≡ true) ⊎ (prev.used ≡ true)
    → Apart a (free_walk addr prev bs)
unfolding free_walk merge_prev merge_next
free_walk-Apart addr a prev [] h = h
free_walk-Apart addr a prev (b ∷ []) h = ground arith
free_walk-Apart addr a prev (b ∷ n ∷ ns) h = ground arith

free_walk_shape :
    (addr : ℕ) (prev : Block) (bs : List Block)
    → Paged (prev ∷ bs)
    → Coalesced (prev ∷ bs)
    → let l = free_walk addr prev bs in Paged l × Coalesced l
unfolding free_walk
free_walk_shape addr prev [] p c = (p, c)
free_walk_shape addr prev (b ∷ bs) p c = ground (
  arith,
  free_walk_shape addr b bs p.1 c.1,
  merge_shape prev (record b { used = false }) bs refl p c.1.1,
  free_walk-Apart addr prev b bs c.0,
)

free_blocks_shape :
    (addr : ℕ) (bs : List Block)
    → Paged bs
    → Coalesced bs
    → let l = free_blocks addr bs in Paged l × Coalesced l
unfolding free_blocks
free_blocks_shape addr [] p c = (p, c)
free_blocks_shape addr (b ∷ bs) p c = ground (
  arith,
  free_walk_shape addr b bs p c,
  merge_next_shape (record b { used = false }) bs refl p c.1,
)

-- `k_mem_free` coalesces completely: it too keeps every block at a page and leaves no two free
-- blocks side by side.
pub k_mem_free_shape :
    (addr : ℕ) (p : Pool)
    → Paged p.blocks
    → Coalesced p.blocks
    → let q = k_mem_free addr p in Paged q.blocks × Coalesced q.blocks
unfolding k_mem_free
k_mem_free_shape addr p = free_blocks_shape addr p.blocks
