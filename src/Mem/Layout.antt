-- ===== src/Mem/Layout.antt =====
-- sw/os/mem.c: the blocks of the pool tile its memory. Every operation keeps that.
use zeitlos.Prelude.{
  ℕ, ◌+◌, ◌-◌, ◌*◌, ◌/◌, ◌%◌, ◌^◌, ◌≤◌, ◌<◌, ◌≡◌, refl, true, false, List, [], ◌∷◌, arith, length,
  bit_and-page, add32, sub32,
}
use zeitlos.Mem.{
  Block, Pool, mem_base, max_blocks, alignment, alloc_metadata, align_up, split, carve, fits,
  alloc_walk, rounded,
}

-- The blocks follow one another without a gap from `s` to `e`, none of them empty.
abbrev pub Tiles : ℕ → ℕ → List Block → Type 0
Tiles s e [] = s ≡ e
Tiles s e (b ∷ bs) = (b.start ≡ s) × (0 < b.size) × Tiles (s + b.size) e bs

-- Where the processes' mirror of the memory begins: no pool reaches it.
abbrev pub mirror : ℕ
mirror = 0x8000_0000

pub record IsValid (total : ℕ) (p : Pool) : Type 0 where
  pub tiles : Tiles mem_base (mem_base + total) p.blocks
  pub below : mem_base + total ≤ mirror
  pub counted : length p.blocks ≤ p.block_count
  pub in_table : p.block_count ≤ max_blocks

pub Tiles-le : (s e : ℕ) (bs : List Block) → Tiles s e bs → s ≤ e
Tiles-le s e [] t = omega arith
Tiles-le s e (b ∷ bs) t = omega (arith, Tiles-le (s + b.size) e bs t.2)

-- What `k_mem_align_up` computes for a page, on every word.
pub align_up_page : (x : ℕ) → align_up x alignment ≡ (x + 4095) % 2 ^ 32 / 4096 * 4096
unfolding align_up
align_up_page x = omega (arith, bit_and-page (sub32 (add32 x 4096) 1) (omega arith))

pub rounded-pos : (size : ℕ) → 32768 ≤ rounded size
unfolding rounded
rounded-pos size = ground arith

pub rounded-le : (size : ℕ) → rounded size ≤ 2 ^ 32 - 4096
unfolding rounded
rounded-le size = ground (arith, align_up_page size)

pub Tiles-at : (s s' e : ℕ) (bs : List Block) → Tiles s e bs → s ≡ s' → Tiles s' e bs
Tiles-at s s' e bs t p = rw (← p) t

pub split-Tiles :
    (size : ℕ) (b : Block) (next : List Block) (n s e : ℕ)
    → Tiles s e (b ∷ next)
    → e ≤ mirror
    → 0 < size
    → Tiles s e (split size b next n).1
unfolding split
split-Tiles size b next n s e t h pos = ground (
  arith,
  Tiles-le (s + b.size) e next t.2,
  Tiles-at (s + b.size) (s + size + sub32 b.size size) e next t.2,
)

-- Below the mirror rounding up stays near, and wraps nothing.
pub align_up_near :
    (x : ℕ)
    → x ≤ mirror
    → (x ≤ align_up x alignment)
      × (align_up x alignment ≤ x + 4095)
      × (align_up x alignment % 4096 ≡ 0)
align_up_near x h = omega (arith, align_up_page x)

-- A block that fits is free, and holds the request behind its first aligned address.
pub fits_room :
    (size : ℕ) (b : Block)
    → b.start ≤ mirror
    → size ≤ 2 ^ 32 - 4096
    → fits size b ≡ true
    → (b.used ≡ false)
      × (sub32 (align_up b.start alignment) b.start ≡ align_up b.start alignment - b.start)
      × (size + (align_up b.start alignment - b.start) ≤ b.size)
unfolding fits
fits_room size b h big fit = ground (arith, align_up_near b.start h)

-- The block that a carved one becomes, behind its padding.
abbrev pub cut : Block → Block
cut b = record b {
  start = align_up b.start alignment;
  size = sub32 b.size (sub32 (align_up b.start alignment) b.start);
}

pub carve-Tiles :
    (size : ℕ) (b : Block) (next : List Block) (n s e : ℕ)
    → Tiles s e (b ∷ next)
    → e ≤ mirror
    → 0 < size
    → size ≤ 2 ^ 32 - 4096
    → fits size b ≡ true
    → Tiles s e (carve size (align_up b.start alignment) b next n).1
unfolding carve alloc_metadata
carve-Tiles size b next n s e t h pos big fit =
    let room = fits_room size b (omega (arith, Tiles-le (s + b.size) e next t.2)) big fit in
    let near = align_up_near b.start (omega (arith, Tiles-le (s + b.size) e next t.2)) in
    let a = align_up b.start alignment in
    let le = Tiles-le (s + b.size) e next t.2 in
    let tail = Tiles-at (s + b.size) (a + (cut b).size) e next t.2 (omega arith) in
    let behind =
      Tiles-at a (s + (a - b.start)) e (split size (cut b) next (n + 1)).1
        (split-Tiles size (cut b) next (n + 1) a e (refl, omega arith, tail) h pos) (omega arith) in
    ground (arith, split-Tiles size b next n s e t h pos)

pub alloc_walk-Tiles :
    (size : ℕ) (bs : List Block) (n s e : ℕ)
    → Tiles s e bs
    → e ≤ mirror
    → 0 < size
    → size ≤ 2 ^ 32 - 4096
    → Tiles s e (alloc_walk size bs n).1
unfolding alloc_walk
alloc_walk-Tiles size [] n s e t h pos big = t
alloc_walk-Tiles size (b ∷ bs) n s e t h pos big = ground (
  arith,
  alloc_walk-Tiles size bs n (s + b.size) e t.2 h pos big,
  carve-Tiles size b bs n s e t h pos big,
)
