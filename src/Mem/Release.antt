-- ===== src/Mem/Release.antt =====
-- sw/os/mem.c: which memory `k_mem_free` takes back.
use zeitlos.Prelude.{
  ℕ, ◌+◌, ◌≤◌, ◌<◌, ◌≡◌, ◌≢◌, ◌∙◌, sym, ap, refl, false, some, List, [], ◌∷◌, ◌++◌, arith,
  Bool-cases, inl, inr, ◌==◌, if◌then◌else◌,
}
use zeitlos.Mem.{
  Block, Pool, mem_base, rounded, k_mem_alloc, merge_next, merge_prev, is_target, free_walk,
  free_blocks, k_mem_free,
}
use zeitlos.Prelude.{All}
use zeitlos.Mem.Layout.{Tiles, IsValid}
use zeitlos.Mem.Live.{live, Grant, taken, k_mem_alloc_grants, live_used, live_free}

-- Without the first block at an address.
abbrev pub release : ℕ → List Block → List Block
release addr [] = []
release addr (b ∷ bs) = if b.start == addr then bs else b ∷ release addr bs

live-merge_next :
    (b : Block) (next : List Block) → b.used ≡ false → live (merge_next b next) ≡ live next
unfolding merge_next
live-merge_next b [] u = ground arith
live-merge_next b (n ∷ ns) u = ground arith

live-merge_prev :
    (prev b : Block) (next : List Block)
    → b.used ≡ false
    → live (merge_prev prev (merge_next b next)) ≡ live (prev ∷ next)
unfolding merge_prev merge_next
live-merge_prev prev b [] u = ground arith
live-merge_prev prev b (n ∷ ns) u = ground arith

live-free_walk :
    (addr : ℕ) (prev : Block) (bs : List Block)
    → is_target addr prev ≡ false
    → live (free_walk addr prev bs) ≡ release addr (live (prev ∷ bs))
unfolding free_walk is_target
live-free_walk addr prev [] h = ground arith
live-free_walk addr prev (b ∷ bs) h =
    ground
      (arith, live-free_walk addr b bs, live-merge_prev prev (record b { used = false }) bs refl)

live-free_blocks :
    (addr : ℕ) (bs : List Block) → live (free_blocks addr bs) ≡ release addr (live bs)
unfolding free_blocks is_target
live-free_blocks addr [] = refl
live-free_blocks addr (b ∷ bs) =
    ground (arith, live-free_walk addr b bs, live-merge_next (record b { used = false }) bs refl)

-- `k_mem_free` takes the block at the address out of those in use, and no other.
pub k_mem_free_releases :
    (addr : ℕ) (p : Pool) → live (k_mem_free addr p).blocks ≡ release addr (live p.blocks)
unfolding k_mem_free
k_mem_free_releases addr p = live-free_blocks addr p.blocks

free_walk_miss :
    (addr : ℕ) (prev : Block) (bs : List Block)
    → All (λ b. b.start ≢ addr) (live bs)
    → free_walk addr prev bs ≡ prev ∷ bs
unfolding free_walk is_target
free_walk_miss addr prev [] h = refl
free_walk_miss addr prev (b ∷ bs) h = elim (Bool-cases b.used) [
  | inl u ↦
      let h' = rw (live_used b bs u) at h in ground (arith, free_walk_miss addr b bs h'.1, h'.0)
  | inr u ↦ let h' = rw (live_free b bs u) at h in ground (arith, free_walk_miss addr b bs h')
]

free_blocks_miss :
    (addr : ℕ) (bs : List Block) → All (λ b. b.start ≢ addr) (live bs) → free_blocks addr bs ≡ bs
unfolding free_blocks is_target
free_blocks_miss addr [] h = refl
free_blocks_miss addr (b ∷ bs) h = elim (Bool-cases b.used) [
  | inl u ↦
      let h' = rw (live_used b bs u) at h in ground (arith, free_walk_miss addr b bs h'.1, h'.0)
  | inr u ↦ let h' = rw (live_free b bs u) at h in ground (arith, free_walk_miss addr b bs h')
]

-- An address at which no block in use begins changes nothing.
pub k_mem_free_unknown :
    (addr : ℕ) (p : Pool) → All (λ b. b.start ≢ addr) (live p.blocks) → k_mem_free addr p ≡ p
unfolding k_mem_free
k_mem_free_unknown addr p h =
    ap (λ l. record { blocks = l; block_count = p.block_count }) (free_blocks_miss addr p.blocks h)

release-middle :
    (a size : ℕ) (xs ys : List Block)
    → All (λ b. b.start + b.size ≤ a) xs
    → All (λ b. 0 < b.size) xs
    → release a (xs ++ (taken a size ∷ ys)) ≡ xs ++ ys
release-middle a size [] ys h pos = ground arith
release-middle a size (x ∷ xs) ys h pos = ground (arith, release-middle a size xs ys h.1 pos.1)

pub live-pos : (s e : ℕ) (bs : List Block) → Tiles s e bs → All (λ b. 0 < b.size) (live bs)
live-pos s e [] t = tt
live-pos s e (b ∷ bs) t = elim (Bool-cases b.used) [
  | inl u ↦ rw (live_used b bs u) ((t.1, live-pos (s + b.size) e bs t.2))
  | inr u ↦ rw (live_free b bs u) (live-pos (s + b.size) e bs t.2)
]

All-prefix : (P : Block → Type 0) (xs ys : List Block) → All P (xs ++ ys) → All P xs
All-prefix P [] ys h = tt
All-prefix P (x ∷ xs) ys h = (h.0, All-prefix P xs ys h.1)

-- Freeing what an allocation on a valid pool returned puts the blocks in use back as they were.
pub free-alloc_live :
    (total size a : ℕ) (p q : Pool)
    → IsValid total p
    → k_mem_alloc size p ≡ (some a, q)
    → live (k_mem_free a q).blocks ≡ live p.blocks
free-alloc_live total size a p q v e =
    let o : Grant (rounded size) mem_base (mem_base + total) (live p.blocks) (live q.blocks) a =
      rw e at (k_mem_alloc_grants total size p v) in
    let pos = live-pos mem_base (mem_base + total) p.blocks v.tiles in
    k_mem_free_releases a q
    ∙ ap (release a) o.are
    ∙ release-middle a (rounded size) o.before o.after o.low
        (All-prefix (λ b. 0 < b.size) o.before o.after (rw o.were at pos))
    ∙ sym o.were
