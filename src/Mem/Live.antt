-- ===== src/Mem/Live.antt =====
-- sw/os/mem.c: which memory `k_mem_alloc` hands out.
use zeitlos.Prelude.{
  ℕ, ◌+◌, ◌-◌, ◌%◌, ◌^◌, ◌≤◌, ◌<◌, ◌≡◌, ap, refl, true, false, Option, none, some, List, [], ◌∷◌,
  ◌++◌, arith, sub32, Bool-cases, inl, inr, ◌⊎◌, ltb, leb, if◌then◌else◌, subst,
}
use zeitlos.Mem.{
  Block, Pool, mem_base, max_blocks, alignment, alloc_metadata, align_up, split, carve, fits,
  alloc_walk, rounded, k_mem_alloc,
}
use zeitlos.Prelude.{All}
use zeitlos.Mem.Layout.{
  Tiles, Tiles-le, Tiles-at, mirror, IsValid, rounded-pos, rounded-le, fits_room, align_up_near,
  align_up_page, cut,
}

-- The blocks that are in use, in address order.
abbrev pub live : List Block → List Block
live [] = []
live (b ∷ bs) = if b.used then b ∷ live bs else live bs

abbrev pub taken : ℕ → ℕ → Block
taken a size = record { start = a; size = size; used = true }

-- From a pool that spans `s` to `e` with the blocks `was` in use, the `size` bytes at `a` are
-- granted: they are page-aligned, inside the pool and apart from every block in use, and with them
-- the blocks in use are those that were.
pub record Grant (size s e : ℕ) (was now : List Block) (a : ℕ) : Type 0 where
  pub before : List Block
  pub after : List Block
  pub were : was ≡ before ++ after
  pub are : now ≡ before ++ (taken a size ∷ after)
  pub low : All (λ b. b.start + b.size ≤ a) before
  pub high : All (λ b. a + size ≤ b.start) after
  pub inside : (s ≤ a) × (a + size ≤ e)
  pub aligned : a % 4096 ≡ 0

-- A failed request leaves the blocks in use as they were.
abbrev pub Outcome : ℕ → ℕ → ℕ → List Block → Option ℕ → List Block → Type 0
Outcome size s e was none now = now ≡ was
Outcome size s e was (some a) now = Grant size s e was now a

All-weaken :
    (P Q : Block → Type 0) → ((b : Block) → P b → Q b) → (bs : List Block) → All P bs → All Q bs
All-weaken P Q f [] h = tt
All-weaken P Q f (b ∷ bs) h = (f b h.0, All-weaken P Q f bs h.1)

pub live-within :
    (s e : ℕ) (bs : List Block)
    → Tiles s e bs
    → All (λ b. (s ≤ b.start) × (b.start + b.size ≤ e)) (live bs)
live-within s e [] t = tt
live-within s e (b ∷ bs) t =
    let rest : All (λ c. (s ≤ c.start) × (c.start + c.size ≤ e)) (live bs) =
      All-weaken (λ c. (s + b.size ≤ c.start) × (c.start + c.size ≤ e)) _
        (λ c h. (omega (arith, h.0), h.1)) (live bs) (live-within (s + b.size) e bs t.2) in
    elim (Bool-cases b.used) [
      | inl u ↦ rw u ((omega arith, omega (arith, Tiles-le (s + b.size) e bs t.2)), rest)
      | inr u ↦ rw u rest
    ]

pub live_above :
    (s e a : ℕ) (bs : List Block) → Tiles s e bs → a ≤ s → All (λ b. a ≤ b.start) (live bs)
live_above s e a bs t h =
    All-weaken _ _ (λ c k. omega (arith, k.0)) (live bs) (live-within s e bs t)

-- The grant of the first bytes of a free block.
first_bytes :
    (size : ℕ) (b : Block) (next : List Block) (s e : ℕ)
    → Tiles s e (b ∷ next)
    → size ≤ b.size
    → s % 4096 ≡ 0
    → Grant size s e (live next) (taken b.start size ∷ live next) b.start
first_bytes size b next s e t fit al = record {
  before = [];
  after = live next;
  were = refl;
  are = refl;
  low = tt;
  high = live_above (s + b.size) e (b.start + size) next t.2 (omega arith);
  inside = (omega arith, omega (arith, Tiles-le (s + b.size) e next t.2));
  aligned = ground arith;
}

split-Outcome :
    (size : ℕ) (b : Block) (next : List Block) (n s e : ℕ)
    → Tiles s e (b ∷ next)
    → b.used ≡ false
    → size ≤ b.size
    → s % 4096 ≡ 0
    → let (r, l, n') = split size b next n in Outcome size s e (live next) r (live l)
unfolding split alloc_metadata
split-Outcome size b next n s e t free fit al =
    let grant = first_bytes size b next s e t fit al in
    elim (Bool-cases (ltb size b.size)) [
      | inl more ↦ elim (Bool-cases (leb max_blocks n)) [
        | inl full ↦ rw (more, full, free) refl
        | inr room ↦ rw (more, room) grant
      ]
      | inr same ↦ rw same (
          subst (λ k. Grant size s e (live next) (taken b.start k ∷ live next) b.start)
            (ground arith) grant)
    ]

Outcome-widen :
    (size s s' e : ℕ) (was : List Block) (r : Option ℕ) (now : List Block)
    → s ≤ s'
    → Outcome size s' e was r now
    → Outcome size s e was r now
Outcome-widen size s s' e was none now h o = o
Outcome-widen size s s' e was (some a) now h o = record {
  before = o.before;
  after = o.after;
  were = o.were;
  are = o.are;
  low = o.low;
  high = o.high;
  inside = (omega (arith, o.inside), o.inside.1);
  aligned = o.aligned;
}

carve-Outcome :
    (size : ℕ) (b : Block) (next : List Block) (n s e : ℕ)
    → Tiles s e (b ∷ next)
    → e ≤ mirror
    → 0 < size
    → size ≤ 2 ^ 32 - 4096
    → fits size b ≡ true
    → let (r, l, n') = carve size (align_up b.start alignment) b next n in
      Outcome size s e (live next) r (live l)
unfolding carve alloc_metadata
carve-Outcome size b next n s e t h pos big fit =
    let le = Tiles-le (s + b.size) e next t.2 in
    let room = fits_room size b (omega (arith, le)) big fit in
    let near = align_up_near b.start (omega (arith, le)) in
    let a = align_up b.start alignment in
    let tail = Tiles-at (s + b.size) (a + (cut b).size) e next t.2 (omega arith) in
    elim (Bool-cases (ltb 0 (sub32 a b.start))) [
      | inl pad ↦ elim (Bool-cases (leb max_blocks n)) [
        | inl full ↦ rw (pad, full, room.0) refl
        | inr free ↦
            rw (pad, free)
              (Outcome-widen size s a e (live next) (split size (cut b) next (n + 1)).0
                (live (split size (cut b) next (n + 1)).1) (omega arith)
                (split-Outcome size (cut b) next (n + 1) a e (refl, omega (arith, room), tail)
                  room.0 (omega (arith, room)) near.2))
      ]
      | inr flush ↦ rw flush (split-Outcome size b next n s e t room.0 (omega arith) (ground arith))
    ]

pub live_used : (b : Block) (bs : List Block) → b.used ≡ true → live (b ∷ bs) ≡ b ∷ live bs
live_used b bs u = ground arith

pub live_free : (b : Block) (bs : List Block) → b.used ≡ false → live (b ∷ bs) ≡ live bs
live_free b bs u = ground arith

-- A block that the walk passes over.
pass_Outcome :
    (size : ℕ) (b : Block) (bs : List Block) (s e : ℕ) (r : Option ℕ) (l : List Block)
    → Tiles s e (b ∷ bs)
    → Outcome size (s + b.size) e (live bs) r (live l)
    → Outcome size s e (live (b ∷ bs)) r (live (b ∷ l))
pass_Outcome size b bs s e none l t o = elim (Bool-cases b.used) [
  | inl u ↦ rw (live_used b bs u, live_used b l u) (ap (◌∷◌ b) o)
  | inr u ↦ rw (live_free b bs u, live_free b l u) o
]
pass_Outcome size b bs s e (some a) l t o = elim (Bool-cases b.used) [
  | inl u ↦
      rw (live_used b bs u, live_used b l u)
        (record {
          before = b ∷ o.before;
          after = o.after;
          were = ap (◌∷◌ b) o.were;
          are = ap (◌∷◌ b) o.are;
          low = (omega (arith, o.inside), o.low);
          high = o.high;
          inside = (omega (arith, o.inside), o.inside.1);
          aligned = o.aligned;
        })
  | inr u ↦
      rw (live_free b bs u, live_free b l u)
        (Outcome-widen size s (s + b.size) e (live bs) (some a) (live l) (omega arith) o)
]

alloc_walk-Outcome :
    (size : ℕ) (bs : List Block) (n s e : ℕ)
    → Tiles s e bs
    → e ≤ mirror
    → 0 < size
    → size ≤ 2 ^ 32 - 4096
    → let (r, l, n') = alloc_walk size bs n in Outcome size s e (live bs) r (live l)
unfolding alloc_walk
alloc_walk-Outcome size [] n s e t h pos big = refl
alloc_walk-Outcome size (b ∷ bs) n s e t h pos big =
    let le = Tiles-le (s + b.size) e bs t.2 in
    let below = alloc_walk-Outcome size bs n (s + b.size) e t.2 h pos big in
    elim (Bool-cases (fits size b)) [
      | inl fit ↦
          let o = carve-Outcome size b bs n s e t h pos big fit in
          rw (live_free b bs (fits_room size b (omega (arith, le)) big fit).0, fit) o
      | inr miss ↦ rw miss (pass_Outcome size b bs s e _ (alloc_walk size bs n).1 t below)
    ]

-- On a valid pool a granted request returns page-aligned memory of exactly the rounded size, inside
-- the pool and apart from every block in use, and enters it among those; a refused request changes
-- no block in use.
pub k_mem_alloc_grants :
    (total size : ℕ) (p : Pool)
    → IsValid total p
    → let (r, q) = k_mem_alloc size p in
      Outcome (rounded size) mem_base (mem_base + total) (live p.blocks) r (live q.blocks)
unfolding k_mem_alloc
k_mem_alloc_grants total size p v =
    alloc_walk-Outcome (rounded size) p.blocks p.block_count mem_base (mem_base + total) v.tiles
      v.below (omega (arith, rounded-pos size)) (rounded-le size)

-- Unless the rounding wraps, the granted size is the request rounded up to a page, and at least
-- 32 KB.
pub rounded_lem :
    (size : ℕ)
    → size ≤ 2 ^ 32 - 4096
    → (size ≤ rounded size)
      × (rounded size % 4096 ≡ 0)
      × ((rounded size < size + 4096) ⊎ (rounded size ≡ 32768))
unfolding rounded
rounded_lem size h = ground (arith, align_up_page size)
