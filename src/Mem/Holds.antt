-- ===== src/Mem/Holds.antt =====
-- sw/os/mem.c: the memory that a holder of a returned address may count on.
use zeitlos.Prelude.{
  ℕ, ◌+◌, ◌≤◌, ◌<◌, ◌≡◌, ◌≢◌, ◌∙◌, sym, refl, none, some, List, [], ◌∷◌, ◌++◌, arith, Bool-cases,
  inl, inr, ◌⊎◌, All,
}
use zeitlos.Mem.{Block, Pool, mem_base, rounded, k_mem_alloc, k_mem_free}
use zeitlos.Mem.Layout.{Tiles, IsValid}
use zeitlos.Mem.Live.{live, taken, Grant, live-within, live_used, live_free, k_mem_alloc_grants}
use zeitlos.Mem.Release.{release, live-pos, k_mem_free_releases}

-- Among the blocks is one at `a` of at least `n` bytes.
abbrev pub Holds : ℕ → ℕ → List Block → Type 0
Holds a n [] = ⊥
Holds a n (b ∷ bs) = ((b.start ≡ a) × (n ≤ b.size)) ⊎ Holds a n bs

Holds-insert :
    (a n : ℕ) (c : Block) (xs ys : List Block) → Holds a n (xs ++ ys) → Holds a n (xs ++ (c ∷ ys))
Holds-insert a n c [] ys h = inr h
Holds-insert a n c (x ∷ xs) ys (inl h) = inl h
Holds-insert a n c (x ∷ xs) ys (inr h) = inr (Holds-insert a n c xs ys h)

Holds-new : (a n size : ℕ) (xs ys : List Block) → n ≤ size → Holds a n (xs ++ (taken a size ∷ ys))
Holds-new a n size [] ys h = inl (refl, h)
Holds-new a n size (x ∷ xs) ys h = inr (Holds-new a n size xs ys h)

Holds-release : (a n c : ℕ) (bs : List Block) → a ≢ c → Holds a n bs → Holds a n (release c bs)
Holds-release a n c [] ne h = h
Holds-release a n c (b ∷ bs) ne (inl h) = ground (arith, h, ne)
Holds-release a n c (b ∷ bs) ne (inr h) = ground (arith, h, Holds-release a n c bs ne h)

pub Holds-less : (a n k : ℕ) (bs : List Block) → k ≤ n → Holds a n bs → Holds a k bs
Holds-less a n k [] le h = h
Holds-less a n k (b ∷ bs) le (inl h) = inl (h.0, omega (arith, h.1))
Holds-less a n k (b ∷ bs) le (inr h) = inr (Holds-less a n k bs le h)

All-Holds :
    (P : Block → Type 0) (a n : ℕ) (bs : List Block)
    → All P bs
    → Holds a n bs
    → (b : Block) × (P b × ((b.start ≡ a) × (n ≤ b.size)))
All-Holds P a n [] k h = elim h [ ]
All-Holds P a n (b ∷ bs) k (inl h) = (b, (k.0, h))
All-Holds P a n (b ∷ bs) k (inr h) = All-Holds P a n bs k.1 h

-- What is held lies inside the pool.
pub Holds-inside :
    (s e a n : ℕ) (bs : List Block) → Tiles s e bs → Holds a n (live bs) → (s ≤ a) × (a + n ≤ e)
Holds-inside s e a n bs t h =
    let (b, (k, m)) = All-Holds _ a n (live bs) (live-within s e bs t) h in omega (arith, k, m)

-- What is held at two addresses does not overlap.
pub Holds-apart :
    (s e a n a' n' : ℕ) (bs : List Block)
    → Tiles s e bs
    → Holds a n (live bs)
    → Holds a' n' (live bs)
    → a ≢ a'
    → (a + n ≤ a') ⊎ (a' + n' ≤ a)
Holds-apart s e a n a' n' [] t h h' ne = elim h [ ]
Holds-apart s e a n a' n' (b ∷ bs) t h h' ne = elim (Bool-cases b.used) [
  | inr u ↦
      Holds-apart (s + b.size) e a n a' n' bs t.2 (rw (live_free b bs u) at h)
        (rw (live_free b bs u) at h') ne
  | inl u ↦ elim (rw (live_used b bs u) at h) [
    | inl p ↦ elim (rw (live_used b bs u) at h') [
      | inl q ↦ elim (ne (sym p.0 ∙ q.0)) [ ]
      | inr q ↦ inl (omega (arith, Holds-inside (s + b.size) e a' n' bs t.2 q, p))
    ]
    | inr p ↦ elim (rw (live_used b bs u) at h') [
      | inl q ↦ inr (omega (arith, Holds-inside (s + b.size) e a n bs t.2 p, q))
      | inr q ↦ Holds-apart (s + b.size) e a n a' n' bs t.2 p q ne
    ]
  ]
]

fresh :
    (a size n a' : ℕ) (xs ys : List Block)
    → 0 < size
    → All (λ b. b.start + b.size ≤ a) xs
    → All (λ b. 0 < b.size) xs
    → All (λ b. a + size ≤ b.start) ys
    → Holds a' n (xs ++ ys)
    → a' ≢ a
fresh a size n a' [] ys pos low p high h =
    let (b, (k, m)) = All-Holds _ a' n ys high h in λ e. omega (arith, k, m)
fresh a size n a' (x ∷ xs) ys pos low p high (inl h) = λ e. omega (arith, h, low.0, p.0)
fresh a size n a' (x ∷ xs) ys pos low p high (inr h) = fresh a size n a' xs ys pos low.1 p.1 high h

All-prefix : (P : Block → Type 0) (xs ys : List Block) → All P (xs ++ ys) → All P xs
All-prefix P [] ys h = tt
All-prefix P (x ∷ xs) ys h = (h.0, All-prefix P xs ys h.1)

-- A granted request is held; what was held before is held on, at another address.
pub k_mem_alloc-Holds :
    (total size a : ℕ) (p q : Pool)
    → IsValid total p
    → 0 < rounded size
    → k_mem_alloc size p ≡ (some a, q)
    → (mem_base ≤ a)
      × Holds a (rounded size) (live q.blocks)
      × ((a' n : ℕ) → Holds a' n (live p.blocks) → Holds a' n (live q.blocks) × (a' ≢ a))
k_mem_alloc-Holds total size a p q v pos e =
    let o : Grant (rounded size) mem_base (mem_base + total) (live p.blocks) (live q.blocks) a =
      rw e at (k_mem_alloc_grants total size p v) in
    let sizes = live-pos mem_base (mem_base + total) p.blocks v.tiles in
    (
      o.inside.0,
      rw o.are (Holds-new a (rounded size) (rounded size) o.before o.after (omega arith)),
      λ a' n h.
          let h' : Holds a' n (o.before ++ o.after) = rw o.were at h in
          (
            rw o.are (Holds-insert a' n (taken a (rounded size)) o.before o.after h'),
            fresh a (rounded size) n a' o.before o.after pos o.low
                (All-prefix (λ b. 0 < b.size) o.before o.after (rw o.were at sizes)) o.high h',
          ),
    )

-- A refused request leaves what is held.
pub k_mem_alloc_keeps :
    (total size a n : ℕ) (p q : Pool)
    → IsValid total p
    → k_mem_alloc size p ≡ (none, q)
    → Holds a n (live p.blocks)
    → Holds a n (live q.blocks)
k_mem_alloc_keeps total size a n p q v e h =
    let same : live q.blocks ≡ live p.blocks = rw e at (k_mem_alloc_grants total size p v) in
    rw same h

-- Freeing another address leaves what is held.
pub k_mem_free_keeps :
    (c a n : ℕ) (p : Pool)
    → a ≢ c
    → Holds a n (live p.blocks)
    → Holds a n (live (k_mem_free c p).blocks)
k_mem_free_keeps c a n p ne h =
    rw (k_mem_free_releases c p) (Holds-release a n c (live p.blocks) ne h)
