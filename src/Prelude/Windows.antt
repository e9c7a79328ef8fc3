-- ===== src/Prelude/Windows.antt =====
-- The entries of a ring buffer: those from an index on, going round at the depth.
use Prim.Native.Nat.{ℕ, zero, suc, ◌+◌, ◌%◌, ◌<◌, ◌≤◌}
use mathlib.Core.Path.{◌≡◌, refl, sym, ap, ◌∙◌}
use mathlib.Core.Logic.{◌≢◌}
use mathlib.Core.List.{List, [], ◌∷◌, ◌++◌}
use native.Mathlib.Omega.{arith}
use zeitlos.Prelude.Lists.{length, length-append, get_or, set, get_or-set_self, get_or-set_ne}

-- What a depth has that is a number: `omega` reads a remainder only by a literal.
pub record IsDepth (depth : ℕ) : Type 0 where
  pub start : (h : ℕ) → h < depth → (h + 0) % depth ≡ h
  pub inside : (h : ℕ) → h % depth < depth
  pub next : (h n : ℕ) → ((h + 1) % depth + n) % depth ≡ (h + suc n) % depth
  pub apart : (h j k : ℕ) → j < k → k < depth → (h + k) % depth ≢ (h + j) % depth

module _ {ℓ} {A : Type ℓ} (depth : ℕ) (d : A) where
  abbrev pub window_in : List A → ℕ → ℕ → List A
  window_in xs h zero = []
  window_in xs h (suc n) = window_in xs h n ++ (get_or xs ((h + n) % depth) d ∷ [])

  pub length-window_in : (xs : List A) (h n : ℕ) → length (window_in xs h n) ≡ n
  length-window_in xs h zero = refl
  length-window_in xs h (suc n) = omega (
    arith,
    length-window_in xs h n,
    length-append (window_in xs h n) (get_or xs ((h + n) % depth) d ∷ []),
  )

module _ {ℓ} {A : Type ℓ} {depth : ℕ} (ring : IsDepth depth) (d : A) where
  -- A write behind the window leaves it.
  pub window_in-set :
      (xs : List A) (h n k : ℕ) (v : A)
      → n ≤ k
      → k < depth
      → window_in depth d (set xs ((h + k) % depth) v) h n ≡ window_in depth d xs h n
  window_in-set xs h zero k v le lt = refl
  window_in-set xs h (suc n) k v le lt = rw (
    window_in-set xs h n k v (omega arith) lt,
    get_or-set_ne xs ((h + k) % depth) ((h + n) % depth) v d (ring.apart h n k (omega arith) lt),
  )

  -- A write at the end of a window extends it.
  pub window_in_push :
      (xs : List A) (h n : ℕ) (v : A)
      → n < depth
      → depth ≤ length xs
      → window_in depth d (set xs ((h + n) % depth) v) h (suc n)
        ≡ window_in depth d xs h n ++ (v ∷ [])
  window_in_push xs h n v lt sized = rw (
    window_in-set xs h n n v (omega arith) lt,
    get_or-set_self xs ((h + n) % depth) v d (omega (arith, ring.inside (h + n), sized)),
  )

  -- The oldest entry of a window, and the window behind it.
  pub window_in_head :
      (xs : List A) (h n : ℕ)
      → h < depth
      → window_in depth d xs h (suc n) ≡ get_or xs h d ∷ window_in depth d xs ((h + 1) % depth) n
  window_in_head xs h zero lt = ap (λ i. get_or xs i d ∷ []) (ring.start h lt)
  window_in_head xs h (suc n) lt =
      ap (λ l. l ++ (get_or xs ((h + suc n) % depth) d ∷ [])) (window_in_head xs h n lt)
      ∙ ap (λ i. get_or xs h d ∷ (window_in depth d xs ((h + 1) % depth) n ++ (get_or xs i d ∷ [])))
          (sym (ring.next h n))
