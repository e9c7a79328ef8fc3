-- ===== src/Net/Arp/Cache.antt =====
-- The cache of address resolution (`arp_cache_insert` and `arp_lookup` of sw/apps/net/arp.c).
use zeitlos.Prelude.{
  ℕ, ◌+◌, ◌≤◌, ◌≡◌, ◌⊎◌, refl, inl, inr, none, some, List, [], ◌∷◌, arith, ◌==◌, if◌then◌else◌,
  Option-cases,
}
use zeitlos.Net.Link.{Mac}
use zeitlos.Net.Arp.{Entry, holds, renew, occupy, evict, arp_cache_insert, arp_lookup}

-- How many entries hold the address.
abbrev pub holders : ℕ → List Entry → ℕ
holders ip [] = 0
holders ip (e ∷ es) = (if holds ip e then 1 else 0) + holders ip es

-- No address has two entries.
abbrev pub IsFunctional : List Entry → Type 0
IsFunctional es = (ip : ℕ) → holders ip es ≤ 1

not_held : (ip : ℕ) (es : List Entry) → arp_lookup ip es ≡ none → holders ip es ≡ 0
unfolding arp_lookup
not_held ip [] h = refl
not_held ip (e ∷ es) h = ground (arith, not_held ip es)

module _ (ip : ℕ) (mac : Mac) where
  renew_none : (es : List Entry) → renew ip mac es ≡ none → arp_lookup ip es ≡ none
  unfolding renew arp_lookup
  renew_none [] h = refl
  renew_none (e ∷ es) h = ground (arith, renew_none es)

  lookup-renew :
      (j : ℕ) (es : List Entry) {es' : List Entry}
      → renew ip mac es ≡ some es'
      → arp_lookup j es' ≡ (if ip == j then some mac else arp_lookup j es)
  unfolding renew arp_lookup
  lookup-renew j [] h = cc
  lookup-renew j (e ∷ es) h = elim (Option-cases (renew ip mac es)) [
    | inl n ↦ ground arith
    | inr (xs, s) ↦ ground (arith, lookup-renew j es s)
  ]

  holders-renew :
      (j : ℕ) (es : List Entry) {es' : List Entry}
      → renew ip mac es ≡ some es'
      → holders j es' ≡ holders j es
  unfolding renew
  holders-renew j [] h = cc
  holders-renew j (e ∷ es) h = elim (Option-cases (renew ip mac es)) [
    | inl n ↦ ground arith
    | inr (xs, s) ↦ ground (arith, holders-renew j es s)
  ]

  lookup-occupy :
      (j : ℕ) (es : List Entry) {es' : List Entry}
      → occupy ip mac es ≡ some es'
      → arp_lookup ip es ≡ none
      → arp_lookup j es' ≡ (if ip == j then some mac else arp_lookup j es)
  unfolding occupy arp_lookup
  lookup-occupy j [] h u = cc
  lookup-occupy j (e ∷ es) h u = elim (Option-cases (occupy ip mac es)) [
    | inl n ↦ ground arith
    | inr (xs, s) ↦ ground (arith, lookup-occupy j es s)
  ]

  holders-occupy :
      (j : ℕ) (es : List Entry) {es' : List Entry}
      → occupy ip mac es ≡ some es'
      → holders j es' ≡ (if ip == j then 1 else 0) + holders j es
  unfolding occupy
  holders-occupy j [] h = cc
  holders-occupy j (e ∷ es) h = elim (Option-cases (occupy ip mac es)) [
    | inl n ↦ ground arith
    | inr (xs, s) ↦ ground (arith, holders-occupy j es s)
  ]

  holders-evict :
      (j : ℕ) (es : List Entry)
      → holders j (evict ip mac es) ≤ (if ip == j then 1 else 0) + holders j es
  unfolding evict
  holders-evict j [] = ground arith
  holders-evict j (e ∷ es) = ground arith

-- The cache is full of other addresses.
abbrev pub IsFull : ℕ → Mac → List Entry → Type 0
IsFull ip mac es = (renew ip mac es ≡ none) × (occupy ip mac es ≡ none)

-- Which of the three ways an insertion takes.
module _ (ip : ℕ) (mac : Mac) (es : List Entry) where
  insert_renewed : {xs : List Entry} → renew ip mac es ≡ some xs → arp_cache_insert ip mac es ≡ xs
  unfolding arp_cache_insert
  insert_renewed h = ground arith

  insert_occupied :
      {xs : List Entry}
      → renew ip mac es ≡ none
      → occupy ip mac es ≡ some xs
      → arp_cache_insert ip mac es ≡ xs
  unfolding arp_cache_insert
  insert_occupied h k = ground arith

  insert_evicted : IsFull ip mac es → arp_cache_insert ip mac es ≡ evict ip mac es
  unfolding arp_cache_insert
  insert_evicted h = ground arith

-- What is learned is found, and replaces what was known of the address; what was known of others
-- stays, unless the cache was full of them: then the first entry makes room.
pub lookup-arp_cache_insert :
    (ip j : ℕ) (mac : Mac) (e : Entry) (es : List Entry)
    → (arp_lookup j (arp_cache_insert ip mac (e ∷ es))
        ≡ (if ip == j then some mac else arp_lookup j (e ∷ es)))
      ⊎ (IsFull ip mac (e ∷ es)
          × (arp_lookup j (arp_cache_insert ip mac (e ∷ es))
              ≡ (if ip == j then some mac else arp_lookup j es)))
lookup-arp_cache_insert ip j mac e es = elim (Option-cases (renew ip mac (e ∷ es))) [
  | inr (xs, s) ↦ inl (rw (insert_renewed ip mac (e ∷ es) s) (lookup-renew ip mac j (e ∷ es) s))
  | inl n ↦ elim (Option-cases (occupy ip mac (e ∷ es))) [
    | inr (xs, s) ↦ inl (
        rw (insert_occupied ip mac (e ∷ es) n s)
          (lookup-occupy ip mac j (e ∷ es) s (renew_none ip mac (e ∷ es) n)))
    | inl m ↦ inr (
      (n, m),
      rw (insert_evicted ip mac (e ∷ es) (n, m)) (unfold evict arp_lookup in ground arith),
    )
  ]
]

-- No address ever gets two entries.
pub arp_cache_insert-IsFunctional :
    (ip : ℕ) (mac : Mac) (es : List Entry)
    → IsFunctional es
    → IsFunctional (arp_cache_insert ip mac es)
arp_cache_insert-IsFunctional ip mac es f j = elim (Option-cases (renew ip mac es)) [
  | inr (xs, s) ↦ rw (insert_renewed ip mac es s) (omega (arith, holders-renew ip mac j es s, f j))
  | inl n ↦
      let none_held = not_held ip es (renew_none ip mac es n) in
      elim (Option-cases (occupy ip mac es)) [
        | inr (xs, s) ↦
            rw (insert_occupied ip mac es n s)
              (ground (arith, holders-occupy ip mac j es s, f j, none_held))
        | inl m ↦
            rw (insert_evicted ip mac es (n, m))
              (ground (arith, holders-evict ip mac j es, f j, none_held))
      ]
]
