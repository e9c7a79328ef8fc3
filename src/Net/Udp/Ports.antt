-- ===== src/Net/Udp/Ports.antt =====
-- The table of listeners (`udp_listen`, `udp_close` and the dispatch of `udp_handle` in
-- sw/apps/net/udp.c).
use zeitlos.Prelude.{
  ℕ, ◌+◌, ◌-◌, ◌%◌, ◌^◌, ◌≤◌, ◌<◌, ◌≡◌, ◌∙◌, ◌⊎◌, refl, ap, inl, inr, false, none, some, List, [],
  ◌∷◌, arith, ◌==◌, if◌then◌else◌, Option-cases, drop, ltb,
}
use zeitlos.Net.Octets.{get16}
use zeitlos.Net.Udp.{Listener, replace, claim, udp_listen, udp_close, listener_of, udp_handle}

module _ (port handler : ℕ) where
  replace_none : (ls : List Listener) → replace port handler ls ≡ none → listener_of port ls ≡ none
  unfolding replace listener_of
  replace_none [] h = refl
  replace_none (l ∷ ls) h = ground (arith, replace_none ls)

  replace_lem :
      (q : ℕ) (ls : List Listener) {ls' : List Listener}
      → replace port handler ls ≡ some ls'
      → listener_of q ls' ≡ (if port == q then some handler else listener_of q ls)
  unfolding replace listener_of
  replace_lem q [] h = cc
  replace_lem q (l ∷ ls) h = elim (Option-cases (replace port handler ls)) [
    | inl n ↦ ground arith
    | inr (xs, s) ↦ ground (arith, replace_lem q ls s)
  ]

  claim_lem :
      (q : ℕ) (ls : List Listener) {ls' : List Listener}
      → claim port handler ls ≡ some ls'
      → listener_of port ls ≡ none
      → listener_of q ls' ≡ (if port == q then some handler else listener_of q ls)
  unfolding claim listener_of
  claim_lem q [] h u = cc
  claim_lem q (l ∷ ls) h u = elim (Option-cases (claim port handler ls)) [
    | inl n ↦ ground arith
    | inr (xs, s) ↦ ground (arith, claim_lem q ls s)
  ]

-- No listener of the port, and no free place for one.
abbrev pub HasNoRoom : ℕ → ℕ → List Listener → Type 0
HasNoRoom port handler ls = (replace port handler ls ≡ none) × (claim port handler ls ≡ none)

listen_cases :
    (port handler : ℕ) (ls : List Listener)
    → ((xs : List Listener) × (udp_listen port handler ls ≡ xs)
        × ((q : ℕ) → listener_of q xs ≡ (if port == q then some handler else listener_of q ls)))
      ⊎ (HasNoRoom port handler ls × (udp_listen port handler ls ≡ ls))
unfolding udp_listen
listen_cases port handler ls = elim (Option-cases (replace port handler ls)) [
  | inr (xs, s) ↦ inl (xs, rw (s, udp_listen) refl, λ q. replace_lem port handler q ls s)
  | inl n ↦ elim (Option-cases (claim port handler ls)) [
    | inr (xs, s) ↦ inl (
      xs,
      rw (n, udp_listen, s) refl,
      λ q. claim_lem port handler q ls s (replace_none port handler ls n),
    )
    | inl m ↦ inr ((n, m), rw (n, udp_listen, m) refl)
  ]
]

-- After a call the port is listened to by the given handler, in place of another, and no other port is
-- concerned; or the table is full of other ports, and nothing changes.
pub listener_of-udp_listen :
    (port handler q : ℕ) (ls : List Listener)
    → (listener_of q (udp_listen port handler ls)
        ≡ (if port == q then some handler else listener_of q ls))
      ⊎ (HasNoRoom port handler ls × (udp_listen port handler ls ≡ ls))
listener_of-udp_listen port handler q ls = elim (listen_cases port handler ls) [
  | inl (xs, e, f) ↦ inl (ap (listener_of q) e ∙ f q)
  | inr full ↦ inr full
]

pub listener_of-udp_close :
    (port q : ℕ) (ls : List Listener)
    → listener_of q (udp_close port ls) ≡ (if port == q then none else listener_of q ls)
unfolding listener_of udp_close
listener_of-udp_close port q [] = ground arith
listener_of-udp_close port q (l ∷ ls) = ground (arith, listener_of-udp_close port q ls)

-- A datagram whose length field is below that of its own header is passed on with a length that has
-- wrapped: more than 65000 bytes, whatever was received.
pub udp_handle_overreads :
    (src_ip len h : ℕ) (p : List ℕ) (ls : List Listener)
    → 8 ≤ len
    → get16 p 4 < 8
    → listener_of (get16 p 2) ls ≡ some h
    → udp_handle src_ip p len ls
      ≡ some (record {
        handler = h;
        src_ip = src_ip;
        src_port = get16 p 0;
        payload = drop 8 p;
        len = 2 ^ 16 - 8 + get16 p 4;
      })
unfolding udp_handle
udp_handle_overreads src_ip len h p ls n short l =
    let long : ltb len 8 ≡ false = ground arith in
    let whole : ltb len (get16 p 4) ≡ false = ground arith in
    let wrapped : (get16 p 4 + 2 ^ 16 - 8) % 2 ^ 16 ≡ 2 ^ 16 - 8 + get16 p 4 = omega arith in
    rw (long, whole, udp_handle, l) (ap some (ground arith))
