-- ===== src/Net/Arp/Resolve.antt =====
-- The exchange of address resolution (sw/apps/net/arp.c over eth.c): a request, the answer, and what
-- both sides know after it.
use zeitlos.Prelude.{
  ℕ, ◌-◌, ◌^◌, ◌≤◌, ◌<◌, ◌≡◌, ◌∙◌, refl, ap, inl, inr, false, ◌&&◌, some, List, [], ◌∷◌, ◌++◌,
  arith, length, ◌==◌, if◌then◌else◌, replicate, ltb, ==_iff,
}
use zeitlos.Net.Octets.{get16_lem, get32_lem}
use zeitlos.Net.Link.{Mac, bcast_mac, ethertype_arp, frame, eth_send, read_frame}
use zeitlos.Net.Arp.{
  Entry, Arp, no_mac, arp_cache_insert, arp_lookup, arp_packet, arp_send, arp_request, arp_handle,
}
use zeitlos.Net.Arp.Cache.{lookup-arp_cache_insert}

-- What a host does with a packet of `arp_packet`, read as its fields.
abbrev respond : ℕ → Mac → ℕ → ℕ → Arp → Arp
respond oper mac ip target_ip a =
    let b : Arp = record a { arp_cache = arp_cache_insert ip mac a.arp_cache } in
    if oper == 1 && target_ip == b.our_ip then arp_send 2 (some mac) ip b else b

arp_handle-arp_packet :
    (oper : ℕ) (mac target_mac : Mac) (ip target_ip len : ℕ) (pad : List ℕ) (a : Arp)
    → oper < 2 ^ 16
    → ip < 2 ^ 32
    → target_ip < 2 ^ 32
    → 28 ≤ len
    → arp_handle (arp_packet oper mac ip target_mac target_ip ++ pad) len a
      ≡ respond oper mac ip target_ip a
unfolding arp_handle arp_packet
arp_handle-arp_packet oper mac target_mac ip target_ip len pad a ho hi ht hl =
    rw (lt_false, get32_lem ip hi, get32_lem target_ip ht, get16_lem oper ho) refl
  where
    lt_false : ltb len 28 ≡ false
    lt_false = ground arith

-- What `eth_poll` does with a frame of this type.
abbrev pub take_arp : List ℕ → Arp → Arp
take_arp f a = arp_handle (read_frame f).payload (length f - 14) a

-- The frame of a packet, as it is read at the other end.
take_arp-frame :
    (oper : ℕ) (dst mac target_mac : Mac) (ip target_ip : ℕ) (a : Arp)
    → oper < 2 ^ 16
    → ip < 2 ^ 32
    → target_ip < 2 ^ 32
    → take_arp (frame dst mac ethertype_arp (arp_packet oper mac ip target_mac target_ip)) a
      ≡ respond oper mac ip target_ip a
unfolding frame read_frame arp_packet
take_arp-frame oper dst mac target_mac ip target_ip a ho hi ht =
    unfold arp_packet in
    arp_handle-arp_packet oper mac target_mac ip target_ip 46 (replicate 18 0) a ho hi ht
      (omega arith)

abbrev pub request_frame : ℕ → Arp → List ℕ
request_frame ip a =
    frame bcast_mac a.link.our_mac ethertype_arp (arp_packet 1 a.link.our_mac a.our_ip no_mac ip)

abbrev pub reply_frame : Arp → Arp → List ℕ
reply_frame a b =
    frame a.link.our_mac b.link.our_mac ethertype_arp
      (arp_packet 2 b.link.our_mac b.our_ip a.link.our_mac a.our_ip)

pub arp_request_sends :
    (ip : ℕ) (a : Arp) → (arp_request ip a).link.sent ≡ a.link.sent ++ (request_frame ip a ∷ [])
unfolding arp_request arp_send eth_send arp_packet
arp_request_sends ip a = refl

lookup-insert_self :
    (ip : ℕ) (mac : Mac) (e : Entry) (es : List Entry)
    → arp_lookup ip (arp_cache_insert ip mac (e ∷ es)) ≡ some mac
lookup-insert_self ip mac e es = elim (lookup-arp_cache_insert ip ip mac e es) [
  | inl h ↦ h ∙ ground arith
  | inr (f, h) ↦ h ∙ ground arith
]

respond_learns :
    (oper : ℕ) (mac : Mac) (ip target_ip : ℕ) (a : Arp)
    → (respond oper mac ip target_ip a).arp_cache ≡ arp_cache_insert ip mac a.arp_cache
unfolding arp_send eth_send
respond_learns oper mac ip target_ip a = ground arith

respond_answers :
    (mac : Mac) (ip : ℕ) (b : Arp)
    → (respond 1 mac ip b.our_ip b).link.sent
      ≡ b.link.sent
        ++ (frame mac b.link.our_mac ethertype_arp (arp_packet 2 b.link.our_mac b.our_ip mac ip)
            ∷ [])
unfolding arp_send eth_send arp_packet
respond_answers mac ip b = rw ((==_iff b.our_ip b.our_ip).1 refl) refl

learned :
    (oper : ℕ) (mac : Mac) (ip target_ip : ℕ) (a : Arp) (e : Entry) (es : List Entry)
    → a.arp_cache ≡ e ∷ es
    → arp_lookup ip (respond oper mac ip target_ip a).arp_cache ≡ some mac
learned oper mac ip target_ip a e es c =
    ap (arp_lookup ip)
      (respond_learns oper mac ip target_ip a ∙ ap (λ xs. arp_cache_insert ip mac xs) c)
    ∙ lookup-insert_self ip mac e es

-- One host asks for the address of another. The other answers to the one that asked, and has learned
-- its hardware address; and from the answer the first has learned the other's.
pub arp_resolves :
    (a b : Arp) (ea eb : Entry) (as' bs : List Entry)
    → a.arp_cache ≡ ea ∷ as'
    → b.arp_cache ≡ eb ∷ bs
    → a.our_ip < 2 ^ 32
    → b.our_ip < 2 ^ 32
    → let asked = request_frame b.our_ip a in
      let b' = take_arp asked b in
      let a' = take_arp (reply_frame a b) a in
      ((arp_request b.our_ip a).link.sent ≡ a.link.sent ++ (asked ∷ []))
      × (b'.link.sent ≡ b.link.sent ++ (reply_frame a b ∷ []))
      × (arp_lookup a.our_ip b'.arp_cache ≡ some a.link.our_mac)
      × (arp_lookup b.our_ip a'.arp_cache ≡ some b.link.our_mac)
arp_resolves a b ea eb as' bs ca cb ha hb =
    let asked =
      take_arp-frame 1 bcast_mac a.link.our_mac no_mac a.our_ip b.our_ip b (omega arith) ha hb in
    let answered =
      take_arp-frame 2 a.link.our_mac b.link.our_mac a.link.our_mac b.our_ip a.our_ip a
        (omega arith) hb ha in
    let a_learned = learned 2 b.link.our_mac b.our_ip a.our_ip a ea as' ca in
    let b_learned = learned 1 a.link.our_mac a.our_ip b.our_ip b eb bs cb in
    (
      arp_request_sends b.our_ip a,
      ap (λ x. x.link.sent) asked ∙ respond_answers a.link.our_mac a.our_ip b,
      ap (λ x. arp_lookup a.our_ip x.arp_cache) asked ∙ b_learned,
      ap (λ x. arp_lookup b.our_ip x.arp_cache) answered ∙ a_learned,
    )

-- A frame leaves a host's own hardware address alone.
pub take_arp_our_mac : (f : List ℕ) (a : Arp) → (take_arp f a).link.our_mac ≡ a.link.our_mac
unfolding arp_handle arp_send eth_send
take_arp_our_mac f a = ground arith

pub arp_request_keeps :
    (ip : ℕ) (a : Arp)
    → ((arp_request ip a).arp_cache ≡ a.arp_cache)
      × ((arp_request ip a).our_ip ≡ a.our_ip)
      × ((arp_request ip a).link.our_mac ≡ a.link.our_mac)
unfolding arp_request arp_send eth_send arp_packet
arp_request_keeps ip a = (refl, refl, refl)
