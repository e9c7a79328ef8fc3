-- ===== src/Net/Arp.antt =====
-- The address resolution protocol (sw/apps/net/arp.c): a cache of eight entries that learns from every
-- packet, and the answer to a request for this host's address.
pub mod Cache
pub mod Resolve
use zeitlos.Prelude.{
  ℕ, zero, suc, ◌+◌, ◌*◌, ◌/◌, ◌%◌, ◌^◌, Bool, true, false, ◌&&◌, ◌||◌, not, Option, none, some,
  List, [], ◌∷◌, ltb, ◌==◌, if◌then◌else◌, get_or, set,
}
use zeitlos.Net.Octets.{byte, get16, get32, hi16, lo16}
use zeitlos.Net.Link.{Mac, octets, mac_at, bcast_mac, Link, ethertype_arp, eth_send}

-- `arp_entry_t`.
pub record Entry : Type 0 where
  pub used : Bool
  pub ip : ℕ
  pub mac : Mac

pub record Arp : Type 0 where
  pub arp_cache : List Entry
  pub our_ip : ℕ
  pub link : Link

abbrev pub cache_size : ℕ
cache_size = 8

abbrev clear : List Entry → List Entry
clear [] = []
clear (e ∷ es) = record e { used = false } ∷ clear es

abbrev pub arp_init : ℕ → Arp → Arp
arp_init ip a = record a { our_ip = ip; arp_cache = clear a.arp_cache }

abbrev pub holds : ℕ → Entry → Bool
holds ip e = e.used && e.ip == ip

-- The first loop: an entry of the address gets its new hardware address.
pub renew : ℕ → Mac → List Entry → Option (List Entry)
renew ip mac [] = none
renew ip mac (e ∷ es) =
    let rest = renew ip mac es in
    if holds ip e
    then some (record e { mac = mac } ∷ es)
    else elim rest [ none ↦ none | some es' ↦ some (e ∷ es') ]

-- The second: the first free entry is taken.
pub occupy : ℕ → Mac → List Entry → Option (List Entry)
occupy ip mac [] = none
occupy ip mac (e ∷ es) =
    let rest = occupy ip mac es in
    if not e.used
    then some (record { used = true; ip = ip; mac = mac } ∷ es)
    else elim rest [ none ↦ none | some es' ↦ some (e ∷ es') ]

pub evict : ℕ → Mac → List Entry → List Entry
evict ip mac [] = []
evict ip mac (e ∷ es) = record { used = true; ip = ip; mac = mac } ∷ es

pub arp_cache_insert : ℕ → Mac → List Entry → List Entry
arp_cache_insert ip mac es = elim (renew ip mac es) [
  | some es' ↦ es'
  | none ↦ elim (occupy ip mac es) [ some es' ↦ es' | none ↦ evict ip mac es ]
]

unfoldable pub arp_lookup : ℕ → List Entry → Option Mac
arp_lookup ip [] = none
arp_lookup ip (e ∷ es) = if holds ip e then some e.mac else arp_lookup ip es

-- The packet; the target's hardware address is zeros in a request.
unfoldable pub arp_packet : ℕ → Mac → ℕ → Mac → ℕ → List ℕ
arp_packet oper our_mac our_ip target_mac target_ip =
    0x00
    ∷ 0x01
    ∷ 0x08
    ∷ 0x00
    ∷ 6
    ∷ 4
    ∷ hi16 oper
    ∷ lo16 oper
    ∷ our_mac.m0
    ∷ our_mac.m1
    ∷ our_mac.m2
    ∷ our_mac.m3
    ∷ our_mac.m4
    ∷ our_mac.m5
    ∷ our_ip / 2 ^ 24 % 2 ^ 8
    ∷ our_ip / 2 ^ 16 % 2 ^ 8
    ∷ our_ip / 2 ^ 8 % 2 ^ 8
    ∷ our_ip % 2 ^ 8
    ∷ target_mac.m0
    ∷ target_mac.m1
    ∷ target_mac.m2
    ∷ target_mac.m3
    ∷ target_mac.m4
    ∷ target_mac.m5
    ∷ target_ip / 2 ^ 24 % 2 ^ 8
    ∷ target_ip / 2 ^ 16 % 2 ^ 8
    ∷ target_ip / 2 ^ 8 % 2 ^ 8
    ∷ target_ip % 2 ^ 8
    ∷ []

abbrev no_mac : Mac
no_mac = record { m0 = 0; m1 = 0; m2 = 0; m3 = 0; m4 = 0; m5 = 0 }

-- NULL for a target is `none`.
pub arp_send : ℕ → Option Mac → ℕ → Arp → Arp
arp_send oper none target_ip a = record a {
  link =
      (eth_send bcast_mac ethertype_arp (arp_packet oper a.link.our_mac a.our_ip no_mac target_ip)
        a.link).1;
}
arp_send oper (some mac) target_ip a = record a {
  link =
      (eth_send mac ethertype_arp (arp_packet oper a.link.our_mac a.our_ip mac target_ip) a.link).1;
}

pub arp_request : ℕ → Arp → Arp
arp_request ip a = arp_send 1 none ip a

abbrev pub is_ethernet_ipv4 : List ℕ → Bool
is_ethernet_ipv4 p = get16 p 0 == 1 && get16 p 2 == 0x0800 && byte p 4 == 6 && byte p 5 == 4

pub arp_handle : List ℕ → ℕ → Arp → Arp
arp_handle p len a =
    if ltb len 28 || not (is_ethernet_ipv4 p)
    then a
    else (let sha = mac_at p 8 in
        let spa = get32 p 14 in
        let b : Arp = record a { arp_cache = arp_cache_insert spa sha a.arp_cache } in
        if get16 p 6 == 1 && get32 p 24 == b.our_ip then arp_send 2 (some sha) spa b else b)
