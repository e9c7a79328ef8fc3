-- ===== src/Net/Ip.antt =====
-- IPv4 with the echo reply (sw/apps/net/ip.c), over address resolution and Ethernet framing. What is
-- passed up to TCP and UDP is a value, with the length that goes with it.
pub mod Wire
pub mod Queue
use zeitlos.Prelude.{
  ℕ, suc, ◌+◌, ◌-◌, ◌*◌, ◌/◌, ◌%◌, ◌^◌, Bool, true, false, ◌&&◌, ◌||◌, not, Option, none, some,
  List, [], ◌∷◌, ◌++◌, ltb, ◌==◌, if◌then◌else◌, take, drop, length, bit_and,
}
use zeitlos.Net.Octets.{byte, get16, get32, hi16, lo16}
use zeitlos.Net.Checksum.{ip_checksum}
use zeitlos.Net.Link.{bcast_mac, Link, ethertype_ipv4, ethertype_arp, eth_send, Frame, read_frame}
use zeitlos.Net.Arp.{Arp, arp_lookup, arp_request, arp_handle}

-- The statics of the file, over those of arp.c and eth.c.
pub record Ip : Type 0 where
  pub our_ip : ℕ
  pub our_netmask : ℕ
  pub our_gateway : ℕ
  pub next_ip_id : ℕ
  pub pending_valid : Bool
  pub pending_next_hop : ℕ
  pub pending_pkt : List ℕ
  pub arp : Arp

abbrev pub ip_max_payload : ℕ
ip_max_payload = 1480

abbrev pub broadcast : ℕ
broadcast = 0xffff_ffff

unfoldable pub eth_out : Ip → Bool × Link → Bool × Ip
eth_out t (sent, l) = (sent, record t { arp = record t.arp { link = l } })

pub ip_poll : Ip → Ip
unfolding eth_out
ip_poll t =
    if not t.pending_valid then t else elim (arp_lookup t.pending_next_hop t.arp.arp_cache) [
      | none ↦ t
      | some mac ↦
          (eth_out (record t { pending_valid = false })
            (eth_send mac ethertype_ipv4 t.pending_pkt t.arp.link)).1
    ]

pub ip_init : ℕ → ℕ → ℕ → Ip → Ip
ip_init ip netmask gateway_ip t = record t {
  our_ip = ip;
  our_netmask = netmask;
  our_gateway = gateway_ip;
}

pub ip_our_addr : Ip → ℕ
ip_our_addr t = t.our_ip

unfoldable pub ip_is_local : Ip → ℕ → Bool
ip_is_local t ip = bit_and ip t.our_netmask == bit_and t.our_ip t.our_netmask

-- The header with `csum` for its checksum.
abbrev pub header : Ip → ℕ → ℕ → ℕ → ℕ → List ℕ → List ℕ
header t csum dst_ip protocol total_len payload =
    0x45
    ∷ 0x00
    ∷ hi16 total_len
    ∷ lo16 total_len
    ∷ hi16 t.next_ip_id
    ∷ lo16 t.next_ip_id
    ∷ 0x40
    ∷ 0x00
    ∷ 64
    ∷ protocol
    ∷ hi16 csum
    ∷ lo16 csum
    ∷ t.our_ip / 2 ^ 24 % 2 ^ 8
    ∷ t.our_ip / 2 ^ 16 % 2 ^ 8
    ∷ t.our_ip / 2 ^ 8 % 2 ^ 8
    ∷ t.our_ip % 2 ^ 8
    ∷ dst_ip / 2 ^ 24 % 2 ^ 8
    ∷ dst_ip / 2 ^ 16 % 2 ^ 8
    ∷ dst_ip / 2 ^ 8 % 2 ^ 8
    ∷ dst_ip % 2 ^ 8
    ∷ payload

-- The packet, with the checksum of its header.
pub packet : Ip → ℕ → ℕ → List ℕ → List ℕ
packet t dst_ip protocol payload =
    let total_len = 20 + length payload in
    header t (ip_checksum (header t 0 dst_ip protocol total_len [])) dst_ip protocol total_len
      payload

unfoldable pub next_hop : Ip → ℕ → ℕ
next_hop t dst_ip = if ip_is_local t dst_ip then dst_ip else t.our_gateway

-- A packet goes to the hardware address of the next hop, if it is known; else it is queued, and the
-- address asked for.
unfoldable pub send_hop : ℕ → List ℕ → Ip → Bool × Ip
unfolding eth_out
send_hop hop pkt t = elim (arp_lookup hop t.arp.arp_cache) [
  | some mac ↦ eth_out t (eth_send mac ethertype_ipv4 pkt t.arp.link)
  | none ↦ (
    false,
    record t {
      arp = arp_request hop t.arp;
      pending_next_hop = hop;
      pending_pkt = pkt;
      pending_valid = true;
    },
  )
]

pub ip_send : ℕ → ℕ → List ℕ → Ip → Bool × Ip
unfolding eth_out
ip_send dst_ip protocol payload t =
    if ltb ip_max_payload (length payload)
    then (false, t)
    else (let pkt = packet t dst_ip protocol payload in
        let u : Ip = record t { next_ip_id = (t.next_ip_id + 1) % 2 ^ 16 } in
        if dst_ip == broadcast
        then eth_out u (eth_send bcast_mac ethertype_ipv4 pkt u.arp.link)
        else send_hop (next_hop u dst_ip) pkt u)

-- The reply to an echo request: its bytes with another type and checksum.
pub echo_reply : List ℕ → List ℕ
echo_reply p =
    let rest = drop 4 p in
    let csum = ip_checksum (0 ∷ 0 ∷ 0 ∷ 0 ∷ rest) in 0 ∷ 0 ∷ hi16 csum ∷ lo16 csum ∷ rest

abbrev pub icmp_handle : ℕ → List ℕ → ℕ → Ip → Ip
icmp_handle src_ip p len t =
    if ltb len 8
    then t
    else if not (byte p 0 == 8)
    then t
    else if ltb ip_max_payload len
    then t
    else (ip_send src_ip 1 (echo_reply (take len p)) t).1

-- What is passed up: a payload from its first byte on, and its length.
pub data Upcall : Type 0 where
  dropped : Upcall
  tcp : ℕ → List ℕ → ℕ → Upcall
  udp : ℕ → List ℕ → ℕ → Upcall

-- The length of the header in bytes.
abbrev pub ihl : List ℕ → ℕ
ihl p = byte p 0 % 2 ^ 4 * 4

abbrev pub is_for_us : Ip → ℕ → Bool
is_for_us t dst_ip = dst_ip == t.our_ip || dst_ip == broadcast || t.our_ip == 0

-- `uint16_t paylen = total_len - ihl`.
abbrev pub paylen : List ℕ → ℕ
paylen p = (get16 p 2 + 2 ^ 16 - ihl p) % 2 ^ 16

-- The `switch` on the protocol.
unfoldable pub hand_up : ℕ → ℕ → List ℕ → ℕ → Ip → Ip × Upcall
hand_up protocol src_ip payload len t =
    if protocol == 1
    then (icmp_handle src_ip payload len t, dropped)
    else if protocol == 6
    then (t, tcp src_ip payload len)
    else if protocol == 17
    then (t, udp src_ip payload len)
    else (t, dropped)

pub ip_handle : List ℕ → ℕ → Ip → Ip × Upcall
ip_handle p len t =
    if ltb len 20
    then (t, dropped)
    else if ltb (ihl p) 20 || ltb len (ihl p)
    then (t, dropped)
    else if ltb len (get16 p 2)
    then (t, dropped)
    else if not (is_for_us t (get32 p 16))
    then (t, dropped)
    else hand_up (byte p 9) (get32 p 12) (drop (ihl p) p) (paylen p) t

-- One frame of `eth_poll`.
unfoldable pub eth_receive : List ℕ → Ip → Ip × Upcall
eth_receive f t =
    let r = read_frame f in
    let len = length f in
    if ltb len 14
    then (t, dropped)
    else if r.ethertype == ethertype_arp
    then (record t { arp = arp_handle r.payload (len - 14) t.arp }, dropped)
    else if r.ethertype == ethertype_ipv4
    then ip_handle r.payload (len - 14) t
    else (t, dropped)

-- The loop of `eth_poll` over what `phy_recv` returns before it returns nothing: it takes 64 frames,
-- and stops at the next.
abbrev pub eth_poll : ℕ → List (List ℕ) → Ip → Ip × List Upcall
eth_poll drained [] t = (t, [])
eth_poll drained (f ∷ fs) t =
    let (u, up) = eth_receive f t in
    let (w, ups) = eth_poll (drained + 1) fs u in
    if ltb 64 (drained + 1) then (t, []) else (w, up ∷ ups)
