-- ===== src/Net/Udp/Delivery.antt =====
-- A datagram from one host to another (sw/apps/net/udp.c over ip.c and eth.c).
use zeitlos.Prelude.{
  ℕ, ◌+◌, ◌-◌, ◌%◌, ◌^◌, ◌≤◌, ◌<◌, ◌≡◌, ◌≢◌, ◌∙◌, refl, ap, true, false, some, List, [], ◌∷◌, ◌++◌,
  arith, max, length, replicate, ltb,
}
use zeitlos.Net.Octets.{get16_lem}
use zeitlos.Net.Link.{Mac, ethertype_ipv4, frame, eth_send, read_frame-frame, length-frame}
use zeitlos.Net.Arp.{arp_lookup}
use zeitlos.Net.Ip.{
  Ip, ip_max_payload, broadcast, packet, next_hop, send_hop, ip_send, eth_out, eth_receive,
  is_for_us, hand_up, udp,
}
use zeitlos.Net.Ip.Wire.{ip_handle-packet}
use zeitlos.Net.Ip.Queue.{send_lem, length-packet}
use zeitlos.Net.Udp.{Listener, listener_of, udp_max_payload, datagram, udp_send, udp_handle}

-- What a listener is called with for a datagram, whatever padding follows it.
udp_handle-datagram :
    (src_ip dst_port src_port h : ℕ) (octets pad : List ℕ) (ls : List Listener)
    → dst_port < 2 ^ 16
    → src_port < 2 ^ 16
    → length octets ≤ udp_max_payload
    → listener_of dst_port ls ≡ some h
    → udp_handle src_ip (datagram dst_port src_port octets ++ pad) (8 + length octets) ls
      ≡ some (record {
        handler = h;
        src_ip = src_ip;
        src_port = src_port;
        payload = octets ++ pad;
        len = length octets;
      })
unfolding udp_handle datagram
udp_handle-datagram src_ip dst_port src_port h octets pad ls hd hs n l =
    let total = 8 + length octets in
    let long : ltb total 8 ≡ false = ground arith in
    let whole : ltb total total ≡ false = ground arith in
    let rest : (total + 2 ^ 16 - 8) % 2 ^ 16 ≡ length octets = omega arith in
    rw
      (
        long,
        get16_lem total (omega arith),
        whole,
        get16_lem dst_port hd,
        udp_handle,
        l,
        get16_lem total (omega arith),
        rest,
        get16_lem src_port hs,
      )
      refl

-- A packet in a frame, as the other host takes it.
eth_receive-packet :
    (t u : Ip) (dst src : Mac) (dst_ip protocol : ℕ) (payload : List ℕ)
    → t.our_ip < 2 ^ 32
    → dst_ip < 2 ^ 32
    → is_for_us u dst_ip ≡ true
    → length payload ≤ ip_max_payload
    → (pad : List ℕ) × (eth_receive
          (frame dst src ethertype_ipv4 (packet t dst_ip protocol payload))
          u
        ≡ hand_up protocol t.our_ip (payload ++ pad) (length payload) u)
unfolding eth_receive
eth_receive-packet t u dst src dst_ip protocol payload ho hd f n =
    let p = packet t dst_ip protocol payload in
    let pad : List ℕ = replicate (46 - length p) 0 in
    let m = max 46 (length p) in
    let long : ltb (14 + m) 14 ≡ false = ground arith in
    let rest : 14 + m - 14 ≡ m = omega arith in
    (
      pad,
      rw
          (
            length-frame dst src ethertype_ipv4 p,
            read_frame-frame dst src ethertype_ipv4 p (omega arith),
            long,
            rest,
          )
          (ip_handle-packet t u dst_ip protocol m payload pad ho hd f
            (omega (arith, length-packet t dst_ip protocol payload))
            (omega (arith, length-packet t dst_ip protocol payload))),
    )

-- The link is known: the packet goes out at once.
send_known :
    (dst_ip protocol : ℕ) (payload : List ℕ) (t : Ip) (mac : Mac)
    → length payload ≤ ip_max_payload
    → dst_ip ≢ broadcast
    → arp_lookup (next_hop t dst_ip) t.arp.arp_cache ≡ some mac
    → (ip_send dst_ip protocol payload t).1.arp.link.sent
      ≡ t.arp.link.sent
        ++ (frame mac t.arp.link.our_mac ethertype_ipv4 (packet t dst_ip protocol payload) ∷ [])
unfolding send_hop eth_out eth_send
send_known dst_ip protocol payload t mac n d known =
    let p = packet t dst_ip protocol payload in
    let fits : ltb 1518 (14 + length p) ≡ false =
      ground (arith, length-packet t dst_ip protocol payload) in
    rw (send_lem dst_ip protocol payload t n d, send_hop, known, fits) refl

-- A datagram to a host whose hardware address is known goes out as one frame; and from that frame the
-- listener of the port on a host with the destination's address is called with the sender's address
-- and port and with the data, whatever pads the frame.
pub udp_send_received :
    (dst_ip dst_port src_port h : ℕ) (octets : List ℕ) (t u : Ip) (mac : Mac) (ls : List Listener)
    → length octets ≤ udp_max_payload
    → dst_port < 2 ^ 16
    → src_port < 2 ^ 16
    → dst_ip < 2 ^ 32
    → t.our_ip < 2 ^ 32
    → dst_ip ≢ broadcast
    → arp_lookup (next_hop t dst_ip) t.arp.arp_cache ≡ some mac
    → is_for_us u dst_ip ≡ true
    → listener_of dst_port ls ≡ some h
    → let d = datagram dst_port src_port octets in
      let f = frame mac t.arp.link.our_mac ethertype_ipv4 (packet t dst_ip 17 d) in
      ((udp_send dst_ip dst_port src_port octets t).1.arp.link.sent ≡ t.arp.link.sent ++ (f ∷ []))
      × ((pad : List ℕ) × (eth_receive f u ≡ (u, udp t.our_ip (d ++ pad) (8 + length octets)))
          × (udp_handle t.our_ip (d ++ pad) (8 + length octets) ls
              ≡ some (record {
                handler = h;
                src_ip = t.our_ip;
                src_port = src_port;
                payload = octets ++ pad;
                len = length octets;
              })))
unfolding udp_send hand_up
udp_send_received dst_ip dst_port src_port h octets t u mac ls n hp hs hd ho nb known f l =
    let d = datagram dst_port src_port octets in
    let size : length d ≡ 8 + length octets = unfold datagram in omega arith in
    let short : ltb udp_max_payload (length octets) ≡ false = ground arith in
    let (pad, up) =
      eth_receive-packet t u mac t.arp.link.our_mac dst_ip 17 d ho hd f (omega arith) in
    (
      rw short (send_known dst_ip 17 d t mac (omega arith) nb known),
      (
        pad,
        up ∙ ap (λ k. (u, udp t.our_ip (d ++ pad) k)) size,
        udp_handle-datagram t.our_ip dst_port src_port h octets pad ls hp hs n l,
      ),
    )
