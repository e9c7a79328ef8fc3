-- ===== src/Net/Ip/Queue.antt =====
-- The packet that waits for an address (`ip_send` and `ip_poll` of sw/apps/net/ip.c, over arp.c and
-- eth.c): asked for, answered and sent.
use zeitlos.Prelude.{ℕ, ◌+◌, ◌%◌, ◌^◌, ◌≤◌, ◌≡◌, ◌≢◌, refl, false, List, arith, length, ltb, ◌==◌}
use zeitlos.Net.Arp.{Arp}
use zeitlos.Net.Ip.{Ip, ip_max_payload, broadcast, packet, next_hop, ip_is_local, send_hop, ip_send}

-- A packet that is not for everyone goes to its next hop.
pub send_lem :
    (dst_ip protocol : ℕ) (payload : List ℕ) (t : Ip)
    → length payload ≤ ip_max_payload
    → dst_ip ≢ broadcast
    → ip_send dst_ip protocol payload t
      ≡ send_hop
          (next_hop t dst_ip)
          (packet t dst_ip protocol payload)
          (record t { next_ip_id = (t.next_ip_id + 1) % 2 ^ 16 })
unfolding ip_send next_hop ip_is_local
send_lem dst_ip protocol payload t n d =
    let short : ltb ip_max_payload (length payload) ≡ false = ground arith in
    let other : (dst_ip == broadcast) ≡ false = ground arith in rw (short, other) refl

pub length-packet :
    (t : Ip) (dst_ip protocol : ℕ) (payload : List ℕ)
    → length (packet t dst_ip protocol payload) ≡ 20 + length payload
unfolding packet
length-packet t dst_ip protocol payload = omega arith
