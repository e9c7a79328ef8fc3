-- ===== src/Net/Tests.antt =====
-- Runs of the network code above and below TCP (sw/apps/net), and its theorems at inputs of their own.
use zeitlos.Prelude.{ℕ, ◌≡◌, refl, true, false, some, List, [], ◌∷◌, ◌++◌, arith}
use zeitlos.Net.Link.{Mac, frame, ethertype_ipv4}
use zeitlos.Net.Arp.{Entry, Arp, arp_request, arp_lookup}
use zeitlos.Net.Arp.Resolve.{request_frame, reply_frame, take_arp, arp_resolves}
use zeitlos.Net.Ip.{Ip, packet, hand_up, ip_handle, eth_receive, udp, ip_is_local, next_hop}
use zeitlos.Net.Ip.Wire.{ip_handle_overreads}
use zeitlos.Net.Udp.{Listener, datagram, udp_send, udp_handle, listener_of}
use zeitlos.Net.Udp.Delivery.{udp_send_received}
use zeitlos.Net.Tcp.{Tcp, established, zeroed}
use zeitlos.Net.Telnet.{
  Telnet, tn_data, iac, will, do_, wont, feed_loop, feed_byte, answer_negotiation, reply_to,
  queue_bytes, escape,
}
use zeitlos.Net.Telnet.Stream.{feed_loop-escape}

-- An open connection to port 80 of 10.0.0.1, nothing outstanding.
abbrev opened : Tcp
opened = record zeroed {
  state = established;
  remote_ip = 0x0a00_0001;
  remote_port = 80;
  local_port = 50000;
  snd_una = 1000;
  snd_nxt = 1000;
  rcv_nxt = 7001;
  handler = some 0;
  our_ip = 0x0a00_0002;
}

abbrev stream : List ℕ
stream = b'h' ∷ b'e' ∷ b'l' ∷ b'l' ∷ b'o' ∷ []

abbrev mac_of : ℕ → Mac
mac_of n = record { m0 = 2; m1 = 0; m2 = 0; m3 = 0; m4 = 0; m5 = n }

abbrev nobody : Entry
nobody = record { used = false; ip = 0; mac = mac_of 0 }

abbrev arp_of : ℕ → ℕ → Arp
arp_of n ip = record {
  arp_cache = nobody ∷ nobody ∷ [];
  our_ip = ip;
  link = record { our_mac = mac_of n; phy_send = λ _. true; sent = [] };
}

abbrev host_a : Arp
host_a = arp_of 1 0x0a00_0002

abbrev host_b : Arp
host_b = arp_of 2 0x0a00_0001

arp_resolves_example :
    let asked = request_frame 0x0a00_0001 host_a in
    let b' = take_arp asked host_b in
    let a' = take_arp (reply_frame host_a host_b) host_a in
    ((arp_request 0x0a00_0001 host_a).link.sent ≡ asked ∷ [])
    × (b'.link.sent ≡ reply_frame host_a host_b ∷ [])
    × (arp_lookup 0x0a00_0002 b'.arp_cache ≡ some (mac_of 1))
    × (arp_lookup 0x0a00_0001 a'.arp_cache ≡ some (mac_of 2))
arp_resolves_example =
    arp_resolves host_a host_b nobody nobody (nobody ∷ []) (nobody ∷ []) refl refl (omega arith)
      (omega arith)

abbrev ip_of : Arp → Ip
ip_of a = record {
  our_ip = a.our_ip;
  our_netmask = 0xffff_ff00;
  our_gateway = 0x0a00_00fe;
  next_ip_id = 1;
  pending_valid = false;
  pending_next_hop = 0;
  pending_pkt = [];
  arp = a;
}

-- A UDP packet to 10.0.0.1 that claims to be four bytes long.
abbrev stub_packet : List ℕ
stub_packet =
    0x45 ∷ 0 ∷ 0 ∷ 4 ∷ 0 ∷ 0 ∷ 0 ∷ 0 ∷ 64 ∷ 17 ∷ 0 ∷ 0 ∷ 10 ∷ 0 ∷ 0 ∷ 2 ∷ 10 ∷ 0 ∷ 0 ∷ 1 ∷ stream

ip_handle_overreads_example :
    ip_handle stub_packet 25 (ip_of host_b) ≡ (ip_of host_b, udp 0x0a00_0002 stream 65520)
unfolding hand_up
ip_handle_overreads_example =
    ip_handle_overreads stub_packet 25 (ip_of host_b) (omega arith) (omega arith) (omega arith) refl

abbrev knows_b : Ip
knows_b =
    ip_of
      (record host_a { arp_cache = record { used = true; ip = 0x0a00_0001; mac = mac_of 2 } ∷ [] })

abbrev on_69 : List Listener
on_69 = record { used = true; port = 69; handler = 3 } ∷ []

udp_send_received_example :
    let d = datagram 69 50000 stream in
    let f = frame (mac_of 2) (mac_of 1) ethertype_ipv4 (packet knows_b 0x0a00_0001 17 d) in
    ((udp_send 0x0a00_0001 69 50000 stream knows_b).1.arp.link.sent ≡ f ∷ [])
    × ((pad : List ℕ) × (eth_receive f (ip_of host_b)
          ≡ (ip_of host_b, udp 0x0a00_0002 (d ++ pad) 13))
        × (udp_handle 0x0a00_0002 (d ++ pad) 13 on_69
            ≡ some (record {
              handler = 3;
              src_ip = 0x0a00_0002;
              src_port = 50000;
              payload = stream ++ pad;
              len = 5;
            })))
unfolding next_hop ip_is_local arp_lookup listener_of
udp_send_received_example =
    udp_send_received 0x0a00_0001 69 50000 3 stream knows_b (ip_of host_b) (mac_of 2) on_69
      (omega arith) (omega arith) (omega arith) (omega arith) (omega arith) (omega arith) refl refl
      refl

abbrev quiet_session : Telnet
quiet_session = record {
  pstate = tn_data;
  pending_cmd = 0;
  tx_queue = b'o' ∷ b'k' ∷ [];
  notices = [];
}

feed_loop-escape_example :
    feed_loop (escape (65 ∷ 255 ∷ 66 ∷ [])) quiet_session ≡ (65 ∷ 255 ∷ 66 ∷ [], quiet_session)
feed_loop-escape_example = feed_loop-escape (65 ∷ 255 ∷ 66 ∷ []) quiet_session refl

-- WILL ECHO is accepted, DO of the window size refused, and the text around both is kept.
negotiation :
    feed_loop
      (b'a' ∷ iac ∷ will ∷ 1 ∷ b'b' ∷ iac ∷ do_ ∷ 31 ∷ [])
      (record quiet_session { tx_queue = [] })
    ≡ (
      b'a' ∷ b'b' ∷ [],
      record quiet_session { pending_cmd = do_; tx_queue = iac ∷ do_ ∷ 1 ∷ iac ∷ wont ∷ 31 ∷ [] },
    )
unfolding feed_loop feed_byte answer_negotiation reply_to queue_bytes
negotiation = refl
