-- ===== src/Net/Tcp/Tests.antt =====
-- Runs of the TCP client (sw/apps/net/tcp.c) on small inputs, and its theorems at inputs of their own.
use zeitlos.Prelude.{
  ℕ, ◌≤◌, ◌≡◌, refl, true, false, some, List, [], ◌∷◌, ◌++◌, ◌/◌, ◌%◌, arith, take, sub32, add32,
}
use zeitlos.Net.Octets.{get16}
use zeitlos.Net.Tcp.{
  Tcp, established, fin_wait_1, zeroed, tcp_send, tcp_checksum, segment, send_tracked,
  tcp_send_segment, consumed, process_ack, acked, notify, send_ack,
}
use zeitlos.Net.Tcp.Receive.{
  tcp_handle, tcp_poll, read_segment, take_segment, dispatch, in_established, take_data, take_fin,
  poll_timer, rto,
}
use zeitlos.Net.Tcp.Valid.{IsValid}
use zeitlos.Net.Tcp.Run.{Call, send, receive, run}
use zeitlos.Net.Tcp.Wire.{InWords, segment_verifies, read_segment-segment}
use zeitlos.Net.Tcp.Delivery.{delivered, run-delivers}
use zeitlos.Net.Tcp.Timer.{GaveUp, polls, polls_give_up}
use zeitlos.Net.Tcp.Closing.{Arrival, process_ack_stale}

-- An open connection to port 80 of 10.0.0.1, nothing outstanding.
abbrev opened : Tcp
opened = record zeroed {
  state = established;
  remote_ip = 0x0a00_0001;
  remote_port = 80;
  local_port = 50000;
  snd_una = 1000;
  snd_nxt = 1000;
  rcv_nxt = 7001;
  handler = some 0;
  our_ip = 0x0a00_0002;
}

opened-IsValid : IsValid opened
opened-IsValid = ground arith

-- Segments from the peer: ports 80 and 50000, a sequence number in one byte pair, an ACK of 1000, flags.
abbrev from_peer : ℕ → ℕ → ℕ → List ℕ → List ℕ
from_peer seq ack flags octets =
    0
    ∷ 80
    ∷ 0xc3
    ∷ 0x50
    ∷ 0
    ∷ 0
    ∷ seq / 256
    ∷ seq % 256
    ∷ 0
    ∷ 0
    ∷ ack / 256
    ∷ ack % 256
    ∷ 0x50
    ∷ flags
    ∷ 8
    ∷ 0
    ∷ 0
    ∷ 0
    ∷ 0
    ∷ 0
    ∷ octets

abbrev stream : List ℕ
stream = b'h' ∷ b'e' ∷ b'l' ∷ b'l' ∷ b'o' ∷ []

-- The third and the fourth byte come first, then the first two, again the third and fourth.
abbrev shuffled : List Call
shuffled =
    receive 5 0x0a00_0001 (from_peer 7003 1000 0x10 (b'l' ∷ b'l' ∷ [])) 22
    ∷ receive 6 0x0a00_0001 (from_peer 7001 1000 0x10 (b'h' ∷ b'e' ∷ [])) 22
    ∷ send 7 (b'?' ∷ [])
    ∷ receive 8 0x0a00_0001 (from_peer 7001 1000 0x10 (b'h' ∷ b'e' ∷ [])) 22
    ∷ receive 9 0x0a00_0001 (from_peer 7003 1001 0x10 (b'l' ∷ b'l' ∷ [])) 22
    ∷ []

shuffled_delivers : delivered (run shuffled opened).heard ≡ b'h' ∷ b'e' ∷ b'l' ∷ b'l' ∷ []
unfolding tcp_handle take_segment dispatch read_segment in_established take_data take_fin acked
    process_ack notify send_ack tcp_send_segment consumed tcp_send send_tracked
shuffled_delivers = refl

run-delivers_example :
    (n : ℕ) × (n ≤ 5) × (delivered (run shuffled opened).heard ≡ [] ++ take n stream)
unfolding read_segment
run-delivers_example =
    run-delivers stream 7001 shuffled opened (omega arith) opened-IsValid refl refl (
      (λ _. (omega arith, omega arith, refl)),
      (
        (λ _. (omega arith, omega arith, refl)),
        ((λ _. (omega arith, omega arith, refl)), ((λ _. (omega arith, omega arith, refl)), tt)),
      ),
    )

segment_verifies_example :
    tcp_checksum opened.our_ip opened.remote_ip (segment opened 1000 0x18 stream) ≡ 0
segment_verifies_example =
    segment_verifies opened 1000 0x18 stream (omega arith) (omega arith) (omega arith)

opened-InWords : InWords opened
opened-InWords = omega arith

read_segment-segment_example :
    let p = segment opened 1000 0x18 stream in
    (read_segment p 25 ≡ record { seq = 1000; ack = 7001; flags = 0x18; octets = stream; len = 5 })
    × (get16 p 0 ≡ 50000)
    × (get16 p 2 ≡ 80)
read_segment-segment_example =
    read_segment-segment opened 1000 0x18 stream (omega arith) (omega arith) (omega arith)
      opened-InWords (omega arith)

-- One byte is outstanding since tick 0, and has been sent again six times.
abbrev waiting : Tcp
waiting = record opened {
  tx_pending = true;
  tx_seq = 1000;
  tx_flags = 0x18;
  tx_len = 1;
  snd_nxt = 1001;
  retries = 6;
}

waiting-IsValid : IsValid waiting
unfolding consumed
waiting-IsValid = ground arith

polls_give_up_example : GaveUp 1 0 waiting (polls ((6000, 6000) ∷ (12000, 12000) ∷ []) waiting)
unfolding tcp_poll poll_timer rto tcp_send_segment
polls_give_up_example =
    polls_give_up 1 0 ((6000, 6000) ∷ (12000, 12000) ∷ []) waiting waiting-IsValid refl refl refl
      refl (omega arith)

process_ack_stale_example :
    process_ack (sub32 1000 300) waiting
    ≡ (true, record waiting { snd_una = add32 1000 (consumed 0x18 1); tx_pending = false })
unfolding consumed
process_ack_stale_example =
    process_ack_stale 300 waiting refl (omega arith) (omega arith) (omega arith)

-- A close of this side's: its FIN is out.
abbrev closing_down : Tcp
closing_down = record opened {
  state = fin_wait_1;
  tx_pending = true;
  tx_seq = 1000;
  tx_flags = 0x11;
  snd_nxt = 1001;
}

-- The peer acknowledges it, and sends its own.
abbrev last_segments : List Arrival
last_segments =
    record { now = 100; src_ip = 0x0a00_0001; octets = from_peer 7001 1001 0x10 []; len = 20 }
    ∷ record { now = 101; src_ip = 0x0a00_0001; octets = from_peer 7001 1001 0x11 []; len = 20 }
    ∷ []
