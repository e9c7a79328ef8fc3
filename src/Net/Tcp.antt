-- ===== src/Net/Tcp.antt =====
-- The TCP client (sw/apps/net/tcp.c, tcp.h): one connection, one outstanding segment, no
-- reassembly. What goes to `ip_send` and what the registered handler is called with are lists in the
-- state, in order. The one handler, `on_tcp_event` of telnet.c, only queues bytes and calls nothing
-- of this file. A reading of `z_uptime_ticks()` is an argument.
pub mod Receive
pub mod Valid
pub mod Run
pub mod Wire
pub mod Delivery
pub mod Timer
pub mod Closing
mod Tests
use zeitlos.Prelude.{
  ℕ, suc, ◌+◌, ◌-◌, ◌*◌, ◌/◌, ◌%◌, ◌^◌, Bool, true, false, ◌&&◌, ◌||◌, not, Option, none, some,
  List, [], ◌∷◌, ◌++◌, ltb, leb, ◌==◌, if◌then◌else◌, take, drop, replicate, length, min, add32,
  sub32,
}
use zeitlos.Net.Octets.{byte, get16, get32, hi16, lo16}
use zeitlos.Net.Checksum.{add_words, complement}

-- `tcp_state_t`.
pub data State : Type 0 where
  closed syn_sent established fin_wait_1 fin_wait_2 closing time_wait last_ack : State

abbrev pub is_closed : State → Bool
is_closed closed = true
is_closed _ = false

-- `tcp_event_t`, with the data that comes with it.
pub data Event : Type 0 where
  on_established : Event
  on_data : List ℕ → Event
  on_closed : Event

-- A call of `ip_send`.
pub record Datagram : Type 0 where
  pub dst : ℕ
  pub protocol : ℕ
  pub payload : List ℕ

abbrev pub tcp_max_payload : ℕ
tcp_max_payload = 536

-- `tcp_tcb_t` and the statics beside it. A handler is a number; `sent` and `heard` are the calls made.
pub record Tcp : Type 0 where
  pub state : State
  pub remote_ip : ℕ
  pub remote_port : ℕ
  pub local_port : ℕ
  pub snd_una : ℕ
  pub snd_nxt : ℕ
  pub rcv_nxt : ℕ
  pub tx_pending : Bool
  pub tx_seq : ℕ
  pub tx_flags : ℕ
  pub tx_len : ℕ
  pub tx_buf : List ℕ
  pub last_send_tick : ℕ
  pub retries : ℕ
  pub time_wait_start : ℕ
  pub handler : Option ℕ
  pub our_ip : ℕ
  pub next_local_port : ℕ
  pub sent : List Datagram
  pub heard : List (ℕ × Event)

-- The tests of `TCP_FLAG_FIN`, `_SYN`, `_RST` and `_ACK`.
abbrev pub is_fin : ℕ → Bool
is_fin flags = flags % 2 == 1

abbrev pub is_syn : ℕ → Bool
is_syn flags = flags / 2 % 2 == 1

abbrev pub is_rst : ℕ → Bool
is_rst flags = flags / 4 % 2 == 1

abbrev pub is_ack : ℕ → Bool
is_ack flags = flags / 16 % 2 == 1

abbrev pub flag_syn : ℕ
flag_syn = 0x02

abbrev pub flag_rst : ℕ
flag_rst = 0x04

abbrev pub flag_ack : ℕ
flag_ack = 0x10

abbrev pub flag_ack_psh : ℕ
flag_ack_psh = 0x18

abbrev pub flag_ack_fin : ℕ
flag_ack_fin = 0x11

-- The static structure at boot.
abbrev pub zeroed : Tcp
zeroed = record {
  state = closed;
  remote_ip = 0;
  remote_port = 0;
  local_port = 0;
  snd_una = 0;
  snd_nxt = 0;
  rcv_nxt = 0;
  tx_pending = false;
  tx_seq = 0;
  tx_flags = 0;
  tx_len = 0;
  tx_buf = replicate 536 0;
  last_send_tick = 0;
  retries = 0;
  time_wait_start = 0;
  handler = none;
  our_ip = 0;
  next_local_port = 0;
  sent = [];
  heard = [];
}

pub tcp_init : ℕ → ℕ → Tcp → Tcp
tcp_init now ip t = record t {
  our_ip = ip;
  state = closed;
  tx_pending = false;
  handler = none;
  next_local_port = 49152 + now % 16384;
}

-- The pseudo-header's words, then those of the segment.
pub tcp_checksum : ℕ → ℕ → List ℕ → ℕ
tcp_checksum src_ip dst_ip seg =
    let high = src_ip / 2 ^ 16 % 2 ^ 16 + src_ip % 2 ^ 16 in
    let low = dst_ip / 2 ^ 16 % 2 ^ 16 + dst_ip % 2 ^ 16 in
    complement (add_words (high + low + 6 + length seg) seg)

-- The segment with `csum` for its checksum.
abbrev pub layout : Tcp → ℕ → ℕ → ℕ → List ℕ → List ℕ
layout t csum seq flags octets =
    hi16 t.local_port
    ∷ lo16 t.local_port
    ∷ hi16 t.remote_port
    ∷ lo16 t.remote_port
    ∷ seq / 2 ^ 24 % 2 ^ 8
    ∷ seq / 2 ^ 16 % 2 ^ 8
    ∷ seq / 2 ^ 8 % 2 ^ 8
    ∷ seq % 2 ^ 8
    ∷ t.rcv_nxt / 2 ^ 24 % 2 ^ 8
    ∷ t.rcv_nxt / 2 ^ 16 % 2 ^ 8
    ∷ t.rcv_nxt / 2 ^ 8 % 2 ^ 8
    ∷ t.rcv_nxt % 2 ^ 8
    ∷ 0x50
    ∷ flags
    ∷ hi16 2048
    ∷ lo16 2048
    ∷ hi16 csum
    ∷ lo16 csum
    ∷ 0
    ∷ 0
    ∷ octets

pub segment : Tcp → ℕ → ℕ → List ℕ → List ℕ
segment t seq flags octets =
    layout t (tcp_checksum t.our_ip t.remote_ip (layout t 0 seq flags octets)) seq flags octets

-- The result of `ip_send` is passed on, and no caller reads it.
pub tcp_send_segment : ℕ → ℕ → List ℕ → Tcp → Tcp
tcp_send_segment seq flags octets t =
    let d : Datagram = record {
      dst = t.remote_ip;
      protocol = 6;
      payload = segment t seq flags octets;
    } in
    record t { sent = t.sent ++ (d ∷ []) }

-- The sequence numbers that a segment takes up.
pub consumed : ℕ → ℕ → ℕ
consumed flags len = len + (if is_syn flags then 1 else 0) + (if is_fin flags then 1 else 0)

-- `memcpy(tx_buf, data, len)`.
abbrev pub copy : List ℕ → List ℕ → List ℕ
copy octets buf = octets ++ drop (length octets) buf

pub send_tracked : ℕ → ℕ → List ℕ → Tcp → Tcp
send_tracked now flags octets t = record (tcp_send_segment t.snd_nxt flags octets t) {
  tx_pending = true;
  tx_seq = t.snd_nxt;
  tx_flags = flags;
  tx_len = length octets;
  tx_buf = copy octets t.tx_buf;
  last_send_tick = now;
  retries = 0;
  snd_nxt = add32 t.snd_nxt (consumed flags (length octets));
}

unfoldable pub send_ack : Tcp → Tcp
send_ack t = tcp_send_segment t.snd_nxt flag_ack [] t

pub send_rst : Tcp → Tcp
send_rst t = tcp_send_segment t.snd_nxt flag_rst [] t

pub reset_to_closed : Tcp → Tcp
reset_to_closed t = record t { state = closed; tx_pending = false; handler = none }

-- The clock is read once for the first sequence number and once for the timer.
pub tcp_connect : ℕ → ℕ → ℕ → ℕ → Option ℕ → Tcp → Bool × Tcp
tcp_connect now later dst_ip dst_port handler t = if not (is_closed t.state) then (false, t) else (
  true,
  let port = (t.next_local_port + 1) % 2 ^ 16 in
      let isn = now * 2654435761 % 2 ^ 32 in
      send_tracked later flag_syn [] (record t {
        remote_ip = dst_ip;
        remote_port = dst_port;
        local_port = t.next_local_port;
        next_local_port = if port == 0 then 49152 else port;
        snd_una = isn;
        snd_nxt = isn;
        rcv_nxt = 0;
        handler = handler;
        tx_pending = false;
        state = syn_sent;
      }),
)

abbrev pub is_established : State → Bool
is_established established = true
is_established _ = false

abbrev pub tcp_is_connected : Tcp → Bool
tcp_is_connected t = is_established t.state

unfoldable pub tcp_send : ℕ → List ℕ → Tcp → Bool × Tcp
tcp_send now octets t =
    if not (is_established t.state) || t.tx_pending || ltb tcp_max_payload (length octets)
    then (false, t)
    else (true, send_tracked now flag_ack_psh octets t)

pub tcp_close : ℕ → Tcp → Bool × Tcp
tcp_close now t =
    if not (is_established t.state) || t.tx_pending
    then (false, t)
    else (true, record (send_tracked now flag_ack_fin [] t) { state = fin_wait_1 })

pub tcp_abort : Tcp → Tcp
tcp_abort t = reset_to_closed (if not (is_closed t.state) then send_rst t else t)

-- Without a handler the event is dropped, with a line on the console.
pub notify : Event → Tcp → Tcp
notify ev t = elim t.handler [ none ↦ t | some h ↦ record t { heard = t.heard ++ ((h, ev) ∷ []) } ]

pub process_ack : ℕ → Tcp → Bool × Tcp
process_ack ack_num t =
    let size = consumed t.tx_flags t.tx_len in
    if not t.tx_pending || ltb (sub32 ack_num t.tx_seq) size
    then (false, t)
    else (true, record t { snd_una = add32 t.tx_seq size; tx_pending = false })

-- `if ((flags & TCP_FLAG_ACK) && process_ack(ack))`, the acknowledgment processed only with the flag.
pub acked : ℕ → ℕ → Tcp → Bool × Tcp
acked flags ack t = if is_ack flags then process_ack ack t else (false, t)
