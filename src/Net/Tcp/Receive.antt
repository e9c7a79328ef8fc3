-- ===== src/Net/Tcp/Receive.antt =====
-- Segments that arrive and the timer (sw/apps/net/tcp.c): `tcp_handle`, by the state, and
-- `tcp_poll`.
use zeitlos.Prelude.{
  ℕ, ◌+◌, ◌-◌, ◌*◌, ◌/◌, ◌%◌, ◌^◌, Bool, ◌&&◌, ◌||◌, not, List, [], ltb, leb, ◌==◌, if◌then◌else◌,
  take, drop, add32, sub32,
}
use zeitlos.Net.Octets.{byte, get16, get32}
use zeitlos.Net.Tcp.{
  State, closed, syn_sent, established, fin_wait_1, fin_wait_2, closing, time_wait, last_ack,
  is_closed, on_established, on_data, on_closed, Tcp, is_fin, is_syn, is_rst, is_ack, flag_ack_fin,
  tcp_send_segment, send_tracked, send_ack, reset_to_closed, notify, process_ack, acked,
}

-- What `tcp_handle` reads of a segment.
pub record Seg : Type 0 where
  pub seq : ℕ
  pub ack : ℕ
  pub flags : ℕ
  pub octets : List ℕ
  pub len : ℕ

unfoldable pub in_syn_sent : Seg → Tcp → Tcp
in_syn_sent s t =
    if not (is_syn s.flags) || not (is_ack s.flags)
    then t
    else (let (covered, u) = process_ack s.ack t in
        if not covered
        then t
        else notify on_established
            (send_ack (record u { rcv_nxt = add32 s.seq 1; state = established })))

-- The data of a segment in the established state.
unfoldable pub take_data : Seg → Tcp → Tcp
take_data s t =
    if s.len == 0
    then t
    else if s.seq == t.rcv_nxt
    then notify (on_data s.octets) (send_ack (record t { rcv_nxt = add32 t.rcv_nxt s.len }))
    else if ltb s.seq t.rcv_nxt
    then send_ack t
    else t

-- The peer's FIN is acknowledged, and answered by a FIN if nothing is outstanding.
unfoldable pub answer_fin : ℕ → Tcp → Tcp
answer_fin now t =
    let u = send_ack (record t { rcv_nxt = add32 t.rcv_nxt 1 }) in
    if not u.tx_pending
    then record (send_tracked now flag_ack_fin [] u) { state = last_ack }
    else record u { state = last_ack }

-- A FIN in the established state is taken in order only.
unfoldable pub take_fin : ℕ → Seg → Tcp → Tcp
take_fin now s t =
    if not (is_fin s.flags)
    then t
    else if not (add32 s.seq s.len == t.rcv_nxt)
    then t
    else notify on_closed (answer_fin now t)

unfoldable pub in_established : ℕ → Seg → Tcp → Tcp
in_established now s t = take_fin now s (take_data s (acked s.flags s.ack t).1)

unfoldable pub in_fin_wait_1 : ℕ → Seg → Tcp → Tcp
in_fin_wait_1 now s t =
    let (fin_acked, u) = acked s.flags s.ack t in
    if is_fin s.flags
    then (let v = send_ack (record u { rcv_nxt = add32 s.seq 1 }) in
        if fin_acked
        then record v { state = time_wait; time_wait_start = now }
        else record v { state = closing })
    else if fin_acked
    then record u { state = fin_wait_2 }
    else u

unfoldable pub in_fin_wait_2 : ℕ → Seg → Tcp → Tcp
in_fin_wait_2 now s t =
    if is_fin s.flags
    then record (send_ack (record t { rcv_nxt = add32 s.seq 1 })) {
      state = time_wait;
      time_wait_start = now;
    }
    else t

unfoldable pub in_closing : ℕ → Seg → Tcp → Tcp
in_closing now s t =
    let (covered, u) = acked s.flags s.ack t in
    if covered then record u { state = time_wait; time_wait_start = now } else u

unfoldable pub in_last_ack : Seg → Tcp → Tcp
in_last_ack s t =
    let (covered, u) = acked s.flags s.ack t in if covered then reset_to_closed u else u

unfoldable pub in_time_wait : Seg → Tcp → Tcp
in_time_wait s t = if is_fin s.flags then send_ack t else t

-- The `switch`.
unfoldable pub dispatch : State → ℕ → Seg → Tcp → Tcp
dispatch syn_sent now s t = in_syn_sent s t
dispatch established now s t = in_established now s t
dispatch fin_wait_1 now s t = in_fin_wait_1 now s t
dispatch fin_wait_2 now s t = in_fin_wait_2 now s t
dispatch closing now s t = in_closing now s t
dispatch last_ack now s t = in_last_ack s t
dispatch time_wait now s t = in_time_wait s t
dispatch closed now s t = t

unfoldable pub take_segment : ℕ → Seg → Tcp → Tcp
take_segment now s t =
    if is_rst s.flags then reset_to_closed (notify on_closed t) else dispatch t.state now s t

-- The length of the header in bytes.
abbrev pub offset_of : List ℕ → ℕ
offset_of p = byte p 12 / 2 ^ 4 * 4

unfoldable pub read_segment : List ℕ → ℕ → Seg
read_segment p len =
    let n = len - offset_of p in
    record {
      seq = get32 p 4;
      ack = get32 p 8;
      flags = byte p 13;
      octets = take n (drop (offset_of p) p);
      len = n;
    }

abbrev pub is_ours : Tcp → ℕ → List ℕ → Bool
is_ours t src_ip p =
    src_ip == t.remote_ip && get16 p 0 == t.remote_port && get16 p 2 == t.local_port

unfoldable pub tcp_handle : ℕ → ℕ → List ℕ → ℕ → Tcp → Tcp
tcp_handle now src_ip p len t =
    if is_closed t.state || ltb len 20 || not (is_ours t src_ip p)
    then t
    else if ltb (offset_of p) 20 || ltb len (offset_of p)
    then t
    else take_segment now (read_segment p len) t

abbrev pub max_retries : ℕ
max_retries = 7

abbrev pub time_wait_ticks : ℕ
time_wait_ticks = 732 * 3

-- The wait before the next retransmission.
unfoldable pub rto : ℕ → ℕ
rto retries = 366 * 2 ^ (if ltb retries 4 then retries else 4)

unfoldable pub poll_timer : ℕ → ℕ → Tcp → Tcp
poll_timer now later t =
    if not t.tx_pending || ltb (sub32 now t.last_send_tick) (rto t.retries)
    then t
    else if leb max_retries t.retries
    then reset_to_closed (notify on_closed t)
    else record (tcp_send_segment t.tx_seq t.tx_flags (take t.tx_len t.tx_buf) t) {
      last_send_tick = later;
      retries = (t.retries + 1) % 2 ^ 8;
    }

unfoldable pub poll_time_wait : ℕ → Tcp → Tcp
poll_time_wait now t =
    if leb time_wait_ticks (sub32 now t.time_wait_start) then reset_to_closed t else t

-- The clock is read for the test, and again after a retransmission.
unfoldable pub tcp_poll : ℕ → ℕ → Tcp → Tcp
tcp_poll now later t = elim t.state [
  | closed ↦ t
  | time_wait ↦ poll_time_wait now t
  | _ ↦ poll_timer now later t
]
