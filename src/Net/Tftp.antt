-- ===== src/Net/Tftp.antt =====
-- The TFTP client (sw/apps/net/tftp.c): one transfer at a time between a server and a stream
-- (sw/common/zstream.c). Datagrams handed to `udp_send`, whose result is only printed, and what the
-- stream sends and frees are lists in the state, in order.
pub mod Handle
pub mod Chunks
pub mod Blocks
pub mod Get
pub mod Limits
mod Tests
use zeitlos.Prelude.{
  ℕ, suc, ◌+◌, ◌-◌, ◌*◌, ◌/◌, ◌%◌, ◌^◌, Bool, true, false, ◌&&◌, ◌||◌, not, List, [], ◌∷◌, ◌++◌,
  ltb, leb, ◌==◌, if◌then◌else◌, length, take, drop, Bytes,
}
use zeitlos.Net.Octets.{hi16, lo16}
use zeitlos.Net.Udp.{Listener, udp_listen, udp_close}
use zeitlos.Stream.{
  Payload, nothing, Effect, Producer, Consumer, zstream_accept, zstream_send_chunk,
  zstream_send_eof, zstream_send_error, zstream_open_async, zstream_pull_async, zstream_abort,
}

-- `tstate_t`.
pub data State : Type 0 where
  t_idle t_get t_put t_done_ok t_done_err : State

abbrev pub is_running : State → Bool
is_running t_get = true
is_running t_put = true
is_running _ = false

-- A call of `udp_send`.
pub record Packet : Type 0 where
  pub dst_ip : ℕ
  pub dst_port : ℕ
  pub src_port : ℕ
  pub octets : Bytes

-- The statics of the file, the two counters of zstream.c, and the table of udp.c. `make_blob` is what
-- `z_obj_blob` makes of data: a blob, or nothing when the heap is full. `held_data` is as long as
-- `held_len`.
pub record Tftp : Type 0 where
  pub state : State
  pub is_get : Bool
  pub srv_ip : ℕ
  pub srv_port : ℕ
  pub local_port : ℕ
  pub block : ℕ
  pub buf_len : ℕ
  pub last_chunk_len : ℕ
  pub last_tx_ticks : ℕ
  pub retries : ℕ
  pub last_pkt : Bytes
  pub err_msg : Bytes
  pub out_stream : Producer
  pub pull_pending : Bool
  pub in_stream : Consumer
  pub put_filename : Bytes
  pub wrq_sent : Bool
  pub server_ack_pending : Bool
  pub held_data : Bytes
  pub held_valid : Bool
  pub port_counter : ℕ
  pub next_stream_id : ℕ
  pub next_open_tag : ℕ
  pub listeners : List Listener
  pub make_blob : Bytes → Payload
  pub sent : List Packet
  pub effects : List Effect

abbrev pub block_size : ℕ
block_size = 512

abbrev pub timeout_ticks : ℕ
timeout_ticks = 366

abbrev pub max_retries : ℕ
max_retries = 5

abbrev pub op_rrq : ℕ
op_rrq = 1

abbrev pub op_wrq : ℕ
op_wrq = 2

abbrev pub op_data : ℕ
op_data = 3

abbrev pub op_ack : ℕ
op_ack = 4

abbrev pub op_error : ℕ
op_error = 5

pub set_err : Bytes → Tftp → Tftp
set_err msg t = record t { err_msg = take 63 msg }

-- The next ephemeral port, from the counter in 16 bits.
pub next_local_port : ℕ → ℕ
next_local_port p = let q = (p + 1) % 2 ^ 16 in if ltb q 49152 then 49152 else q

pub send_last_packet : ℕ → Tftp → Tftp
send_last_packet now t =
    let p : Packet = record {
      dst_ip = t.srv_ip;
      dst_port = if t.srv_port == 0 then 69 else t.srv_port;
      src_port = t.local_port;
      octets = t.last_pkt;
    } in
    record t { sent = t.sent ++ (p ∷ []); last_tx_ticks = now }

-- "octet" and its NUL.
abbrev pub octet_mode : Bytes
octet_mode = b'o' ∷ b'c' ∷ b't' ∷ b'e' ∷ b't' ∷ 0 ∷ []

pub send_rrq_wrq : ℕ → ℕ → Bytes → Tftp → Tftp
send_rrq_wrq now opcode filename t =
    send_last_packet now
      (record t { last_pkt = 0 ∷ opcode ∷ (take 506 filename ++ (0 ∷ octet_mode)); srv_port = 0 })

unfoldable pub send_ack : ℕ → ℕ → Tftp → Tftp
send_ack now blk t =
    send_last_packet now (record t { last_pkt = 0 ∷ op_ack ∷ hi16 blk ∷ lo16 blk ∷ [] })

abbrev pub send_data : ℕ → ℕ → Bytes → Tftp → Tftp
send_data now blk octets t =
    send_last_packet now (record t { last_pkt = 0 ∷ op_data ∷ hi16 blk ∷ lo16 blk ∷ octets })

-- What a call of the producer's side leaves.
pub with_producer : Producer × List Effect → Tftp → Tftp
with_producer (p, es) t = record t { out_stream = p; effects = t.effects ++ es }

abbrev pub with_consumer : Consumer × List Effect → Tftp → Tftp
with_consumer (c, es) t = record t { in_stream = c; effects = t.effects ++ es }

pub close_port : Tftp → Tftp
close_port t = record t { listeners = udp_close t.local_port t.listeners }

pub fail : Bytes → Tftp → Tftp
fail msg t =
    let u = close_port (record (set_err msg t) { state = t_done_err }) in
    if u.is_get
    then (if u.out_stream.active then with_producer (zstream_send_error u.out_stream msg) u else u)
    else (if u.in_stream.active then with_consumer (zstream_abort u.in_stream) u else u)

-- The end of a file that was fetched: a block that is not full.
pub finish_get : Tftp → Tftp
finish_get t =
    let u = close_port (record t { state = t_done_ok }) in
    with_producer (zstream_send_eof u.out_stream) u

-- The held block goes to the receiver, and is acknowledged.
pub deliver_block : ℕ → Tftp → Tftp
deliver_block now t =
    let u = with_producer (zstream_send_chunk t.out_stream (t.make_blob t.held_data)) t in
    send_ack now ((t.block + 1) % 2 ^ 16) (record u {
      block = (t.block + 1) % 2 ^ 16;
      buf_len = (t.buf_len + length t.held_data) % 2 ^ 32;
      pull_pending = false;
      held_valid = false;
    })

pub try_deliver_get : ℕ → Tftp → Tftp
try_deliver_get now t =
    if not t.held_valid || not t.pull_pending
    then t
    else if ltb (length t.held_data) block_size
    then finish_get (deliver_block now t)
    else deliver_block now t

abbrev pub pull_next : Tftp → Tftp
pull_next t = record t { effects = t.effects ++ zstream_pull_async t.in_stream }

abbrev pub send_block : ℕ → Tftp → Tftp
send_block now t =
    let blk = (t.block + 1) % 2 ^ 16 in
    let len = length t.held_data in
    let u : Tftp = record (send_data now blk t.held_data (record t { block = blk })) {
      buf_len = (t.buf_len + len) % 2 ^ 32;
      last_chunk_len = len;
      held_valid = false;
    } in
    if len == block_size then pull_next u else u

abbrev pub try_send_put_block : ℕ → Tftp → Tftp
try_send_put_block now t =
    if not t.held_valid then record t { server_ack_pending = true } else send_block now t

pub tftp_get_start : ℕ → ℕ → Bytes → ℕ → ℕ → Tftp → Bool × Tftp
tftp_get_start now server_ip filename receiver_pid open_tag t =
    if is_running t.state
    then (false, t)
    else (let port = next_local_port t.port_counter in
        let (p, id, es) = zstream_accept t.next_stream_id receiver_pid open_tag in
        let u : Tftp = record t {
          srv_ip = server_ip;
          srv_port = 0;
          local_port = port;
          port_counter = port;
          is_get = true;
          buf_len = 0;
          block = 0;
          retries = 0;
          pull_pending = false;
          held_valid = false;
          out_stream = p;
          next_stream_id = id;
          effects = t.effects ++ es;
          listeners = udp_listen port 1 t.listeners;
        } in
        (true, record (send_rrq_wrq now op_rrq filename u) { state = t_get }))

abbrev pub tftp_put_start : ℕ → ℕ → Bytes → ℕ → Tftp → Bool × Tftp
tftp_put_start now server_ip filename sender_pid t =
    if is_running t.state
    then (false, t)
    else (let port = next_local_port t.port_counter in
        let (c, tag, es) = zstream_open_async t.next_open_tag sender_pid nothing in
        (
          true,
          record t {
            srv_ip = server_ip;
            srv_port = 0;
            local_port = port;
            port_counter = port;
            is_get = false;
            buf_len = 0;
            block = 0;
            last_chunk_len = 0;
            retries = 0;
            wrq_sent = false;
            server_ack_pending = false;
            held_valid = false;
            put_filename = take 63 filename;
            listeners = udp_listen port 1 t.listeners;
            last_tx_ticks = now;
            in_stream = c;
            next_open_tag = tag;
            effects = t.effects ++ es;
            state = t_put;
          },
        ))
