-- ===== src/Port.antt =====
-- Ports (sw/common/zport.c, sw/common/zport.h): connections over messages. The calls send through the
-- kernel of sw/os/msg.c; what `z_obj_blob` and `z_obj_str` return is an argument, and the headers that
-- `z_obj_free` gets are in the result.
pub mod Ring
pub mod Wire
pub mod Kept
pub mod Safety
pub mod Limits
mod Tests
use zeitlos.Prelude.{
  ℕ, ◌+◌, ◌%◌, ◌*◌, ◌/◌, Bool, true, false, ◌||◌, ◌&&◌, not, Option, none, some, List, [], ◌∷◌, ltb,
  leb, ◌==◌, if◌then◌else◌, get_or, set, add32, sub32,
}
use zeitlos.Zobj.{Tag, Obj, blob, uint32, z_obj_none}
use zeitlos.Msg.{Envelope, Rv, ok, fail, Kernel, z_msg_new_send, read_envelope}

abbrev pub port_connect : ℕ
port_connect = 120

abbrev pub port_connected : ℕ
port_connected = 121

abbrev pub port_refused : ℕ
port_refused = 122

abbrev pub port_data : ℕ
port_data = 123

abbrev pub port_close : ℕ
port_close = 124

abbrev pub port_data_ack : ℕ
port_data_ack = 125

abbrev pub max_pending_sends : ℕ
max_pending_sends = 8

abbrev pub connect_timeout_ticks : ℕ
connect_timeout_ticks = 732 * 2

abbrev pub ack_retry_ticks : ℕ
ack_retry_ticks = 732 / 2

-- `z_port_t`. An entry of `pending` is the header's address.
pub record Port : Type 0 where
  pub peer_pid : ℕ
  pub conn_id : ℕ
  pub connected : Bool
  pub pending : List ℕ
  pub pending_head : ℕ
  pub pending_count : ℕ

abbrev pub is_blob : Tag → Bool
is_blob blob = true
is_blob _ = false

-- The header of a send goes behind the others.
unfoldable pub push : ℕ → Port → Port
push header p = record p {
  pending = set p.pending (add32 p.pending_head p.pending_count % max_pending_sends) header;
  pending_count = add32 p.pending_count 1;
}

-- What a call returns: its status, the port, the kernel, and the headers that it frees.
pub record Outcome : Type 0 where
  pub status : Rv
  pub port : Port
  pub kernel : Kernel
  pub freed : List ℕ

abbrev refused_send : Port → Kernel → Outcome
refused_send p k = record { status = fail; port = p; kernel = k; freed = [] }

-- `obj` is what `z_obj_blob` makes of the data.
pub z_port_send : Obj → Port → Kernel → Outcome
z_port_send obj p k =
    if not p.connected
    then refused_send p k
    else if leb max_pending_sends p.pending_count
    then refused_send p k
    else if not (is_blob obj.tag)
    then refused_send p k
    else (let (rv, k') = z_msg_new_send p.peer_pid port_data p.conn_id obj k in
        elim rv [
          | fail ↦ record { status = fail; port = p; kernel = k'; freed = obj.val ∷ [] }
          | ok ↦ record { status = ok; port = push obj.val p; kernel = k'; freed = [] }
        ])

pub z_port_close : Port → Kernel → Port × Kernel
z_port_close p k =
    if not p.connected
    then (p, k)
    else (let (_, k') = z_msg_new_send p.peer_pid port_close p.conn_id z_obj_none k in
        (record p { connected = false }, k'))

-- One round of a waiting loop: the clock's reading, and what the other processes do before it.
pub record Turn : Type 0 where
  pub clock : ℕ
  pub others : Kernel → Kernel

-- One attempt to acknowledge.
unfoldable pub send_ack : Envelope → Kernel → Rv × Kernel
send_ack msg k = z_msg_new_send msg.from port_data_ack msg.tag z_obj_none k

-- The rounds of `z_port_send_ack` behind its first attempt; with no turn left it still waits.
pub ack_loop : ℕ → List Turn → Envelope → Rv × Kernel → Option (Rv × Kernel)
ack_loop start turns msg (ok, k) = some (ok, k)
ack_loop start [] msg (fail, k) = none
ack_loop start (t ∷ turns) msg (fail, k) =
    let k' = t.others k in
    let rest = ack_loop start turns msg (send_ack msg k') in
    if ltb (sub32 t.clock start) ack_retry_ticks then rest else some (fail, k')

pub z_port_send_ack : ℕ → List Turn → Envelope → Kernel → Option (Rv × Kernel)
z_port_send_ack start turns msg k =
    if not (is_blob msg.obj.tag) then some (ok, k) else ack_loop start turns msg (send_ack msg k)

-- The oldest pending entry goes.
pub release : Port → List ℕ × Port
release p = (
  get_or p.pending p.pending_head 0 ∷ [],
  record p {
    pending_head = add32 p.pending_head 1 % max_pending_sends;
    pending_count = sub32 p.pending_count 1;
  },
)

pub z_port_handle_ack : Envelope → Port → List ℕ × Port
z_port_handle_ack msg p =
    if not p.connected || not (msg.tag == p.conn_id)
    then ([], p)
    else if p.pending_count == 0
    then ([], p)
    else release p

pub z_port_accept : Envelope → ℕ → Port → Kernel → Port × Kernel
z_port_accept msg conn_id p k =
    let (_, k') =
      z_msg_new_send msg.from port_connected 0 (record { tag = uint32; val = conn_id }) k in
    (record p { peer_pid = msg.from; conn_id = conn_id; connected = true }, k')

-- `reason` is what `z_obj_str` makes of the text.
abbrev pub z_port_refuse : Envelope → Obj → Kernel → Kernel
z_port_refuse msg reason k = (z_msg_new_send msg.from port_refused 0 reason k).1

-- What the connecting loop makes of a message: an end with a status, or another round.
abbrev pub connect_reply : Envelope → Port → Option (Rv × Port)
connect_reply msg p =
    if msg.subject == port_connected && msg.tag == 0
    then some (ok, record p { conn_id = msg.obj.val; connected = true })
    else if msg.subject == port_refused && msg.tag == 0
    then some (fail, p)
    else none

-- With no turn left it still waits.
pub connect_loop : ℕ → ℕ → List Turn → Port → Kernel → Option (Rv × Port × Kernel)
connect_loop start timeout [] p k = none
connect_loop start timeout (t ∷ turns) p k =
    let (got, k') = read_envelope (t.others k) in
    let rest = connect_loop start timeout turns p k' in
    if not (ltb (sub32 t.clock start) timeout) then some (fail, p, t.others k) else elim got [
      | none ↦ rest
      | some msg ↦ elim (connect_reply msg p) [ none ↦ rest | some (rv, q) ↦ some (rv, q, k') ]
    ]

pub z_port_connect_arg_timeout :
    ℕ → ℕ → Obj → ℕ → List Turn → Port → Kernel → Option (Rv × Port × Kernel)
z_port_connect_arg_timeout start provider arg timeout turns p k =
    let (_, k') = z_msg_new_send provider port_connect 0 arg k in
    connect_loop start timeout turns
      (record p { peer_pid = provider; conn_id = 0; connected = false }) k'

abbrev pub z_port_connect : ℕ → ℕ → List Turn → Port → Kernel → Option (Rv × Port × Kernel)
z_port_connect start provider turns p k =
    z_port_connect_arg_timeout start provider z_obj_none connect_timeout_ticks turns p k
