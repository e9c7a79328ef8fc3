-- ===== src/Net/Telnet.antt =====
-- The telnet client (sw/apps/net/telnet.c) over TCP: the parser that strips commands from the stream,
-- the answers to negotiation, and the queue between the application and the one outstanding segment.
-- What the application's handlers are called with is a list; whether it set them is not modelled, since
-- telnet_connect's one caller sets all three.
pub mod Stream
pub mod Queue
use zeitlos.Prelude.{
  ℕ, suc, ◌+◌, ◌-◌, ◌%◌, ◌^◌, Bool, true, false, ◌||◌, not, some, List, [], ◌∷◌, ◌++◌, ltb, ◌==◌,
  if◌then◌else◌, length, take, drop,
}
use zeitlos.Net.Tcp.{
  Tcp, Event, on_established, on_data, on_closed, tcp_max_payload, tcp_is_connected, tcp_send,
  tcp_connect, tcp_close, tcp_abort,
}

abbrev pub iac : ℕ
iac = 255

abbrev pub dont : ℕ
dont = 254

abbrev pub do_ : ℕ
do_ = 253

abbrev pub wont : ℕ
wont = 252

abbrev pub will : ℕ
will = 251

abbrev pub sb : ℕ
sb = 250

abbrev pub se : ℕ
se = 240

-- `telnet_parse_state_t`.
pub data Pstate : Type 0 where
  tn_data tn_iac tn_cmd tn_sb tn_sb_iac : Pstate

-- A call of a handler of the application.
pub data Notice : Type 0 where
  established : Notice
  received : List ℕ → Notice
  closed : Notice

pub record Telnet : Type 0 where
  pub pstate : Pstate
  pub pending_cmd : ℕ
  pub tx_queue : List ℕ
  pub notices : List Notice

abbrev pub tx_queue_max : ℕ
tx_queue_max = 512

unfoldable pub queue_bytes : List ℕ → Telnet → Bool × Telnet
queue_bytes octets t =
    if ltb tx_queue_max (length t.tx_queue + length octets)
    then (false, t)
    else (true, record t { tx_queue = t.tx_queue ++ octets })

-- What a DO or a WILL of an option is answered by.
unfoldable pub reply_to : ℕ → ℕ → ℕ
reply_to cmd opt = if cmd == do_ then wont else if opt == 1 || opt == 3 then do_ else dont

unfoldable pub answer_negotiation : ℕ → ℕ → Telnet → Telnet
answer_negotiation cmd opt t = (queue_bytes (iac ∷ reply_to cmd opt ∷ opt ∷ []) t).1

abbrev pub is_option_cmd : ℕ → Bool
is_option_cmd b = b == do_ || b == dont || b == will || b == wont

-- One byte, by the parser's state: the bytes that it adds to the clean data, and the new state.
unfoldable pub feed_byte : Pstate → ℕ → Telnet → List ℕ × Telnet
feed_byte tn_data b t =
    if b == iac then ([], record t { pstate = tn_iac }) else (b ∷ [], record t { pstate = tn_data })
feed_byte tn_iac b t =
    if b == iac
    then (b ∷ [], record t { pstate = tn_data })
    else if is_option_cmd b
    then ([], record t { pending_cmd = b; pstate = tn_cmd })
    else if b == sb
    then ([], record t { pstate = tn_sb })
    else ([], record t { pstate = tn_data })
feed_byte tn_cmd b t = (
  [],
  record (if t.pending_cmd == do_ || t.pending_cmd == will
      then answer_negotiation t.pending_cmd b t
      else t) { pstate = tn_data },
)
feed_byte tn_sb b t =
    if b == iac then ([], record t { pstate = tn_sb_iac }) else ([], record t { pstate = tn_sb })
feed_byte tn_sb_iac b t = ([], record t { pstate = if b == se then tn_data else tn_sb })

-- The loop, with the clean data collected.
unfoldable pub feed_loop : List ℕ → Telnet → List ℕ × Telnet
feed_loop [] t = ([], t)
feed_loop (b ∷ bs) t =
    let (out, u) = feed_byte t.pstate b t in let (rest, w) = feed_loop bs u in (out ++ rest, w)

pub telnet_feed : List ℕ → Telnet → Telnet
telnet_feed octets t =
    let (clean, u) = feed_loop octets t in
    if length clean == 0 then u else record u { notices = u.notices ++ (received clean ∷ []) }

pub on_tcp_event : Event → Telnet → Telnet
on_tcp_event on_established t = record t { notices = t.notices ++ (established ∷ []) }
on_tcp_event (on_data octets) t = telnet_feed octets t
on_tcp_event on_closed t = record t { notices = t.notices ++ (closed ∷ []) }

-- `on_tcp_event`, as a handler of the TCP client.
abbrev pub telnet_handler : ℕ
telnet_handler = 0

abbrev pub telnet_connect : ℕ → ℕ → ℕ → Telnet × Tcp → Bool × (Telnet × Tcp)
telnet_connect now later ip (t, c) =
    let (started, d) = tcp_connect now later ip 23 (some telnet_handler) c in
    (started, (record t { pstate = tn_data; tx_queue = [] }, d))

-- Each 255 of the data twice.
pub escape : List ℕ → List ℕ
escape [] = []
escape (b ∷ bs) = b ∷ (if b == iac then iac ∷ escape bs else escape bs)

-- The number of bytes that are 255.
pub count_iac : List ℕ → ℕ
count_iac [] = 0
count_iac (b ∷ bs) = (if b == iac then 1 else 0) + count_iac bs

-- `escaped_len` is 16 bits wide.
pub telnet_send : List ℕ → Telnet → Tcp → Bool × Telnet
telnet_send octets t c =
    if not (tcp_is_connected c)
    then (false, t)
    else if ltb tx_queue_max (length t.tx_queue + (length octets + count_iac octets) % 2 ^ 16)
    then (false, t)
    else (true, record t { tx_queue = t.tx_queue ++ escape octets })

abbrev pub telnet_close : ℕ → Tcp → Tcp
telnet_close now c = (tcp_close now c).1

abbrev pub telnet_abort : Telnet × Tcp → Telnet × Tcp
telnet_abort (t, c) = (record t { tx_queue = []; pstate = tn_data }, tcp_abort c)

abbrev pub chunk_len : List ℕ → ℕ
chunk_len q = if ltb tcp_max_payload (length q) then tcp_max_payload else length q

pub telnet_poll : ℕ → Telnet × Tcp → Telnet × Tcp
telnet_poll now (t, c) =
    if not (tcp_is_connected c)
    then (t, c)
    else if length t.tx_queue == 0
    then (t, c)
    else (let n = chunk_len t.tx_queue in
        let (taken, d) = tcp_send now (take n t.tx_queue) c in
        if taken then (record t { tx_queue = drop n t.tx_queue }, d) else (t, d))
