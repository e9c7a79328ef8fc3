-- ===== src/Net/Tftp/Handle.antt =====
-- What drives a transfer of the TFTP client (sw/apps/net/tftp.c): packets of the server, messages of
-- the stream, and the timer.
use zeitlos.Prelude.{
  ℕ, ◌+◌, ◌-◌, ◌*◌, ◌%◌, ◌^◌, Bool, true, false, ◌&&◌, ◌||◌, not, [], ◌∷◌, ltb, leb, ◌==◌,
  if◌then◌else◌, length, take, drop, sub32, Bytes,
}
use zeitlos.Net.Octets.{get16}
use zeitlos.Stream.{
  Message, Event, nothing_for_us, pull, abort, Cevent, irrelevant, opened, eof, open_failed, chunk,
  error, zstream_producer_handle, zstream_consumer_handle, z_stream_pull, z_stream_abort,
  z_stream_open_reply, z_stream_chunk, z_stream_eof, z_stream_error,
}
use zeitlos.Net.Tftp.{
  State, t_idle, t_get, t_put, t_done_ok, t_done_err, is_running, Tftp, block_size, timeout_ticks,
  max_retries, op_wrq, op_data, op_ack, op_error, send_last_packet, send_rrq_wrq, send_ack,
  with_producer, close_port, fail, try_deliver_get, pull_next, try_send_put_block,
}

abbrev server_error : Bytes
server_error =
    b's' ∷ b'e' ∷ b'r' ∷ b'v' ∷ b'e' ∷ b'r' ∷ b' ' ∷ b'e' ∷ b'r' ∷ b'r' ∷ b'o' ∷ b'r' ∷ []

abbrev oversized_block : Bytes
oversized_block =
    b'o' ∷ b'v' ∷ b'e' ∷ b'r' ∷ b's' ∷ b'i' ∷ b'z' ∷ b'e' ∷ b'd' ∷ b' ' ∷ b'b' ∷ b'l' ∷ b'o' ∷ b'c'
    ∷ b'k' ∷ b' ' ∷ b'f' ∷ b'r' ∷ b'o' ∷ b'm' ∷ b' ' ∷ b's' ∷ b'e' ∷ b'r' ∷ b'v' ∷ b'e' ∷ b'r' ∷ []

-- The bytes of a text before a NUL.
abbrev pub c_string : Bytes → Bytes
c_string [] = []
c_string (b ∷ bs) = if b == 0 then [] else b ∷ c_string bs

unfoldable pub handle_error : Bytes → Tftp → Tftp
handle_error text t =
    let msg = c_string (take 63 text) in fail (if length msg == 0 then server_error else msg) t

-- A block of a file that is fetched.
unfoldable pub handle_data : ℕ → ℕ → Bytes → Tftp → Tftp
handle_data now blk octets t =
    if t.held_valid
    then t
    else if blk == t.block + 1
    then (if ltb block_size (length octets)
        then fail oversized_block t
        else try_deliver_get now (record t { held_data = octets; held_valid = true; retries = 0 }))
    else if blk == t.block
    then send_ack now blk t
    else t

abbrev pub handle_ack : ℕ → ℕ → Tftp → Tftp
handle_ack now blk t =
    if not (blk == t.block)
    then t
    else if ltb 0 t.block && ltb t.last_chunk_len block_size
    then close_port (record t { retries = 0; state = t_done_ok })
    else try_send_put_block now (record t { retries = 0 })

-- By the opcode, for a packet of the server.
unfoldable pub handle_op : ℕ → Bytes → ℕ → Tftp → Tftp
handle_op now p len t =
    let opcode = get16 p 0 in
    if opcode == op_error
    then handle_error (take (len - 4) (drop 4 p)) t
    else if t.is_get && opcode == op_data
    then handle_data now (get16 p 2) (take (len - 4) (drop 4 p)) t
    else if not t.is_get && opcode == op_ack
    then handle_ack now (get16 p 2) t
    else t

unfoldable pub handle_packet : ℕ → ℕ → ℕ → Bytes → ℕ → Tftp → Tftp
handle_packet now src_ip src_port p len t =
    if not (is_running t.state) || not (src_ip == t.srv_ip) || ltb len 4
    then t
    else if t.srv_port == 0
    then handle_op now p len (record t { srv_port = src_port })
    else if not (src_port == t.srv_port)
    then t
    else handle_op now p len t

abbrev chunk_too_large : Bytes
chunk_too_large =
    b'c' ∷ b'h' ∷ b'u' ∷ b'n' ∷ b'k' ∷ b' ' ∷ b'l' ∷ b'a' ∷ b'r' ∷ b'g' ∷ b'e' ∷ b'r' ∷ b' ' ∷ b't'
    ∷ b'h' ∷ b'a' ∷ b'n' ∷ b' ' ∷ b'a' ∷ b' ' ∷ b'T' ∷ b'F' ∷ b'T' ∷ b'P' ∷ b' ' ∷ b'b' ∷ b'l'
    ∷ b'o' ∷ b'c' ∷ b'k' ∷ []

-- The block that has come goes out, if the server waits for it.
abbrev pub send_if_asked : ℕ → Tftp → Tftp
send_if_asked now t =
    if t.server_ack_pending
    then try_send_put_block now (record t { server_ack_pending = false })
    else t

abbrev pub put_deliver_chunk : ℕ → Bytes → Tftp → Tftp
put_deliver_chunk now octets t =
    if ltb block_size (length octets)
    then fail chunk_too_large t
    else (let u : Tftp = record t { held_data = octets; held_valid = true } in
        if not u.wrq_sent
        then send_rrq_wrq now op_wrq u.put_filename (record u { wrq_sent = true })
        else send_if_asked now u)

abbrev pub put_deliver_eof : ℕ → Tftp → Tftp
put_deliver_eof now t =
    let u : Tftp = record t { held_data = []; held_valid = true } in
    if not t.wrq_sent
    then send_rrq_wrq now op_wrq t.put_filename (record u { wrq_sent = true })
    else if ltb t.last_chunk_len block_size
    then t
    else send_if_asked now u

abbrev receiver_aborted : Bytes
receiver_aborted =
    b'r' ∷ b'e' ∷ b'c' ∷ b'e' ∷ b'i' ∷ b'v' ∷ b'e' ∷ b'r' ∷ b' ' ∷ b'a' ∷ b'b' ∷ b'o' ∷ b'r' ∷ b't'
    ∷ b'e' ∷ b'd' ∷ []

-- An event of the producer's side.
unfoldable pub on_event : ℕ → Event → Tftp → Tftp
on_event now pull t = try_deliver_get now (record t { pull_pending = true })
on_event now abort t = fail receiver_aborted t
on_event now nothing_for_us t = t

-- One of the consumer's.
abbrev pub on_cevent : ℕ → Cevent → Tftp → Tftp
on_cevent now opened t = pull_next t
on_cevent now (open_failed err) t = fail err t
on_cevent now (chunk octets) t = put_deliver_chunk now octets t
on_cevent now eof t = put_deliver_eof now t
on_cevent now (error err) t = fail err t
on_cevent now irrelevant t = t

abbrev pub is_to_producer : ℕ → Bool
is_to_producer subject = subject == z_stream_pull || subject == z_stream_abort

abbrev pub is_to_consumer : ℕ → Bool
is_to_consumer subject =
    subject == z_stream_open_reply
    || subject == z_stream_chunk
    || subject == z_stream_eof
    || subject == z_stream_error

abbrev pub is_getting : State → Bool
is_getting t_get = true
is_getting _ = false

abbrev pub is_putting : State → Bool
is_putting t_put = true
is_putting _ = false

unfoldable pub tftp_handle_stream_msg : ℕ → Message → Tftp → Bool × Tftp
tftp_handle_stream_msg now msg t =
    if is_to_producer msg.subject
    then (if not (is_getting t.state)
        then (false, t)
        else (let (ev, p, es) = zstream_producer_handle t.out_stream msg in
            (true, on_event now ev (with_producer (p, es) t))))
    else if is_to_consumer msg.subject
    then (if not (is_putting t.state)
        then (false, t)
        else (let (ev, c) = zstream_consumer_handle 64 t.in_stream msg in
            (true, on_cevent now ev (record t { in_stream = c }))))
    else (false, t)

-- `tftp_result_t`, with what goes out with it.
pub data Result : Type 0 where
  pending : Result
  done : ℕ → Result
  failed : Bytes → Result

abbrev no_data_to_send : Bytes
no_data_to_send =
    b't' ∷ b'i' ∷ b'm' ∷ b'e' ∷ b'd' ∷ b' ' ∷ b'o' ∷ b'u' ∷ b't' ∷ b' ' ∷ b'w' ∷ b'a' ∷ b'i' ∷ b't'
    ∷ b'i' ∷ b'n' ∷ b'g' ∷ b' ' ∷ b'f' ∷ b'o' ∷ b'r' ∷ b' ' ∷ b'd' ∷ b'a' ∷ b't' ∷ b'a' ∷ b' '
    ∷ b't' ∷ b'o' ∷ b' ' ∷ b's' ∷ b'e' ∷ b'n' ∷ b'd' ∷ []

abbrev pub timed_out : Bytes
timed_out = b't' ∷ b'i' ∷ b'm' ∷ b'e' ∷ b'd' ∷ b' ' ∷ b'o' ∷ b'u' ∷ b't' ∷ []

unfoldable pub check_timers : ℕ → ℕ → Tftp → Tftp
check_timers now later t =
    if is_putting t.state && not t.wrq_sent
    then (if leb (timeout_ticks * max_retries) (sub32 now t.last_tx_ticks)
        then fail no_data_to_send t
        else t)
    else if is_running t.state
    then (if leb timeout_ticks (sub32 now t.last_tx_ticks)
        then (let u : Tftp = record t { retries = (t.retries + 1) % 2 ^ 8 } in
            if ltb max_retries u.retries then fail timed_out u else send_last_packet later u)
        else t)
    else t

-- The result is reported once, with the error's text in a buffer of `err_len` bytes.
unfoldable pub report : State → ℕ → Tftp → Result × Tftp
report t_done_ok err_len t = (done t.buf_len, record t { state = t_idle })
report t_done_err err_len t = (failed (take (err_len - 1) t.err_msg), record t { state = t_idle })
report _ err_len t = (pending, t)

unfoldable pub tftp_poll : ℕ → ℕ → ℕ → Tftp → Result × Tftp
tftp_poll now later err_len t = let u = check_timers now later t in report u.state err_len u
