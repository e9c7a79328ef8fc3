-- ===== src/Net/Tftp/Tests.antt =====
-- A short file over TFTP (sw/apps/net/tftp.c), and the theorems there.
use zeitlos.Prelude.{◌≡◌, refl, true, false, List, [], ◌∷◌, arith, Bytes}
use zeitlos.Stream.{
  nothing, blob, send, free, zstream_tag, tag_stream_id, tag_seq, next_seq, z_stream_pull,
  z_stream_chunk, z_stream_eof, zstream_accept, zstream_producer_handle, zstream_send_chunk,
  zstream_send_eof, send_last, release_last, next_id,
}
use zeitlos.Net.Tftp.{
  t_idle, t_done_ok, Tftp, tftp_get_start, send_rrq_wrq, send_last_packet, send_ack,
  next_local_port, with_producer, close_port, try_deliver_get, deliver_block, finish_get,
}
use zeitlos.Net.Tftp.Handle.{
  handle_packet, handle_op, handle_data, on_event, tftp_handle_stream_msg,
}
use zeitlos.Net.Tftp.Get.{Call, packet, message, run}
use zeitlos.Net.Tftp.Limits.{try_deliver_get_frees}

abbrev idle : Tftp
idle = record {
  state = t_idle;
  is_get = false;
  srv_ip = 0;
  srv_port = 0;
  local_port = 0;
  block = 0;
  buf_len = 0;
  last_chunk_len = 0;
  last_tx_ticks = 0;
  retries = 0;
  last_pkt = [];
  err_msg = [];
  out_stream = record {
    stream_id = 0;
    consumer_pid = 0;
    seq = 0;
    active = false;
    last_chunk = nothing;
  };
  pull_pending = false;
  in_stream = record { stream_id = 0; producer_pid = 0; seq = 0; active = false; open_tag = 0 };
  put_filename = [];
  wrq_sent = false;
  server_ack_pending = false;
  held_data = [];
  held_valid = false;
  port_counter = 49151;
  next_stream_id = 1;
  next_open_tag = 1;
  listeners = [];
  make_blob = blob;
  sent = [];
  effects = [];
}

abbrev file : Bytes
file = b'h' ∷ b'i' ∷ []

abbrev name : Bytes
name = b'f' ∷ []

-- The receiver pulls, and the server sends its one block.
abbrev fetching : List Call
fetching =
    message 3 (record { pid = 4; subject = z_stream_pull; tag = 0x1_0000; obj = nothing })
    ∷ packet 5 0x0a00_0001 2000 (0 ∷ 3 ∷ 0 ∷ 1 ∷ file) 6
    ∷ []

abbrev started : Tftp
started = (tftp_get_start 2 0x0a00_0001 name 4 9 idle).1

fetched : (run fetching started).state ≡ t_done_ok
unfolding tftp_get_start send_rrq_wrq send_last_packet next_local_port zstream_accept
    tftp_handle_stream_msg zstream_producer_handle tag_stream_id tag_seq next_seq next_id on_event
    with_producer try_deliver_get handle_packet handle_op handle_data deliver_block finish_get
    close_port send_ack zstream_send_chunk zstream_send_eof send_last release_last
fetched = refl

abbrev holding : Tftp
holding = record idle { held_data = file; held_valid = true; pull_pending = true }

try_deliver_get_frees_example :
    (try_deliver_get 7 holding).effects
    ≡ send (record {
      pid = 0;
      subject = z_stream_chunk;
      tag = zstream_tag 0 (next_seq holding.out_stream);
      obj = blob file;
    })
      ∷ free (blob file)
      ∷ send (record {
        pid = 0;
        subject = z_stream_eof;
        tag = zstream_tag 0 (
            next_seq (record holding.out_stream {
              seq = next_seq holding.out_stream;
              last_chunk = blob file;
            }));
        obj = nothing;
      })
      ∷ []
try_deliver_get_frees_example = try_deliver_get_frees 7 holding file refl refl (omega arith) refl

abbrev far : Tftp
far = record idle { block = 65535 }
