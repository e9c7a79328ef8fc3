-- ===== src/Net/Tftp/Limits.antt =====
-- Where a transfer of the TFTP client (sw/apps/net/tftp.c) goes wrong: the last block, and the block
-- behind number 65535.
use zeitlos.Prelude.{ℕ, ◌<◌, ◌≡◌, true, [], ◌∷◌, ◌++◌, append_assoc, arith, length, ltb, Bytes}
use zeitlos.Stream.{
  nothing, blob, send, free, zstream_tag, next_seq, release_last, zstream_send_chunk,
  zstream_send_eof, send_last, z_stream_chunk, z_stream_eof,
}
use zeitlos.Net.Tftp.{
  Tftp, block_size, with_producer, close_port, finish_get, deliver_block, try_deliver_get, send_ack,
  send_last_packet,
}

-- When a block that is not full is held, the receiver has a pull outstanding and the heap grants the
-- blob, what goes out is the chunk with that blob, then the release of the blob, and then the end of
-- the stream: the blob is freed behind the message that points to it, with no pull in between.
pub try_deliver_get_frees :
    (now : ℕ) (t : Tftp) (d : Bytes)
    → t.held_valid ≡ true
    → t.pull_pending ≡ true
    → length t.held_data < block_size
    → t.make_blob t.held_data ≡ blob d
    → let p = t.out_stream in
      let sent = record p { seq = next_seq p; last_chunk = blob d } in
      (try_deliver_get now t).effects
      ≡ t.effects
        ++ (send (record {
          pid = p.consumer_pid;
          subject = z_stream_chunk;
          tag = zstream_tag p.stream_id (next_seq p);
          obj = blob d;
        })
            ∷ free (blob d)
            ∷ send (record {
              pid = p.consumer_pid;
              subject = z_stream_eof;
              tag = zstream_tag p.stream_id (next_seq sent);
              obj = nothing;
            })
            ∷ [])
unfolding try_deliver_get finish_get deliver_block with_producer close_port send_ack
    send_last_packet zstream_send_chunk zstream_send_eof send_last release_last
try_deliver_get_frees now t d h p n b =
    let short : ltb (length t.held_data) block_size ≡ true = ground arith in
    rw (h, p, short, b) (append_assoc t.effects _ _)
