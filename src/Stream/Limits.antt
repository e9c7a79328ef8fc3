-- ===== src/Stream/Limits.antt =====
-- sw/common/zstream.c: where the numbering of the chunks ends, and what a repeated pull is answered.
use zeitlos.Prelude.{ℕ, ◌^◌, ◌<◌, ◌≡◌, ◌≢◌, refl, arith, true, false, [], ◌∷◌}
use zeitlos.Stream.{
  Payload, nothing, Message, send, zstream_tag, tag_seq, Producer, pull, nothing_for_us, next_seq,
  release_last, zstream_producer_handle, zstream_send_chunk, zstream_send_eof, send_last, Consumer,
  error, set_err, malformed_chunk, zstream_consumer_handle, handle_reply, handle_chunk,
  z_stream_pull, z_stream_chunk,
}
use zeitlos.Stream.Tag.{zstream_tag_parts}

tag_seq_small : (tag : ℕ) → tag_seq tag < 2 ^ 16
unfolding tag_seq
tag_seq_small tag = omega arith

-- Once the chunk numbered 65535 is sent, no message of any kind is a pull to the producer: the number that
-- it waits for does not fit a tag.
pub zstream_producer_handle_deaf :
    (st : Producer) (msg : Message) → st.seq ≡ 65535 → (zstream_producer_handle st msg).0 ≢ pull
unfolding zstream_producer_handle next_seq
zstream_producer_handle_deaf st msg e q = ground (arith, e, q, tag_seq_small msg.tag)

-- The pull of the chunk that was just sent, once more.
abbrev pub again : Producer → Message
again st = record {
  pid = st.consumer_pid;
  subject = z_stream_pull;
  tag = zstream_tag st.stream_id st.seq;
  obj = nothing;
}

-- What it is answered.
abbrev pub resent : Producer → Message
resent st = record {
  pid = st.consumer_pid;
  subject = z_stream_chunk;
  tag = zstream_tag st.stream_id st.seq;
  obj = st.last_chunk;
}

handle-again :
    (st : Producer)
    → st.active ≡ true
    → st.seq < 65536
    → zstream_producer_handle st (again st) ≡ (nothing_for_us, st, send (resent st) ∷ [])
unfolding zstream_producer_handle next_seq
handle-again st a h = ground (arith, a, h, zstream_tag_parts st.stream_id st.seq)

-- While the numbers fit a tag, a repeated pull is answered by the chunk that was sent, under the same tag,
-- and the producer does not change.
pub zstream_producer_handle_retry :
    (st : Producer) (chunk : Payload)
    → st.active ≡ true
    → next_seq st < 65536
    → let (sent, es) = zstream_send_chunk st chunk in
      zstream_producer_handle sent (again sent) ≡ (nothing_for_us, sent, es)
unfolding zstream_send_chunk
zstream_producer_handle_retry st chunk a h =
    handle-again (record st { last_chunk = chunk; seq = next_seq st }) a h

ended :
    (st : Producer)
    → (zstream_send_eof st).0 ≡ record st { last_chunk = nothing; seq = next_seq st }
unfolding zstream_send_eof send_last release_last
ended st = refl

-- A repeated pull of the number that the end of the stream was sent under is answered by a chunk that holds
-- nothing, and the consumer that waits for that number takes it for an error.
pub zstream_send_eof_retry :
    (err_len : ℕ) (st : Producer) (c : Consumer)
    → st.active ≡ true
    → next_seq st < 65536
    → c.active ≡ true
    → c.stream_id ≡ st.stream_id
    → c.seq ≡ next_seq st
    → let last = (zstream_send_eof st).0 in
      (zstream_producer_handle last (again last) ≡ (nothing_for_us, last, send (resent last) ∷ []))
      × (zstream_consumer_handle err_len c (resent last)
          ≡ (error (set_err err_len malformed_chunk), record c { active = false }))
unfolding zstream_consumer_handle handle_reply handle_chunk
zstream_send_eof_retry err_len st c a h ca id seq = rw (ended st) (
  handle-again (record st { last_chunk = nothing; seq = next_seq st }) a h,
  ground (arith, ca, id, seq),
)
