-- ===== src/Stream.antt =====
-- Streams of chunks over messages (sw/common/zstream.c, sw/common/zstream.h): the producer's side, and the
-- consumer's in its two forms. An object is what it holds; `z_msg_new_send` and `z_obj_free` are effects;
-- what `z_msg_read` and `z_uptime_ticks` return is the caller's.
pub mod Tag
pub mod Transfer
pub mod Limits
pub mod Waiting
pub mod Blocking
mod Tests
use zeitlos.Prelude.{
  ℕ, zero, suc, ◌+◌, ◌-◌, ◌*◌, ◌/◌, ◌%◌, ◌^◌, Bool, true, false, ◌&&◌, ◌||◌, not, Option, none,
  some, List, [], ◌∷◌, ◌++◌, ltb, leb, ◌==◌, if◌then◌else◌, take, add32, sub32, Bytes,
}

-- `z_obj_t`, for what a stream sends: nothing, a number, a string (`none` for a NULL pointer), a blob.
pub data Payload : Type 0 where
  nothing other : Payload
  number : ℕ → Payload
  text : Option Bytes → Payload
  blob : Bytes → Payload

abbrev pub z_stream_open : ℕ
z_stream_open = 400

abbrev pub z_stream_open_reply : ℕ
z_stream_open_reply = 401

abbrev pub z_stream_pull : ℕ
z_stream_pull = 402

abbrev pub z_stream_chunk : ℕ
z_stream_chunk = 403

abbrev pub z_stream_eof : ℕ
z_stream_eof = 404

abbrev pub z_stream_error : ℕ
z_stream_error = 405

abbrev pub z_stream_abort : ℕ
z_stream_abort = 406

-- What a message is read as, and what `z_msg_new_send` is called with: `pid` is the peer.
pub record Message : Type 0 where
  pub pid : ℕ
  pub subject : ℕ
  pub tag : ℕ
  pub obj : Payload

pub data Effect : Type 0 where
  send : Message → Effect
  free : Payload → Effect

-- `ZSTREAM_TAG`, and its two parts.
unfoldable pub zstream_tag : ℕ → ℕ → ℕ
zstream_tag stream_id seq = stream_id % 2 ^ 16 * 2 ^ 16 + seq % 2 ^ 16

unfoldable pub tag_stream_id : ℕ → ℕ
tag_stream_id tag = tag / 2 ^ 16 % 2 ^ 16

unfoldable pub tag_seq : ℕ → ℕ
tag_seq tag = tag % 2 ^ 16

abbrev pub uint32_max : ℕ
uint32_max = 2 ^ 32 - 1

-- `zstream_producer_t`.
pub record Producer : Type 0 where
  pub stream_id : ℕ
  pub consumer_pid : ℕ
  pub seq : ℕ
  pub active : Bool
  pub last_chunk : Payload

-- `zstream_event_t`; `nothing_for_us` is ZSTREAM_EVENT_NONE.
pub data Event : Type 0 where
  nothing_for_us pull abort : Event

unfoldable pub next_seq : Producer → ℕ
next_seq st = if st.seq == uint32_max then 0 else add32 st.seq 1

-- `next_stream_id` behind its increment: 0 is skipped.
unfoldable pub next_id : ℕ → ℕ
next_id i = if add32 i 1 == 0 then 1 else add32 i 1

-- The producer, `next_stream_id`, and the reply.
unfoldable pub zstream_accept : ℕ → ℕ → ℕ → Producer × ℕ × List Effect
zstream_accept next_stream_id consumer_pid open_tag = (
  record {
    stream_id = next_stream_id;
    consumer_pid = consumer_pid;
    seq = uint32_max;
    active = true;
    last_chunk = nothing;
  },
  next_id next_stream_id,
  send (record {
    pid = consumer_pid;
    subject = z_stream_open_reply;
    tag = open_tag;
    obj = number next_stream_id;
  })
      ∷ [],
)

abbrev pub zstream_reject : ℕ → ℕ → Bytes → List Effect
zstream_reject consumer_pid open_tag error =
    send (record {
      pid = consumer_pid;
      subject = z_stream_open_reply;
      tag = open_tag;
      obj = text (some error);
    })
    ∷ []

-- The last chunk is freed when it is a blob.
unfoldable pub release_last : Producer → List Effect
release_last st = elim (st.last_chunk) [ blob d ↦ free (blob d) ∷ [] | _ ↦ [] ]

unfoldable pub zstream_producer_handle : Producer → Message → Event × Producer × List Effect
zstream_producer_handle st msg =
    if not st.active
    then (nothing_for_us, st, [])
    else if not (tag_stream_id msg.tag == st.stream_id % 2 ^ 16)
    then (nothing_for_us, st, [])
    else if msg.subject == z_stream_abort
    then (abort, st, [])
    else if not (msg.subject == z_stream_pull)
    then (nothing_for_us, st, [])
    else if tag_seq msg.tag == next_seq st
    then (pull, record st { last_chunk = nothing }, release_last st)
    else if not (st.seq == uint32_max) && tag_seq msg.tag == st.seq
    then (
      nothing_for_us,
      st,
      send (record {
        pid = st.consumer_pid;
        subject = z_stream_chunk;
        tag = zstream_tag st.stream_id st.seq;
        obj = st.last_chunk;
      })
          ∷ [],
    )
    else (nothing_for_us, st, [])

-- `chunk` is the object that `z_obj_blob` makes of the data: a blob, or nothing when the heap is full.
unfoldable pub zstream_send_chunk : Producer → Payload → Producer × List Effect
zstream_send_chunk st chunk =
    let seq = next_seq st in
    (
      record st { last_chunk = chunk; seq = seq },
      send (record {
        pid = st.consumer_pid;
        subject = z_stream_chunk;
        tag = zstream_tag st.stream_id seq;
        obj = chunk;
      })
          ∷ [],
    )

-- The common part of the two that end a stream.
unfoldable pub send_last : ℕ → Payload → Producer → Producer × List Effect
send_last subject obj st =
    let seq = next_seq st in
    let msg : Message = record {
      pid = st.consumer_pid;
      subject = subject;
      tag = zstream_tag st.stream_id seq;
      obj = obj;
    } in
    (record st { last_chunk = nothing; seq = seq }, release_last st ++ (send msg ∷ []))

unfoldable pub zstream_send_eof : Producer → Producer × List Effect
zstream_send_eof st = send_last z_stream_eof nothing st

unfoldable pub zstream_send_error : Producer → Bytes → Producer × List Effect
zstream_send_error st msg = send_last z_stream_error (text (some msg)) st

-- A blob that was freed holds nothing.
abbrev pub zstream_producer_close : Producer → Producer × List Effect
zstream_producer_close st = (record st { active = false; last_chunk = nothing }, release_last st)

-- `zstream_consumer_t`.
pub record Consumer : Type 0 where
  pub stream_id : ℕ
  pub producer_pid : ℕ
  pub seq : ℕ
  pub active : Bool
  pub open_tag : ℕ

-- `zstream_consumer_event_t`, with the data or the error text that is handed out.
pub data Cevent : Type 0 where
  irrelevant opened eof : Cevent
  open_failed : Bytes → Cevent
  chunk : Bytes → Cevent
  error : Bytes → Cevent

-- `set_err` into a buffer of `err_len` bytes.
unfoldable pub set_err : ℕ → Bytes → Bytes
set_err err_len msg = take (err_len - 1) msg

abbrev pub malformed_reply : Bytes
malformed_reply =
    109 ∷ 97 ∷ 108 ∷ 102 ∷ 111 ∷ 114 ∷ 109 ∷ 101 ∷ 100 ∷ 32 ∷ 111 ∷ 112 ∷ 101 ∷ 110 ∷ 32 ∷ 114 ∷ 101
    ∷ 112 ∷ 108 ∷ 121 ∷ []

abbrev pub malformed_chunk : Bytes
malformed_chunk =
    109 ∷ 97 ∷ 108 ∷ 102 ∷ 111 ∷ 114 ∷ 109 ∷ 101 ∷ 100 ∷ 32 ∷ 99 ∷ 104 ∷ 117 ∷ 110 ∷ 107 ∷ 32 ∷ 40
    ∷ 110 ∷ 111 ∷ 116 ∷ 32 ∷ 97 ∷ 32 ∷ 98 ∷ 108 ∷ 111 ∷ 98 ∷ 41 ∷ []

abbrev pub producer_error : Bytes
producer_error =
    112 ∷ 114 ∷ 111 ∷ 100 ∷ 117 ∷ 99 ∷ 101 ∷ 114 ∷ 32 ∷ 114 ∷ 101 ∷ 112 ∷ 111 ∷ 114 ∷ 116 ∷ 101
    ∷ 100 ∷ 32 ∷ 97 ∷ 110 ∷ 32 ∷ 101 ∷ 114 ∷ 114 ∷ 111 ∷ 114 ∷ []

-- The consumer, `next_open_tag`, and the message.
pub zstream_open_async : ℕ → ℕ → Payload → Consumer × ℕ × List Effect
zstream_open_async next_open_tag producer_pid open_payload = (
  record {
    stream_id = 0;
    producer_pid = producer_pid;
    seq = 0;
    active = false;
    open_tag = next_open_tag;
  },
  next_id next_open_tag,
  send (record {
    pid = producer_pid;
    subject = z_stream_open;
    tag = next_open_tag;
    obj = open_payload;
  })
      ∷ [],
)

-- A message of the consumer about the chunk that it waits for.
abbrev pub about : ℕ → Consumer → Message
about subject st = record {
  pid = st.producer_pid;
  subject = subject;
  tag = zstream_tag st.stream_id st.seq;
  obj = nothing;
}

pub zstream_pull_async : Consumer → List Effect
zstream_pull_async st = if not st.active then [] else send (about z_stream_pull st) ∷ []

abbrev pub zstream_abort : Consumer → Consumer × List Effect
zstream_abort st =
    if not st.active
    then (st, [])
    else (record st { active = false }, send (about z_stream_abort st) ∷ [])

-- The reply to an open request.
pub handle_open : ℕ → Payload → Consumer → Cevent × Consumer
handle_open err_len (number n) st = (opened, record st { stream_id = n; seq = 0; active = true })
handle_open err_len (text (some s)) st = (open_failed (set_err err_len s), st)
handle_open err_len obj st = (open_failed (set_err err_len malformed_reply), st)

pub handle_chunk : ℕ → Payload → Consumer → Cevent × Consumer
handle_chunk err_len (blob d) st = (chunk d, record st { seq = add32 st.seq 1 })
handle_chunk err_len obj st =
    (error (set_err err_len malformed_chunk), record st { active = false })

unfoldable pub handle_error : ℕ → Payload → Consumer → Cevent × Consumer
handle_error err_len (text (some s)) st = (error (set_err err_len s), record st { active = false })
handle_error err_len obj st = (error (set_err err_len producer_error), record st { active = false })

-- A message whose tag is that of the chunk that is waited for.
pub handle_reply : ℕ → Message → Consumer → Cevent × Consumer
handle_reply err_len msg st =
    if msg.subject == z_stream_chunk
    then handle_chunk err_len msg.obj st
    else if msg.subject == z_stream_eof
    then (eof, record st { active = false })
    else if msg.subject == z_stream_error
    then handle_error err_len msg.obj st
    else (irrelevant, st)

pub zstream_consumer_handle : ℕ → Consumer → Message → Cevent × Consumer
zstream_consumer_handle err_len st msg =
    if not st.active && st.stream_id == 0
    then (if not (msg.subject == z_stream_open_reply) || not (msg.tag == st.open_tag)
        then (irrelevant, st)
        else handle_open err_len msg.obj st)
    else if not st.active
    then (irrelevant, st)
    else if not (msg.tag == zstream_tag st.stream_id st.seq)
    then (irrelevant, st)
    else handle_reply err_len msg st
