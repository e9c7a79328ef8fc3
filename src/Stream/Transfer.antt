-- ===== src/Stream/Transfer.antt =====
-- sw/common/zstream.c: a producer and a consumer together hand over a list of chunks.
use zeitlos.Prelude.{
  ℕ, zero, suc, ◌+◌, ◌<◌, ◌≡◌, ◌∙◌, refl, ap, arith, true, Option, none, some, List, [], ◌∷◌, Bytes,
  length, add32,
}
use zeitlos.Stream.{
  Payload, nothing, blob, Message, Effect, send, free, zstream_tag, Producer, Event, pull, abort,
  nothing_for_us, next_seq, release_last, zstream_accept, zstream_producer_handle,
  zstream_send_chunk, zstream_send_eof, send_last, Consumer, Cevent, irrelevant, opened, eof, chunk,
  zstream_open_async, zstream_pull_async, about, zstream_consumer_handle, handle_open, handle_reply,
  handle_chunk,
}
use zeitlos.Stream.Tag.{zstream_tag_parts}

-- A caller of the producer's side: it answers a pull with the next of its chunks, and with the end behind
-- the last one.
pub answer : List Bytes → Event × Producer × List Effect → Producer × List Bytes × List Effect
answer source (nothing_for_us, st, es) = (st, source, es)
answer source (abort, st, es) = (st, [], es)
answer [] (pull, st, es) = let (st', out) = zstream_send_eof st in (st', [], out)
answer (d ∷ ds) (pull, st, es) = let (st', out) = zstream_send_chunk st (blob d) in (st', ds, out)

pub serve : Producer → List Bytes → Message → Producer × List Bytes × List Effect
serve st source msg = answer source (zstream_producer_handle st msg)

-- The first message of some effects.
abbrev pub first_sent : List Effect → Option Message
first_sent [] = none
first_sent (send m ∷ es) = some m
first_sent (free o ∷ es) = first_sent es

abbrev pub cons_data : Bytes → Option (List Bytes) → Option (List Bytes)
cons_data d none = none
cons_data d (some ds) = some (d ∷ ds)

-- The two sides in turn, on fuel: the chunks that the consumer is handed up to the end of the stream, and
-- `none` for an error, a message without an answer, or fuel that ran out.
pub transfer : ℕ → Consumer → Producer → List Bytes → Option (List Bytes)
transfer zero c p source = none
transfer (suc fuel) c p source = elim (first_sent (zstream_pull_async c)) [
  | none ↦ none
  | some request ↦
      let (p', source', es) = serve p source request in
      elim (first_sent es) [
        | none ↦ none
        | some reply ↦
            let (event, c') = zstream_consumer_handle 0 c reply in
            let rest = transfer fuel c' p' source' in
            elim event [ chunk d ↦ cons_data d rest | eof ↦ some [] | _ ↦ none ]
      ]
]

-- The consumer waits for the chunk that the producer sends next, and `n` more numbers fit a tag.
record Synced (n : ℕ) (c : Consumer) (p : Producer) : Type 0 where
  waiting : c.active ≡ true
  sending : p.active ≡ true
  same : c.stream_id ≡ p.stream_id
  next : c.seq ≡ next_seq p
  fits : c.seq + n < 65536

handle_pull :
    (n : ℕ) (c : Consumer) (p : Producer)
    → Synced n c p
    → zstream_producer_handle p (about 402 c)
      ≡ (pull, record p { last_chunk = nothing }, release_last p)
unfolding zstream_producer_handle
handle_pull n c p s = ground (arith, s, zstream_tag_parts c.stream_id c.seq)

-- The state of the two behind a chunk.
after_chunk : Producer → Bytes → Producer
after_chunk p d = record p { last_chunk = blob d; seq = next_seq p }

next_consumer : Consumer → Consumer
next_consumer c = record c { seq = add32 c.seq 1 }

Synced-next :
    (n : ℕ) (c : Consumer) (p : Producer) (d : Bytes)
    → Synced (suc n) c p
    → Synced n (next_consumer c) (after_chunk p d)
unfolding next_consumer after_chunk next_seq
Synced-next n c p d s = ground (arith, s)

serve_chunk :
    (n : ℕ) (c : Consumer) (p : Producer) (d : Bytes) (ds : List Bytes)
    → Synced n c p
    → serve p (d ∷ ds) (about 402 c) ≡ (
      after_chunk p d,
      ds,
      send (record {
        pid = p.consumer_pid;
        subject = 403;
        tag = zstream_tag p.stream_id (next_seq p);
        obj = blob d;
      })
          ∷ [],
    )
unfolding after_chunk zstream_send_chunk serve answer next_seq
serve_chunk n c p d ds s = ap (answer (d ∷ ds)) (handle_pull n c p s)

serve_eof :
    (n : ℕ) (c : Consumer) (p : Producer)
    → Synced n c p
    → first_sent (serve p [] (about 402 c)).2
      ≡ some (record {
        pid = p.consumer_pid;
        subject = 404;
        tag = zstream_tag p.stream_id (next_seq p);
        obj = nothing;
      })
unfolding zstream_send_eof send_last release_last serve answer next_seq
serve_eof n c p s = ap (λ x. first_sent (answer [] x).2) (handle_pull n c p s)

-- The reply to the chunk that is waited for, at the consumer.
consume_chunk :
    (n : ℕ) (c : Consumer) (p : Producer) (d : Bytes) (pid : ℕ)
    → Synced n c p
    → zstream_consumer_handle 0 c (record {
      pid = pid;
      subject = 403;
      tag = zstream_tag p.stream_id (next_seq p);
      obj = blob d;
    })
      ≡ (chunk d, next_consumer c)
unfolding zstream_consumer_handle handle_reply handle_chunk next_consumer
consume_chunk n c p d pid s = ground (arith, s)

consume_eof :
    (n : ℕ) (c : Consumer) (p : Producer) (pid : ℕ)
    → Synced n c p
    → (zstream_consumer_handle 0 c (record {
      pid = pid;
      subject = 404;
      tag = zstream_tag p.stream_id (next_seq p);
      obj = nothing;
    })).0
      ≡ eof
unfolding zstream_consumer_handle handle_reply
consume_eof n c p pid s = ground (arith, s)

pull_sends :
    (c : Consumer) → c.active ≡ true → first_sent (zstream_pull_async c) ≡ some (about 402 c)
unfolding zstream_pull_async
pull_sends c a = ground (arith, a)

-- One turn, by what its two halves return.
turn_chunk :
    (fuel : ℕ) (c : Consumer) (p : Producer) (source : List Bytes) (m r : Message) (d : Bytes)
    → first_sent (zstream_pull_async c) ≡ some m
    → first_sent (serve p source m).2 ≡ some r
    → (zstream_consumer_handle 0 c r).0 ≡ chunk d
    → transfer (suc fuel) c p source
      ≡ cons_data d (
          transfer fuel (zstream_consumer_handle 0 c r).1 (serve p source m).0 (serve p source m).1)
unfolding transfer
turn_chunk fuel c p source m r d e f g = rw (e, f, g, transfer) refl

turn_eof :
    (fuel : ℕ) (c : Consumer) (p : Producer) (source : List Bytes) (m r : Message)
    → first_sent (zstream_pull_async c) ≡ some m
    → first_sent (serve p source m).2 ≡ some r
    → (zstream_consumer_handle 0 c r).0 ≡ eof
    → transfer (suc fuel) c p source ≡ some []
unfolding transfer
turn_eof fuel c p source m r e f g = rw (e, f, g, transfer) refl

transfer-Synced :
    (source : List Bytes) (fuel : ℕ) (c : Consumer) (p : Producer)
    → Synced (length source) c p
    → length source < fuel
    → transfer fuel c p source ≡ some source
transfer-Synced source zero c p s h = elim h [ ]
transfer-Synced [] (suc fuel) c p s h =
    turn_eof fuel c p [] (about 402 c) _ (pull_sends c s.waiting) (serve_eof 0 c p s)
      (consume_eof 0 c p p.consumer_pid s)
transfer-Synced (d ∷ ds) (suc fuel) c p s h =
    let served = serve_chunk (suc (length ds)) c p d ds s in
    let taken = consume_chunk (suc (length ds)) c p d p.consumer_pid s in
    let rest =
      transfer-Synced ds fuel (next_consumer c) (after_chunk p d) (Synced-next (length ds) c p d s)
        (omega (arith, h)) in
    turn_chunk fuel c p (d ∷ ds) (about 402 c) _ d (pull_sends c s.waiting)
      (ap (λ x. first_sent x.2) served) (ap (λ x. x.0) taken)
    ∙ rw (taken, served) (ap (cons_data d) rest)

-- The consumer behind the reply to its request.
abbrev pub open_with : Consumer → List Effect → Cevent × Consumer
open_with c es = elim (first_sent es) [
  | none ↦ (irrelevant, c)
  | some reply ↦ zstream_consumer_handle 0 c reply
]

open_lem :
    (stream_id producer_pid consumer_pid open_tag : ℕ) (request : Payload)
    → open_with
        (zstream_open_async open_tag producer_pid request).0
        (zstream_accept stream_id consumer_pid open_tag).2
      ≡ (
        opened,
        record {
          stream_id = stream_id;
          producer_pid = producer_pid;
          seq = 0;
          active = true;
          open_tag = open_tag;
        },
      )
unfolding zstream_open_async zstream_accept zstream_consumer_handle handle_open
open_lem stream_id producer_pid consumer_pid open_tag request = ground arith

accepted :
    (stream_id consumer_pid open_tag n : ℕ) (c : Consumer)
    → n < 65536
    → c.active ≡ true
    → c.stream_id ≡ stream_id
    → c.seq ≡ 0
    → Synced n c (zstream_accept stream_id consumer_pid open_tag).0
unfolding zstream_accept next_seq
accepted stream_id consumer_pid open_tag n c h a e z = ground (arith, h, a, e, z)

-- Opening a stream, and then taking turns: the consumer is handed every chunk of the producer, in order, and
-- the end, for up to 65535 chunks.
pub transfer_lem :
    (stream_id producer_pid consumer_pid open_tag : ℕ) (request : Payload) (source : List Bytes)
    → length source < 65536
    → let (c, _, asked) = zstream_open_async open_tag producer_pid request in
      let (p, _, replied) = zstream_accept stream_id consumer_pid open_tag in
      let (event, c') = open_with c replied in
      (event ≡ opened) × (transfer (length source + 1) c' p source ≡ some source)
transfer_lem stream_id producer_pid consumer_pid open_tag request source h =
    let o = open_lem stream_id producer_pid consumer_pid open_tag request in
    rw o (
      refl,
      transfer-Synced source (length source + 1) _ _
          (accepted stream_id consumer_pid open_tag (length source) _ h refl refl refl)
          (omega arith),
    )
