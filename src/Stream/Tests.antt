-- ===== src/Stream/Tests.antt =====
-- sw/common/zstream.c: a stream of two chunks, and the theorems there.
use zeitlos.Prelude.{◌+◌, ◌≡◌, refl, true, some, List, [], ◌∷◌, Bytes, arith, length}
use zeitlos.Stream.{
  nothing, Producer, Consumer, opened, zstream_accept, zstream_open_async, next_seq, uint32_max,
}
use zeitlos.Stream.Transfer.{transfer, open_with, transfer_lem}

abbrev chunks : List Bytes
chunks = (1 ∷ 2 ∷ []) ∷ (3 ∷ []) ∷ []

transfer_lem_example :
    let (c, _, asked) = zstream_open_async 9 4 nothing in
    let (p, _, replied) = zstream_accept 1 5 9 in
    let (event, c') = open_with c replied in
    (event ≡ opened) × (transfer (length chunks + 1) c' p chunks ≡ some chunks)
transfer_lem_example = transfer_lem 1 4 5 9 nothing chunks (omega arith)

-- A producer that waits for its first pull, and one behind its last number.
abbrev ready : Producer
ready = record {
  stream_id = 1;
  consumer_pid = 5;
  seq = uint32_max;
  active = true;
  last_chunk = nothing;
}

abbrev worn : Producer
worn = record { stream_id = 1; consumer_pid = 5; seq = 65535; active = true; last_chunk = nothing }

abbrev waiting : Consumer
waiting = record { stream_id = 1; producer_pid = 4; seq = 0; active = true; open_tag = 9 }

first_seq : next_seq ready ≡ 0
unfolding next_seq
first_seq = refl
