-- ===== src/Stream/Tag.antt =====
-- sw/common/zstream.h: the packing of a stream's id and a chunk's number into one tag.
use zeitlos.Prelude.{ℕ, ◌%◌, ◌^◌, ◌<◌, ◌≡◌, arith}
use zeitlos.Stream.{zstream_tag, tag_stream_id, tag_seq}

-- Both parts are read back, each modulo 2^16, and the tag is a 32-bit word.
pub zstream_tag_parts :
    (stream_id seq : ℕ)
    → (tag_stream_id (zstream_tag stream_id seq) ≡ stream_id % 2 ^ 16)
      × (tag_seq (zstream_tag stream_id seq) ≡ seq % 2 ^ 16)
      × (zstream_tag stream_id seq < 2 ^ 32)
unfolding zstream_tag tag_stream_id tag_seq
zstream_tag_parts stream_id seq = omega arith
