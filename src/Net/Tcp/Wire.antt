-- ===== src/Net/Tcp/Wire.antt =====
-- What a segment looks like on the wire (`tcp_checksum` and `tcp_send_segment` of
-- sw/apps/net/tcp.c), and what `tcp_handle` reads back from it.
use zeitlos.Prelude.{
  ℕ, ◌+◌, ◌-◌, ◌/◌, ◌%◌, ◌^◌, ◌≤◌, ◌<◌, ◌≡◌, ◌∙◌, sym, ap, subst, List, arith, length, All,
  take-length,
}
use zeitlos.Net.Octets.{get16}
use zeitlos.Net.Checksum.{
  add_words-words, words, words-le, complement, complement-lt, complement_cancels, IsByte,
}
use zeitlos.Net.Tcp.{Tcp, tcp_max_payload, layout, tcp_checksum, segment}
use zeitlos.Net.Tcp.Receive.{read_segment}

-- The fields of the connection within their machine types.
pub record InWords (t : Tcp) : Type 0 where
  pub local_in : t.local_port < 2 ^ 16
  pub remote_in : t.remote_port < 2 ^ 16
  pub rcv_in : t.rcv_nxt < 2 ^ 32

module _ (t : Tcp) (seq flags : ℕ) (octets : List ℕ) (b : IsByte flags) (bs : All IsByte octets)
    (n : length octets ≤ tcp_max_payload) where
  abbrev start : ℕ
  start =
      t.our_ip / 2 ^ 16 % 2 ^ 16
      + t.our_ip % 2 ^ 16
      + (t.remote_ip / 2 ^ 16 % 2 ^ 16 + t.remote_ip % 2 ^ 16)
      + 6
      + (20 + length octets)

  total : ℕ → ℕ
  total csum = start + words (layout t csum seq flags octets)

  total_sum :
      (csum : ℕ)
      → csum < 2 ^ 16
      → tcp_checksum t.our_ip t.remote_ip (layout t csum seq flags octets) ≡ complement (total csum)
  unfolding tcp_checksum total
  total_sum csum h = ap complement (
      add_words-words _ (layout t csum seq flags octets) (omega (arith, words-le octets bs))
      ∙ omega arith)

  total_shift : (csum : ℕ) → csum < 2 ^ 16 → total csum ≡ total 0 + csum
  unfolding total
  total_shift csum h = omega arith

  total_small : total 0 < 2 ^ 31
  unfolding total
  total_small = omega (arith, words-le octets bs)

  -- A segment of at most 536 bytes of data passes the check of the pseudo-header's checksum: over the
  -- finished segment the sum is 0.
  pub segment_verifies : tcp_checksum t.our_ip t.remote_ip (segment t seq flags octets) ≡ 0
  unfolding segment
  segment_verifies =
      let c = tcp_checksum t.our_ip t.remote_ip (layout t 0 seq flags octets) in
      let e : c ≡ complement (total 0) = total_sum 0 (omega arith) in
      let h : c < 2 ^ 16 = subst (λ x. x < 2 ^ 16) (sym e) (complement-lt (total 0)) in
      total_sum c h
      ∙ ap complement (total_shift c h ∙ ap (λ x. total 0 + x) e)
      ∙ complement_cancels (total 0) (omega (arith, total_small, complement-lt (total 0)))

  -- What `tcp_handle` reads of a segment is what was sent: the ports, the sequence numbers, the flags
  -- and the data.
  pub read_segment-segment :
      (w : InWords t)
      → seq < 2 ^ 32
      → let p = segment t seq flags octets in
        (read_segment p (20 + length octets) ≡ record {
          seq = seq;
          ack = t.rcv_nxt;
          flags = flags;
          octets = octets;
          len = length octets;
        })
        × (get16 p 0 ≡ t.local_port)
        × (get16 p 2 ≡ t.remote_port)
  unfolding segment read_segment
  read_segment-segment w h =
      let k : 20 + length octets - 20 ≡ length octets = omega arith in
      (rw (k, take-length octets) (ground (arith, w)), omega (arith, w), omega (arith, w))
