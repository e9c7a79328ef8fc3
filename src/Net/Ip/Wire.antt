-- ===== src/Net/Ip/Wire.antt =====
-- IPv4 packets on the wire (sw/apps/net/ip.c): the header's checksum, and what the receiver passes up.
use zeitlos.Prelude.{
  ℕ, ◌+◌, ◌-◌, ◌%◌, ◌^◌, ◌≤◌, ◌<◌, ◌≡◌, ◌∙◌, refl, ap, true, false, ◌||◌, List, [], ◌∷◌, ◌++◌,
  arith, length, take, drop, All, ltb,
}
use zeitlos.Net.Octets.{byte, get16, get32, get16_lem, get32_lem}
use zeitlos.Net.Checksum.{
  add_words, add_words-words, words, words-le, complement, complement-lt, complement_cancels,
  ip_checksum, IsByte,
}
use zeitlos.Net.Ip.{
  Ip, ip_max_payload, header, packet, is_for_us, ihl, paylen, hand_up, ip_handle, echo_reply,
}

-- A packet with a hole for its checksum at the front: with the sum in the hole, the checksum is 0.
checksum_cancels :
    (p q : List ℕ) (c : ℕ)
    → All IsByte p
    → length p ≤ 2 ^ 15
    → words q ≡ words p + c
    → c ≡ ip_checksum p
    → ip_checksum q ≡ 0
unfolding ip_checksum
checksum_cancels p q c bs n w e =
    let at_p : add_words 0 p ≡ words p =
      add_words-words 0 p (omega (arith, words-le p bs)) ∙ omega arith in
    let c_lem : c ≡ complement (words p) = e ∙ ap complement at_p in
    let small = complement-lt (words p) in
    let at_q : add_words 0 q ≡ words p + complement (words p) =
      add_words-words 0 q (omega (arith, words-le p bs)) ∙ omega arith in
    ap complement at_q ∙ complement_cancels (words p) (omega (arith, words-le p bs))

-- The header of a packet passes the check of its checksum: over its twenty bytes the sum is 0.
pub packet_verifies :
    (t : Ip) (dst_ip protocol : ℕ) (payload : List ℕ)
    → IsByte protocol
    → ip_checksum (take 20 (packet t dst_ip protocol payload)) ≡ 0
unfolding packet
packet_verifies t dst_ip protocol payload b =
    let n = 20 + length payload in
    let c = ip_checksum (header t 0 dst_ip protocol n []) in
    let h : c < 2 ^ 16 = unfold ip_checksum in complement-lt _ in
    checksum_cancels (header t 0 dst_ip protocol n []) (header t c dst_ip protocol n []) c
      (omega arith) (omega arith) (omega arith) refl

-- An echo reply passes it too.
pub echo_reply_verifies :
    (p : List ℕ)
    → All IsByte (drop 4 p)
    → length (drop 4 p) ≤ ip_max_payload
    → ip_checksum (echo_reply p) ≡ 0
unfolding echo_reply
echo_reply_verifies p bs n =
    let c = ip_checksum (0 ∷ 0 ∷ 0 ∷ 0 ∷ drop 4 p) in
    let h : c < 2 ^ 16 = unfold ip_checksum in complement-lt _ in
    checksum_cancels (0 ∷ 0 ∷ 0 ∷ 0 ∷ drop 4 p) _ c
      (omega arith, (omega arith, (omega arith, (omega arith, bs)))) (omega arith) (omega arith)
      refl

-- What another host passes up of a packet, whatever padding follows it, is the protocol, the sender's
-- address, and the payload with its length.
pub ip_handle-packet :
    (t u : Ip) (dst_ip protocol len : ℕ) (payload pad : List ℕ)
    → t.our_ip < 2 ^ 32
    → dst_ip < 2 ^ 32
    → is_for_us u dst_ip ≡ true
    → 20 + length payload ≤ len
    → len < 2 ^ 16
    → ip_handle (packet t dst_ip protocol payload ++ pad) len u
      ≡ hand_up protocol t.our_ip (payload ++ pad) (length payload) u
unfolding ip_handle packet
ip_handle-packet t u dst_ip protocol len payload pad ho hd f fits w =
    let n = 20 + length payload in
    let long : ltb len 20 ≡ false = ground arith in
    let whole : ltb len n ≡ false = ground arith in
    let rest : (n + 2 ^ 16 - 20) % 2 ^ 16 ≡ length payload = omega arith in
    rw (long, get16_lem n (omega arith), whole, get32_lem dst_ip hd, f, get32_lem t.our_ip ho, rest)
      refl

-- A packet whose total length is below the length of its own header is passed on with a length that
-- has wrapped: more than 65000 bytes, though at most `len` were received.
pub ip_handle_overreads :
    (p : List ℕ) (len : ℕ) (t : Ip)
    → 20 ≤ ihl p
    → ihl p ≤ len
    → get16 p 2 < ihl p
    → is_for_us t (get32 p 16) ≡ true
    → ip_handle p len t
      ≡ hand_up (byte p 9) (get32 p 12) (drop (ihl p) p) (2 ^ 16 - (ihl p - get16 p 2)) t
unfolding ip_handle
ip_handle_overreads p len t n le short f =
    let long : ltb len 20 ≡ false = ground arith in
    let header_in : (ltb (ihl p) 20 || ltb len (ihl p)) ≡ false = ground arith in
    let whole : ltb len (get16 p 2) ≡ false = ground arith in
    let wrapped : paylen p ≡ 2 ^ 16 - (ihl p - get16 p 2) = omega arith in
    rw (long, header_in, whole, f, wrapped) refl
