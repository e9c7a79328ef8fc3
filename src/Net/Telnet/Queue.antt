-- ===== src/Net/Telnet/Queue.antt =====
-- The queue between the application and TCP (sw/apps/net/telnet.c): its bound, and the order of what
-- goes out.
use zeitlos.Prelude.{
  ℕ, ◌+◌, ◌^◌, ◌≤◌, ◌<◌, ◌≡◌, ◌⊎◌, refl, sym, true, false, ◌||◌, not, List, [], ◌∷◌, ◌++◌, arith,
  length, length-append, length-take, ◌==◌, if◌then◌else◌, Bool-cases, inl, inr, ltb, take,
  take-append-drop,
}
use zeitlos.Net.Tcp.{
  Tcp, Event, on_established, on_data, on_closed, flag_ack_psh, tcp_send, send_tracked,
  tcp_is_connected, is_established, tcp_max_payload,
}
use zeitlos.Net.Telnet.{
  Pstate, tn_data, tn_iac, tn_cmd, tn_sb, tn_sb_iac, Telnet, tx_queue_max, queue_bytes,
  answer_negotiation, feed_byte, feed_loop, telnet_feed, on_tcp_event, escape, count_iac,
  telnet_send, telnet_poll, chunk_len,
}

abbrev pub Fits : Telnet → Type 0
Fits t = length t.tx_queue ≤ tx_queue_max

length-escape : (xs : List ℕ) → length (escape xs) ≡ length xs + count_iac xs
unfolding escape count_iac
length-escape [] = refl
length-escape (x ∷ xs) = ground (arith, length-escape xs)

count_iac-le : (xs : List ℕ) → count_iac xs ≤ length xs
unfolding count_iac
count_iac-le [] = omega arith
count_iac-le (x ∷ xs) = ground (arith, count_iac-le xs)

queue_bytes-Fits : (octets : List ℕ) (t : Telnet) → Fits t → Fits (queue_bytes octets t).1
unfolding queue_bytes
queue_bytes-Fits octets t f = ground (arith, length-append t.tx_queue octets)

answer-Fits : (cmd opt : ℕ) (t : Telnet) → Fits t → Fits (answer_negotiation cmd opt t)
unfolding answer_negotiation
answer-Fits cmd opt t f = queue_bytes-Fits _ t f

feed_byte-Fits : (st : Pstate) (b : ℕ) (t : Telnet) → Fits t → Fits (feed_byte st b t).1
unfolding feed_byte
feed_byte-Fits tn_data b t f = ground arith
feed_byte-Fits tn_iac b t f = ground arith
feed_byte-Fits tn_cmd b t f = ground (arith, answer-Fits t.pending_cmd b t f)
feed_byte-Fits tn_sb b t f = ground arith
feed_byte-Fits tn_sb_iac b t f = ground arith

feed_loop-Fits : (xs : List ℕ) (t : Telnet) → Fits t → Fits (feed_loop xs t).1
unfolding feed_loop
feed_loop-Fits [] t f = f
feed_loop-Fits (x ∷ xs) t f = feed_loop-Fits xs _ (feed_byte-Fits t.pstate x t f)

pub on_tcp_event-Fits : (ev : Event) (t : Telnet) → Fits t → Fits (on_tcp_event ev t)
unfolding on_tcp_event telnet_feed
on_tcp_event-Fits on_established t f = f
on_tcp_event-Fits (on_data octets) t f = ground (arith, feed_loop-Fits octets t f)
on_tcp_event-Fits on_closed t f = f

-- All of the data is queued, escaped, or none of it; and the queue keeps to its size. The data is short
-- enough for the 16 bits of its escaped length.
pub telnet_send_lem :
    (octets : List ℕ) (t : Telnet) (c : Tcp)
    → length octets < 2 ^ 15
    → Fits t
    → let (taken, u) = telnet_send octets t c in
      Fits u
      × (u.tx_queue ≡ (if taken then t.tx_queue ++ escape octets else t.tx_queue))
      × (taken ≡ true → tcp_is_connected c ≡ true)
unfolding telnet_send
telnet_send_lem octets t c n f =
    ground
      (arith, length-append t.tx_queue (escape octets), length-escape octets, count_iac-le octets)

send_cases :
    (now : ℕ) (q : List ℕ) (c : Tcp)
    → (tcp_send now q c ≡ (false, c))
      ⊎ ((tcp_send now q c ≡ (true, send_tracked now flag_ack_psh q c)) × (c.tx_pending ≡ false))
unfolding tcp_send
send_cases now q c =
    elim (Bool-cases
      (not (is_established c.state) || c.tx_pending || ltb tcp_max_payload (length q))) [
        | inl e ↦ inl (rw e refl)
        | inr e ↦ inr (rw e refl, ground (arith, e))
      ]

-- A poll hands the front of the queue to TCP as one segment of at most 536 bytes, and what is left of
-- the queue is the rest, in order; or it changes nothing.
pub telnet_poll_lem :
    (now : ℕ) (t : Telnet) (c : Tcp)
    → let (u, d) = telnet_poll now (t, c) in
      (telnet_poll now (t, c) ≡ (t, c))
      ⊎ ((chunk : List ℕ) × (t.tx_queue ≡ chunk ++ u.tx_queue)
          × (0 < length chunk)
          × (length chunk ≤ 536)
          × (c.tx_pending ≡ false)
          × (d ≡ send_tracked now flag_ack_psh chunk c))
unfolding telnet_poll
telnet_poll_lem now t c =
    let n = chunk_len t.tx_queue in
    let q = take n t.tx_queue in
    elim (Bool-cases (tcp_is_connected c)) [
      | inr e ↦ inl (rw e refl)
      | inl e ↦ elim (Bool-cases (length t.tx_queue == 0)) [
        | inl z ↦ inl (rw (e, z) refl)
        | inr z ↦ elim (send_cases now q c) [
          | inl s ↦ inl (rw (e, z, s) refl)
          | inr (s, p) ↦ inr (
            q,
            rw (e, z, s) (sym (take-append-drop n t.tx_queue)),
            ground (arith, length-take n t.tx_queue),
            ground (arith, length-take n t.tx_queue),
            p,
            rw (e, z, s) refl,
          )
        ]
      ]
    ]
