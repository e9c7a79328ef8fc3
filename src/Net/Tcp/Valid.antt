-- ===== src/Net/Tcp/Valid.antt =====
-- The connection's invariant (sw/apps/net/tcp.c): the numbers that `snd_una` and `snd_nxt` stand for,
-- one outstanding segment at most, and a handler for every open connection.
use zeitlos.Prelude.{
  ℕ, ◌≤◌, ◌≡◌, refl, ap, ◌∙◌, Bool, true, false, Option, none, some, List, ◌++◌, arith, length,
  length-append, length-drop, add32, Bool-cases, Option-cases, inl, inr, drop, ltb, ◌||◌, not,
}
use zeitlos.Net.Tcp.{
  State, closed, syn_sent, established, fin_wait_1, fin_wait_2, closing, time_wait, last_ack,
  is_closed, is_established, is_rst, Event, Tcp, zeroed, tcp_max_payload, consumed, tcp_init,
  tcp_connect, tcp_send, tcp_close, tcp_abort, tcp_send_segment, send_tracked, send_ack, send_rst,
  reset_to_closed, notify, process_ack, acked,
}
use zeitlos.Net.Tcp.Receive.{
  Seg, in_syn_sent, take_data, answer_fin, take_fin, in_established, in_fin_wait_1, in_fin_wait_2,
  in_closing, in_last_ack, in_time_wait, dispatch, take_segment, read_segment, is_ours, offset_of,
  tcp_handle, poll_timer, poll_time_wait, tcp_poll,
}

abbrev pub is_syn_sent : State → Bool
is_syn_sent syn_sent = true
is_syn_sent _ = false

-- The states after the peer has acknowledged all that this side sends.
abbrev pub is_spent : State → Bool
is_spent fin_wait_2 = true
is_spent time_wait = true
is_spent _ = false

abbrev pub is_set : Option ℕ → Bool
is_set none = false
is_set (some h) = true

pub record IsValid (t : Tcp) : Type 0 where
  pub outstanding :
      t.tx_pending ≡ true
      → (t.snd_una ≡ t.tx_seq) × (t.snd_nxt ≡ add32 t.tx_seq (consumed t.tx_flags t.tx_len))
  pub idle : is_closed t.state ≡ false → t.tx_pending ≡ false → t.snd_una ≡ t.snd_nxt
  pub shut : is_closed t.state ≡ true → t.tx_pending ≡ false
  pub heard_by : is_closed t.state ≡ false → is_set t.handler ≡ true
  pub handshake : is_syn_sent t.state ≡ true → t.tx_pending ≡ true
  pub spent : is_spent t.state ≡ true → t.tx_pending ≡ false
  pub fits : t.tx_len ≤ tcp_max_payload
  pub buffer : length t.tx_buf ≡ tcp_max_payload
  pub retries_in : t.retries ≤ 7

pub handler_set : (t : Tcp) → IsValid t → is_closed t.state ≡ false → (h : ℕ) × (t.handler ≡ some h)
handler_set t v o = elim (Option-cases t.handler) [
  | inl e ↦ absurd (ground (arith, v.heard_by o, e))
  | inr s ↦ s
]

pub zeroed-IsValid : IsValid zeroed
zeroed-IsValid = ground arith

pub tcp_init-IsValid : (now ip : ℕ) (t : Tcp) → IsValid t → IsValid (tcp_init now ip t)
unfolding tcp_init
tcp_init-IsValid now ip t v = ground arith

length-copy :
    (octets buf : List ℕ)
    → length octets ≤ tcp_max_payload
    → length buf ≡ tcp_max_payload
    → length (octets ++ drop (length octets) buf) ≡ tcp_max_payload
length-copy octets buf h e =
    omega (arith, length-append octets (drop (length octets) buf), length-drop (length octets) buf)

-- A segment that is tracked from a state with nothing outstanding.
send_tracked-IsValid :
    (now flags : ℕ) (octets : List ℕ) (t : Tcp)
    → IsValid t
    → is_established t.state ≡ true
    → t.tx_pending ≡ false
    → length octets ≤ tcp_max_payload
    → IsValid (send_tracked now flags octets t)
unfolding send_tracked tcp_send_segment
send_tracked-IsValid now flags octets t v o p h =
    ground (arith, v, length-copy octets t.tx_buf h v.buffer)

pub tcp_connect-IsValid :
    (now later ip port h : ℕ) (t : Tcp)
    → IsValid t
    → IsValid (tcp_connect now later ip port (some h) t).1
unfolding tcp_connect send_tracked tcp_send_segment
tcp_connect-IsValid now later ip port h t v = ground (arith, v)

pub tcp_send-IsValid :
    (now : ℕ) (octets : List ℕ) (t : Tcp) → IsValid t → IsValid (tcp_send now octets t).1
unfolding tcp_send
tcp_send-IsValid now octets t v = ground (arith, v, send_tracked-IsValid now 0x18 octets t)

pub tcp_close-IsValid : (now : ℕ) (t : Tcp) → IsValid t → IsValid (tcp_close now t).1
unfolding tcp_close send_tracked tcp_send_segment
tcp_close-IsValid now t v = ground (arith, v)

pub tcp_abort-IsValid : (t : Tcp) → IsValid t → IsValid (tcp_abort t)
unfolding tcp_abort reset_to_closed send_rst tcp_send_segment
tcp_abort-IsValid t v = ground (arith, v)

pub notify-IsValid : (ev : Event) (t : Tcp) → IsValid t → IsValid (notify ev t)
unfolding notify
notify-IsValid ev t v = ground (arith, v)

reset_to_closed-IsValid : (t : Tcp) → IsValid t → IsValid (reset_to_closed t)
unfolding reset_to_closed
reset_to_closed-IsValid t v = ground (arith, v)

send_ack-IsValid : (t : Tcp) → IsValid t → IsValid (send_ack t)
unfolding send_ack tcp_send_segment
send_ack-IsValid t v = ground (arith, v)

module _ (s : Seg) (t : Tcp) (v : IsValid t) where
  pub acked-IsValid :
      is_closed t.state ≡ false
      → is_syn_sent t.state ≡ false
      → IsValid (acked s.flags s.ack t).1 × ((acked s.flags s.ack t).1.state ≡ t.state)
  unfolding acked process_ack
  acked-IsValid o n = ground (arith, v)

  in_syn_sent-IsValid : is_syn_sent t.state ≡ true → IsValid (in_syn_sent s t)
  unfolding in_syn_sent process_ack notify send_ack tcp_send_segment
  in_syn_sent-IsValid h = ground (arith, v)

  take_data-IsValid : IsValid (take_data s t) × ((take_data s t).state ≡ t.state)
  unfolding take_data notify send_ack tcp_send_segment
  take_data-IsValid = ground (arith, v)

  take_fin-IsValid : (now : ℕ) → is_established t.state ≡ true → IsValid (take_fin now s t)
  unfolding take_fin answer_fin send_ack tcp_send_segment send_tracked notify
  take_fin-IsValid now h = ground (arith, v)

  in_fin_wait_1-IsValid : (now : ℕ) → t.state ≡ fin_wait_1 → IsValid (in_fin_wait_1 now s t)
  unfolding in_fin_wait_1 acked process_ack send_ack tcp_send_segment
  in_fin_wait_1-IsValid now h = ground (arith, v)

  in_fin_wait_2-IsValid : (now : ℕ) → t.state ≡ fin_wait_2 → IsValid (in_fin_wait_2 now s t)
  unfolding in_fin_wait_2 send_ack tcp_send_segment
  in_fin_wait_2-IsValid now h = ground (arith, v)

  in_closing-IsValid : (now : ℕ) → t.state ≡ closing → IsValid (in_closing now s t)
  unfolding in_closing acked process_ack
  in_closing-IsValid now h = ground (arith, v)

  in_last_ack-IsValid : t.state ≡ last_ack → IsValid (in_last_ack s t)
  unfolding in_last_ack acked process_ack reset_to_closed
  in_last_ack-IsValid h = ground (arith, v)

  in_time_wait-IsValid : IsValid (in_time_wait s t)
  unfolding in_time_wait
  in_time_wait-IsValid = ground (arith, v, send_ack-IsValid t v)

in_established-IsValid :
    (now : ℕ) (s : Seg) (t : Tcp)
    → IsValid t
    → t.state ≡ established
    → IsValid (in_established now s t)
unfolding in_established
in_established-IsValid now s t v h =
    let u = (acked s.flags s.ack t).1 in
    let (v1, e1) = acked-IsValid s t v (ap is_closed h) (ap is_syn_sent h) in
    let (v2, e2) = take_data-IsValid s u v1 in
    take_fin-IsValid s (take_data s u) v2 now (ap is_established (e2 ∙ e1 ∙ h))

dispatch-IsValid :
    (st : State) (now : ℕ) (s : Seg) (t : Tcp)
    → IsValid t
    → t.state ≡ st
    → IsValid (dispatch st now s t)
unfolding dispatch
dispatch-IsValid closed now s t v h = v
dispatch-IsValid syn_sent now s t v h = in_syn_sent-IsValid s t v (ap is_syn_sent h)
dispatch-IsValid established now s t v h = in_established-IsValid now s t v h
dispatch-IsValid fin_wait_1 now s t v h = in_fin_wait_1-IsValid s t v now h
dispatch-IsValid fin_wait_2 now s t v h = in_fin_wait_2-IsValid s t v now h
dispatch-IsValid closing now s t v h = in_closing-IsValid s t v now h
dispatch-IsValid time_wait now s t v h = in_time_wait-IsValid s t v
dispatch-IsValid last_ack now s t v h = in_last_ack-IsValid s t v h

notify_reset-IsValid : (t : Tcp) → IsValid t → IsValid (reset_to_closed (notify Event.on_closed t))
notify_reset-IsValid t v = reset_to_closed-IsValid _ (notify-IsValid Event.on_closed t v)

take_segment-IsValid : (now : ℕ) (s : Seg) (t : Tcp) → IsValid t → IsValid (take_segment now s t)
unfolding take_segment
take_segment-IsValid now s t v = elim (Bool-cases (is_rst s.flags)) [
  | inl e ↦ rw e (notify_reset-IsValid t v)
  | inr e ↦ rw e (dispatch-IsValid t.state now s t v refl)
]

pub tcp_handle-IsValid :
    (now src_ip len : ℕ) (p : List ℕ) (t : Tcp)
    → IsValid t
    → IsValid (tcp_handle now src_ip p len t)
unfolding tcp_handle
tcp_handle-IsValid now src_ip len p t v =
    elim (Bool-cases (is_closed t.state || ltb len 20 || not (is_ours t src_ip p))) [
      | inl e ↦ rw e v
      | inr e ↦ rw e (elim (Bool-cases (ltb (offset_of p) 20 || ltb len (offset_of p))) [
        | inl f ↦ rw f v
        | inr f ↦ rw f (take_segment-IsValid now (read_segment p len) t v)
      ])
    ]

poll_timer-IsValid : (now later : ℕ) (t : Tcp) → IsValid t → IsValid (poll_timer now later t)
unfolding poll_timer tcp_send_segment
poll_timer-IsValid now later t v = ground (arith, v, notify_reset-IsValid t v)

poll_time_wait-IsValid : (now : ℕ) (t : Tcp) → IsValid t → IsValid (poll_time_wait now t)
unfolding poll_time_wait
poll_time_wait-IsValid now t v = ground (arith, v, reset_to_closed-IsValid t v)

pub tcp_poll-IsValid : (now later : ℕ) (t : Tcp) → IsValid t → IsValid (tcp_poll now later t)
unfolding tcp_poll
tcp_poll-IsValid now later t v =
    ground (arith, v, poll_timer-IsValid now later t v, poll_time_wait-IsValid now t v)
