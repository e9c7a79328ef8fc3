-- ===== src/Net/Tcp/Closing.antt =====
-- The end of a connection of the TCP client (sw/apps/net/tcp.c): acknowledgments that are too old, and
-- a close that its own side asked for.
use zeitlos.Prelude.{
  ℕ, ◌+◌, ◌^◌, ◌≤◌, ◌<◌, ◌≡◌, refl, Bool, true, false, List, [], ◌∷◌, arith, add32, sub32,
  Bool-cases, inl, inr, ◌||◌, not, ltb,
}
use zeitlos.Net.Octets.{byte}
use zeitlos.Net.Tcp.{
  State, closed, syn_sent, established, fin_wait_1, fin_wait_2, closing, time_wait, last_ack,
  is_closed, is_rst, Tcp, consumed, process_ack, acked, send_ack, tcp_send_segment, reset_to_closed,
}
use zeitlos.Net.Tcp.Receive.{
  Seg, in_fin_wait_1, in_fin_wait_2, in_closing, in_time_wait, dispatch, take_segment, read_segment,
  is_ours, offset_of, tcp_handle, time_wait_ticks, poll_time_wait, tcp_poll,
}

-- An acknowledgment that lies behind the outstanding segment, as a delayed one does, counts as one of
-- the whole segment: the test for a stale number holds for the numbers from the segment's first on
-- only.
pub process_ack_stale :
    (behind : ℕ) (t : Tcp)
    → t.tx_pending ≡ true
    → t.tx_seq < 2 ^ 32
    → 0 < behind
    → behind + consumed t.tx_flags t.tx_len ≤ 2 ^ 32
    → process_ack (sub32 t.tx_seq behind) t ≡ (
      true,
      record t { snd_una = add32 t.tx_seq (consumed t.tx_flags t.tx_len); tx_pending = false },
    )
unfolding process_ack
process_ack_stale behind t p w lo hi = ground arith

-- The states of a close that this side began.
abbrev pub is_closing : State → Bool
is_closing fin_wait_1 = true
is_closing fin_wait_2 = true
is_closing closing = true
is_closing time_wait = true
is_closing _ = false

-- A segment that arrives: the time, the sender, its bytes and their number.
pub record Arrival : Type 0 where
  pub now : ℕ
  pub src_ip : ℕ
  pub octets : List ℕ
  pub len : ℕ

abbrev pub arrive : Arrival → Tcp → Tcp
arrive a t = tcp_handle a.now a.src_ip a.octets a.len t

abbrev pub arrivals : List Arrival → Tcp → Tcp
arrivals [] t = t
arrivals (a ∷ as') t = arrivals as' (arrive a t)

abbrev pub NoReset : List Arrival → Type 0
NoReset [] = Unit
NoReset (a ∷ as') = (is_rst (byte a.octets 13) ≡ false) × NoReset as'

record IsSilent (t u : Tcp) : Type 0 where
  same_heard : u.heard ≡ t.heard
  still_closing : is_closing u.state ≡ true

dispatch-IsSilent :
    (st : State) (now : ℕ) (s : Seg) (t : Tcp)
    → t.state ≡ st
    → is_closing st ≡ true
    → IsSilent t (dispatch st now s t)
unfolding dispatch in_fin_wait_1 in_fin_wait_2 in_closing in_time_wait acked process_ack send_ack
    tcp_send_segment
dispatch-IsSilent fin_wait_1 now s t e c = ground arith
dispatch-IsSilent fin_wait_2 now s t e c = ground arith
dispatch-IsSilent closing now s t e c = ground arith
dispatch-IsSilent time_wait now s t e c = ground arith
dispatch-IsSilent closed now s t e c = cc
dispatch-IsSilent syn_sent now s t e c = cc
dispatch-IsSilent established now s t e c = cc
dispatch-IsSilent last_ack now s t e c = cc

arrive-IsSilent :
    (a : Arrival) (t : Tcp)
    → is_closing t.state ≡ true
    → is_rst (byte a.octets 13) ≡ false
    → IsSilent t (arrive a t)
unfolding tcp_handle take_segment read_segment
arrive-IsSilent a t c r =
    elim (Bool-cases (is_closed t.state || ltb a.len 20 || not (is_ours t a.src_ip a.octets))) [
      | inl e ↦ rw e (ground (arith, c))
      | inr e ↦
          rw e (elim (Bool-cases (ltb (offset_of a.octets) 20 || ltb a.len (offset_of a.octets))) [
            | inl f ↦ rw f (ground (arith, c))
            | inr f ↦
                rw (f, r) (dispatch-IsSilent t.state a.now (read_segment a.octets a.len) t refl c)
          ])
    ]

arrivals-IsSilent :
    (as' : List Arrival) (t : Tcp)
    → is_closing t.state ≡ true
    → NoReset as'
    → IsSilent t (arrivals as' t)
arrivals-IsSilent [] t c n = ground (arith, c)
arrivals-IsSilent (a ∷ as') t c n =
    let s = arrive-IsSilent a t c n.0 in
    let r = arrivals-IsSilent as' (arrive a t) s.still_closing n.1 in ground (arith, s, r)

-- While a close that this side began is under way, no segment but a reset tells the handler anything;
-- and when the wait at its end is over, the connection is closed without a word to the handler too.
pub close_silent :
    (as' : List Arrival) (now later : ℕ) (t : Tcp)
    → is_closing t.state ≡ true
    → NoReset as'
    → (arrivals as' t).state ≡ time_wait
    → time_wait_ticks ≤ sub32 now (arrivals as' t).time_wait_start
    → ((tcp_poll now later (arrivals as' t)).state ≡ closed)
      × ((tcp_poll now later (arrivals as' t)).heard ≡ t.heard)
unfolding tcp_poll poll_time_wait reset_to_closed
close_silent as' now later t c n e w = ground (arith, arrivals-IsSilent as' t c n)
