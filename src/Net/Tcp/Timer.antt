-- ===== src/Net/Tcp/Timer.antt =====
-- The retransmission timer of the TCP client (`tcp_poll` of sw/apps/net/tcp.c): what an unanswered
-- segment leads to.
use zeitlos.Prelude.{
  ℕ, zero, suc, ◌+◌, ◌≤◌, ◌<◌, ◌≡◌, ◌∙◌, sym, true, some, List, [], ◌∷◌, ◌++◌, append-nil,
  append_assoc, arith, subst, length, take, replicate, sub32,
}
use zeitlos.Net.Tcp.{
  closed, on_closed, Datagram, Tcp, segment, tcp_send_segment, reset_to_closed, notify,
}
use zeitlos.Net.Tcp.Receive.{rto, max_retries, poll_timer, tcp_poll}
use zeitlos.Net.Tcp.Valid.{IsValid}

-- The outstanding segment, as a retransmission sends it.
abbrev pub outstanding : Tcp → Datagram
outstanding t = record {
  dst = t.remote_ip;
  protocol = 6;
  payload = segment t t.tx_seq t.tx_flags (take t.tx_len t.tx_buf);
}

-- A poll at `now` comes no sooner than the wait since the last transmission.
abbrev pub Due : ℕ → Tcp → Type 0
Due now t = rto t.retries ≤ sub32 now t.last_send_tick

abbrev pub polls : List (ℕ × ℕ) → Tcp → Tcp
polls [] t = t
polls ((now, later) ∷ ts) t = polls ts (tcp_poll now later t)

abbrev pub AllDue : List (ℕ × ℕ) → Tcp → Type 0
AllDue [] t = Unit
AllDue ((now, later) ∷ ts) t = Due now t × AllDue ts (tcp_poll now later t)

resent : ℕ → Tcp → Tcp
resent later t = record t {
  sent = t.sent ++ (outstanding t ∷ []);
  last_send_tick = later;
  retries = t.retries + 1;
}

module _ (now later : ℕ) (t : Tcp) (v : IsValid t) (p : t.tx_pending ≡ true) (d : Due now t) where
  poll_resends : t.retries < max_retries → tcp_poll now later t ≡ resent later t
  unfolding tcp_poll poll_timer tcp_send_segment resent
  poll_resends h = ground (arith, v)

  poll_last :
      (h : ℕ)
      → t.retries ≡ max_retries
      → t.handler ≡ some h
      → ((tcp_poll now later t).state ≡ closed)
        × ((tcp_poll now later t).heard ≡ t.heard ++ ((h, on_closed) ∷ []))
        × ((tcp_poll now later t).sent ≡ t.sent)
  unfolding tcp_poll poll_timer reset_to_closed notify
  poll_last h e s = ground (arith, v)

  resent-IsValid : t.retries < max_retries → IsValid (resent later t)
  unfolding resent
  resent-IsValid h = ground (arith, v)

-- What `n` retransmissions and then the end leave, from `t`.
pub record GaveUp (n h : ℕ) (t u : Tcp) : Type 0 where
  pub ended : u.state ≡ closed
  pub told : u.heard ≡ t.heard ++ ((h, on_closed) ∷ [])
  pub resends : u.sent ≡ t.sent ++ replicate n (outstanding t)

resent-GaveUp : (n h later : ℕ) (t u : Tcp) → GaveUp n h (resent later t) u → GaveUp (suc n) h t u
unfolding resent segment
resent-GaveUp n h later t u g = record {
  ended = g.ended;
  told = g.told;
  resends = g.resends ∙ append_assoc t.sent (outstanding t ∷ []) (replicate n (outstanding t));
}

-- A segment that stays unanswered is sent again, the same each time, whenever a poll finds its wait
-- over, up to seven times in all; the next such poll closes the connection and tells the handler.
pub polls_give_up :
    (n h : ℕ) (ts : List (ℕ × ℕ)) (t : Tcp)
    → IsValid t
    → t.tx_pending ≡ true
    → t.handler ≡ some h
    → t.retries + n ≡ max_retries
    → length ts ≡ suc n
    → AllDue ts t
    → GaveUp n h t (polls ts t)
polls_give_up n h [] t v p s e l d = absurd (omega arith)
polls_give_up zero h ((now, later) ∷ []) t v p s e l d =
    let (c, told, same) = poll_last now later t v p d.0 h (omega arith) s in
    record { ended = c; told = told; resends = same ∙ sym (append-nil t.sent) }
polls_give_up zero h ((now, later) ∷ q ∷ ts) t v p s e l d = absurd (omega arith)
polls_give_up (suc n) h ((now, later) ∷ ts) t v p s e l d =
    let few : t.retries < max_retries = omega arith in
    let step = poll_resends now later t v p d.0 few in
    let rest : AllDue ts (resent later t) = subst (AllDue ts) step d.1 in
    rw step (
      resent-GaveUp n h later t _ (
        polls_give_up n h ts (resent later t) (resent-IsValid now later t v p d.0 few)
          (unfold resent in p) (unfold resent in s) (unfold resent in omega arith) (omega arith)
          rest))
