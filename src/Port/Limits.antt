-- ===== src/Port/Limits.antt =====
-- sw/common/zport.c: where a connection ends, and what of it a new one on the same `z_port_t` keeps.
use zeitlos.Prelude.{
  ℕ, ◌≤◌, ◌≡◌, refl, Bool, true, false, ◌||◌, not, some, List, [], ◌∷◌, arith, ltb, All, sub32,
  Option-cases, Bool-cases, inl, inr,
}
use zeitlos.Zobj.{Obj}
use zeitlos.Msg.{Envelope, Rv, ok, fail, Kernel, read_envelope}
use zeitlos.Port.{
  Port, max_pending_sends, ack_retry_ticks, Turn, z_port_send, z_port_close, z_port_accept,
  ack_loop, send_ack, z_port_send_ack, connect_loop, connect_reply, is_blob,
  z_port_connect_arg_timeout,
}

-- What a provider does with a port, and what other processes do in between.
pub data Call : Type 0 where
  send : Obj → Call
  close : Call
  accept : Envelope → ℕ → Call
  others : (Kernel → Kernel) → Call

-- The statuses of the sends.
pub statuses : List Call → Port → Kernel → List Rv
statuses [] p k = []
statuses (send obj ∷ cs) p k = let o = z_port_send obj p k in o.status ∷ statuses cs o.port o.kernel
statuses (close ∷ cs) p k = let (q, k') = z_port_close p k in statuses cs q k'
statuses (accept msg id ∷ cs) p k = let (q, k') = z_port_accept msg id p k in statuses cs q k'
statuses (others f ∷ cs) p k = statuses cs p (f k)

full_send :
    (obj : Obj) (p : Port) (k : Kernel)
    → max_pending_sends ≤ p.pending_count
    → let o = z_port_send obj p k in (o.status ≡ fail) × (o.port ≡ p)
unfolding z_port_send
full_send obj p k h = ground arith

close_keeps : (p : Port) (k : Kernel) → (z_port_close p k).0.pending_count ≡ p.pending_count
unfolding z_port_close
close_keeps p k = ground arith

accept_keeps :
    (msg : Envelope) (id : ℕ) (p : Port) (k : Kernel)
    → (z_port_accept msg id p k).0.pending_count ≡ p.pending_count
unfolding z_port_accept
accept_keeps msg id p k = refl

-- With eight sends that were never acknowledged, a port refuses every send, however often it is
-- closed and accepted anew, for whatever peer, and whatever the other processes do, as long as no
-- acknowledgment is handled.
pub full_port_is_mute :
    (cs : List Call) (p : Port) (k : Kernel)
    → max_pending_sends ≤ p.pending_count
    → All (λ r. r ≡ fail) (statuses cs p k)
unfolding statuses
full_port_is_mute [] p k h = tt
full_port_is_mute (send obj ∷ cs) p k h =
    let o = full_send obj p k h in (o.0, full_port_is_mute cs _ _ (rw o.1 h))
full_port_is_mute (close ∷ cs) p k h = full_port_is_mute cs _ _ (omega (arith, h, close_keeps p k))
full_port_is_mute (accept msg id ∷ cs) p k h =
    full_port_is_mute cs _ _ (omega (arith, h, accept_keeps msg id p k))
full_port_is_mute (others f ∷ cs) p k h = full_port_is_mute cs p (f k) h

-- Is there a turn whose clock is past the time?
abbrev pub is_over : ℕ → ℕ → List Turn → Bool
is_over start limit [] = false
is_over start limit (t ∷ ts) = not (ltb (sub32 t.clock start) limit) || is_over start limit ts

ack_loop_ends :
    (start : ℕ) (ts : List Turn) (msg : Envelope) (r : Rv × Kernel)
    → is_over start ack_retry_ticks ts ≡ true
    → (s : Rv × Kernel) × (ack_loop start ts msg r ≡ some s)
unfolding ack_loop
ack_loop_ends start ts msg (ok, k) h = ((ok, k), refl)
ack_loop_ends start [] msg (fail, k) h = cc
ack_loop_ends start (t ∷ ts) msg (fail, k) h =
    elim (Bool-cases (ltb (sub32 t.clock start) ack_retry_ticks)) [
      | inl e ↦ rw e (ack_loop_ends start ts msg (send_ack msg (t.others k)) (ground (arith, h, e)))
      | inr e ↦ ((fail, t.others k), rw e refl)
    ]

connect_loop_ends :
    (start limit : ℕ) (ts : List Turn) (p : Port) (k : Kernel)
    → is_over start limit ts ≡ true
    → (s : Rv × Port × Kernel) × (connect_loop start limit ts p k ≡ some s)
unfolding connect_loop
connect_loop_ends start limit [] p k h = cc
connect_loop_ends start limit (t ∷ ts) p k h = elim (Bool-cases (ltb (sub32 t.clock start) limit)) [
  | inr e ↦ ((fail, p, t.others k), rw e refl)
  | inl e ↦
      let rest =
        connect_loop_ends start limit ts p (read_envelope (t.others k)).1 (ground (arith, h, e)) in
      elim (Option-cases (read_envelope (t.others k)).0) [
        | inl n ↦ (rest.0, rw (e, n) rest.1)
        | inr (msg, n) ↦ elim (Option-cases (connect_reply msg p)) [
          | inl c ↦ (rest.0, rw (e, n, c) rest.1)
          | inr (q, c) ↦ ((q.0, q.1, (read_envelope (t.others k)).1), rw (e, n, c) refl)
        ]
      ]
]

-- Neither waiting call waits for ever: if among the rounds that it is given one reads the clock past the
-- call's time, then it has returned, whatever the other processes did meanwhile and whichever messages
-- came.
pub waits_end :
    (start limit provider : ℕ) (arg : Obj) (ts us : List Turn) (msg : Envelope) (p : Port)
    (k : Kernel)
    → is_over start ack_retry_ticks ts ≡ true
    → is_over start limit us ≡ true
    → ((s : Rv × Kernel) × (z_port_send_ack start ts msg k ≡ some s))
      × ((s : Rv × Port × Kernel) × (z_port_connect_arg_timeout start provider arg limit us p k
            ≡ some s))
unfolding z_port_send_ack z_port_connect_arg_timeout
waits_end start limit provider arg ts us msg p k h i = (
  elim (Bool-cases (is_blob msg.obj.tag)) [
    | inl e ↦ let r = ack_loop_ends start ts msg (send_ack msg k) h in (r.0, rw e r.1)
    | inr e ↦ ((ok, k), rw e refl)
  ],
  connect_loop_ends start limit us _ _ i,
)
