-- ===== src/Port/Kept.antt =====
-- sw/common/zport.c: the invariant of a connection's two ends, and how the calls at either end end.
use zeitlos.Prelude.{
  ℕ, suc, ◌+◌, ◌≤◌, ◌<◌, ◌≡◌, ◌∙◌, refl, sym, ap, Bool, true, false, ◌&&◌, List, [], ◌∷◌, ◌++◌,
  append_assoc, arith, length, drop, ◌==◌, if◌then◌else◌, inl, inr, ◌⊎◌,
}
use zeitlos.Zobj.{Obj}
use zeitlos.Msg.{
  z_msg_new_send, Envelope, ok, fail, Kernel, procs_max, Request, stamped, k_msg_send,
}
use zeitlos.Msg.Deliver.{IsSound, pending}
use zeitlos.Msg.Ends.{sent}
use zeitlos.Port.{
  port_data, port_data_ack, max_pending_sends, Port, push, release, z_port_send, z_port_handle_ack,
}
use zeitlos.Port.Ring.{IsValid, waiting, release-IsValid, waiting-release}
use zeitlos.Port.Wire.{unread, acks, unread-append, acks-append, World, running}

-- What a send does to the data and the acknowledgments that wait in a mailbox.
pub tally :
    (msg : Request) (k : Kernel) (j : ℕ)
    → IsSound k
    → let (r, k') = k_msg_send msg k in
      let here = msg.to == j in
      ((r ≡ fail)
        × (unread (pending k' j) ≡ unread (pending k j))
        × (acks (pending k' j) ≡ acks (pending k j)))
      ⊎ ((r ≡ ok)
          × (unread (pending k' j)
              ≡ unread (pending k j)
                ++ (if here && msg.subject == port_data then msg.obj.val ∷ [] else []))
          × (acks (pending k' j)
              ≡ acks (pending k j) + (if here && msg.subject == port_data_ack then 1 else 0)))
tally msg k j v = elim (sent msg k j v) [
  | inl (r, p) ↦ inl (r, ap unread p, ap acks p)
  | inr (r, p) ↦
      let added = if msg.to == j then stamped k msg ∷ [] else [] in
      inr (
        r,
        ap unread p
            ∙ unread-append (pending k j) added
            ∙ ap (unread (pending k j) ++◌) (data_of (msg.to == j)),
        ap acks p
            ∙ acks-append (pending k j) added
            ∙ ap (acks (pending k j) +◌) (acks_of (msg.to == j)),
      )
]
  where
    data_of :
        (h : Bool)
        → unread (if h then stamped k msg ∷ [] else [])
          ≡ (if h && msg.subject == port_data then msg.obj.val ∷ [] else [])
    data_of true = refl
    data_of false = refl

    acks_of :
        (h : Bool)
        → acks (if h then stamped k msg ∷ [] else [])
          ≡ (if h && msg.subject == port_data_ack then 1 else 0)
    acks_of true = refl
    acks_of false = refl

module _ (a b : ℕ) where
  -- Behind what was read, and may be freed, stands exactly what was not read.
  pub record Kept (w : World) : Type 0 where
    pub sound : IsSound w.kernel
    pub valid : IsValid w.port
    pub live : w.port.connected ≡ true
    pub to_peer : w.port.peer_pid ≡ b
    pub read_by_peer : List ℕ
    pub waits : waiting w.port ≡ read_by_peer ++ unread (pending w.kernel b)
    pub acked : acks (pending w.kernel a) + length w.owed ≤ length read_by_peer
    pub ordered : w.given ≡ w.released ++ waiting w.port

-- How a send on a connected port ends.
pub send_ends :
    (obj : Obj) (p : Port) (k : Kernel)
    → p.connected ≡ true
    → let (rv, k') = z_msg_new_send p.peer_pid port_data p.conn_id obj k in
      let o = z_port_send obj p k in
      ((o.status ≡ fail) × (o.port ≡ p) × (o.kernel ≡ k))
      ⊎ ((o.status ≡ fail) × (o.port ≡ p) × (rv ≡ fail) × (o.kernel ≡ k'))
      ⊎ ((o.status ≡ ok)
          × (p.pending_count < max_pending_sends)
          × (rv ≡ ok)
          × (o.port ≡ push obj.val p)
          × (o.kernel ≡ k'))
unfolding z_port_send
send_ends obj p k c = ground arith

pub resound : (p : ℕ) (k : Kernel) → p < procs_max → IsSound k → IsSound (running p k)
resound p k h v = record { slots = v.slots; running = h; boxes = v.boxes }

-- What may change around a port without harm: what waits for the two processes stays, in these
-- numbers.
pub steady :
    (a b : ℕ) (w : World) (k : Kernel)
    → Kept a b w
    → IsSound k
    → unread (pending k b) ≡ unread (pending w.kernel b)
    → acks (pending k a) ≤ acks (pending w.kernel a)
    → Kept a b (record w { kernel = k })
steady a b w k v s u c = record {
  sound = s;
  valid = v.valid;
  live = v.live;
  to_peer = v.to_peer;
  read_by_peer = v.read_by_peer;
  waits = v.waits ∙ ap (v.read_by_peer ++◌) (sym u);
  acked = omega (arith, v.acked, c);
  ordered = v.ordered;
}

pub handle_ends :
    (msg : Envelope) (p : Port)
    → (z_port_handle_ack msg p ≡ ([], p))
      ⊎ ((0 < p.pending_count) × (z_port_handle_ack msg p ≡ release p))
unfolding z_port_handle_ack
handle_ends msg p = ground arith

-- The oldest of what waits has been read, as an acknowledgment was under way.
pub freed-Kept :
    (a b : ℕ) (w : World) (read : List ℕ)
    → Kept a b w
    → waiting w.port ≡ read ++ unread (pending w.kernel b)
    → suc (acks (pending w.kernel a) + length w.owed) ≤ length read
    → 0 < w.port.pending_count
    → let (freed, p) = release w.port in
      Kept a b (record w { port = p; released = w.released ++ freed })
unfolding release
freed-Kept a b w [] v e h c = elim h [ ]
freed-Kept a b w (x ∷ read) v e h c =
    let split = waiting-release w.port v.valid c in
    record {
      sound = v.sound;
      valid = release-IsValid w.port v.valid c;
      live = v.live;
      to_peer = v.to_peer;
      read_by_peer = read;
      waits = ap (drop 1) (sym split ∙ e);
      acked = omega (arith, h);
      ordered = v.ordered ∙ ap (w.released ++◌) split ∙ sym (append_assoc w.released _ _);
    }
