-- ===== src/Port/Safety.antt =====
-- sw/common/zport.c: `z_port_handle_ack` frees the oldest send that waits. Why that one has been read.
use zeitlos.Prelude.{
  ℕ, suc, ◌≤◌, ◌<◌, ◌≡◌, ◌≢◌, ◌∙◌, refl, sym, ap, ap₂, true, none, some, Option, List, [], ◌∷◌,
  ◌++◌, append-nil, append_assoc, arith, length, length-append, ◌==◌, All, Bool-cases, inl, inr,
  window_in,
}
use zeitlos.Zobj.{Obj, z_obj_none}
use zeitlos.Msg.{z_msg_new_send, Envelope, Kernel, procs_max, Request, k_msg_send, read_envelope}
use zeitlos.Msg.Deliver.{IsSound, pending, k_msg_send-IsSound, read_envelope-IsSound}
use zeitlos.Msg.Ends.{Taken, taken}
use zeitlos.Port.{port_data, port_data_ack, max_pending_sends, push, send_ack, z_port_send}
use zeitlos.Port.Ring.{IsValid, waiting, push-IsValid, waiting-push}
use zeitlos.Port.Wire.{
  unread, acks, World, Act, give, hear, listen, answer, give_up, other, running, sent_on, heard,
  listened, after_read, answered, dropped, step, run, IsForeign,
}
use zeitlos.Port.Kept.{Kept, tally, send_ends, resound, steady, handle_ends, freed-Kept}

module _ (a b : ℕ) (ha : a < procs_max) (hb : b < procs_max) (ab : a ≢ b) where
  give-Kept :
      (obj : Obj) (w : World)
      → Kept a b w
      → Kept a b (sent_on obj (z_port_send obj w.port (running a w.kernel)) w)
  unfolding z_msg_new_send push
  give-Kept obj w v =
      let k = running a w.kernel in
      let s = resound a w.kernel ha v.sound in
      let msg : Request = record {
        to = w.port.peer_pid;
        subject = port_data;
        tag = w.port.conn_id;
        obj = obj;
      } in
      let at_a = tally msg k a s in
      let at_b = tally msg k b s in
      let still = k_msg_send-IsSound msg k s in
      elim (send_ends obj w.port k v.live) [
        | inl (f, p, e) ↦ rw (f, p, e) (steady a b w k v s refl (omega arith))
        | inr (inl (f, p, r, e)) ↦
            rw (f, p, e)
              (steady a b w (k_msg_send msg k).1 v still (ground (arith, at_b, r))
                (ground (arith, at_a, r)))
        | inr (inr (o, c, r, p, e)) ↦
            let queued : unread (pending (k_msg_send msg k).1 b)
                ≡ unread (pending w.kernel b) ++ (obj.val ∷ []) =
              ground (arith, at_b, r, v.to_peer) in
            let silent : acks (pending (k_msg_send msg k).1 a) ≡ acks (pending w.kernel a) =
              ground (arith, at_a, r) in
            let longer = waiting-push obj.val w.port v.valid c in
            rw (o, p, e)
              (record {
                sound = still;
                valid = push-IsValid obj.val w.port v.valid c;
                live = v.live;
                to_peer = v.to_peer;
                read_by_peer = v.read_by_peer;
                waits =
                    longer
                    ∙ ap (λ l. l ++ (obj.val ∷ [])) v.waits
                    ∙ append_assoc v.read_by_peer _ _
                    ∙ ap (v.read_by_peer ++◌) (sym queued);
                acked = omega (arith, v.acked, silent);
                ordered =
                    ap (λ l. l ++ (obj.val ∷ [])) v.ordered
                    ∙ append_assoc w.released _ _
                    ∙ ap (w.released ++◌) (sym longer);
              })
      ]

  heard-Kept :
      (t : Option Envelope × Kernel) (w : World)
      → Kept a b w
      → IsSound t.1
      → Taken (running a w.kernel) t
      → Kept a b (after_read heard t w)
  heard-Kept (none, k) w v s (_, p) =
      steady a b w k v s (ap unread (p b)) (omega (arith, ap acks (p a)))
  heard-Kept (some e, k) w v s (q, p, here, there) =
      let gone : acks (pending w.kernel a) ≡ acks (e ∷ q) = ap acks p in
      let left : acks (pending k a) ≡ acks q = ap acks here in
      let bytes : unread (pending k b) ≡ unread (pending w.kernel b) = ap unread (there b ab) in
      let u = steady a b w k v s bytes (ground (arith, gone, left)) in
      elim (Bool-cases (e.subject == port_data_ack)) [
        | inr n ↦ rw n u
        | inl y ↦
            let fewer : suc (acks (pending k a)) ≡ acks (pending w.kernel a) =
              ground (arith, gone, left, y) in
            elim (handle_ends e w.port) [
              | inl h ↦ rw (y, h, append-nil w.released) u
              | inr (c, h) ↦
                  rw (y, h)
                    (freed-Kept a b (record w { kernel = k }) v.read_by_peer u
                      (v.waits ∙ ap (v.read_by_peer ++◌) (sym bytes))
                      (omega (arith, v.acked, fewer)) c)
            ]
      ]

  listened-Kept :
      (t : Option Envelope × Kernel) (w : World)
      → Kept a b w
      → IsSound t.1
      → Taken (running b w.kernel) t
      → Kept a b (after_read listened t w)
  listened-Kept (none, k) w v s (_, p) =
      steady a b w k v s (ap unread (p b)) (omega (arith, ap acks (p a)))
  listened-Kept (some e, k) w v s (q, p, here, there) =
      let others : acks (pending k a) ≡ acks (pending w.kernel a) =
        ap acks (there a (λ h. ab (sym h))) in
      let gone = ap unread p in
      let left = ap unread here in
      elim (Bool-cases (e.subject == port_data)) [
        | inr n ↦
            let still : unread (pending k b) ≡ unread (pending w.kernel b) =
              left ∙ sym (gone ∙ rw n refl) in
            rw n (steady a b w k v s still (omega (arith, others)))
        | inl y ↦
            let moved : unread (pending w.kernel b) ≡ e.obj.val ∷ unread (pending k b) =
              gone ∙ rw y (ap (e.obj.val ∷◌) (sym left)) in
            rw y (record {
              sound = s;
              valid = v.valid;
              live = v.live;
              to_peer = v.to_peer;
              read_by_peer = v.read_by_peer ++ (e.obj.val ∷ []);
              waits =
                  v.waits ∙ ap (v.read_by_peer ++◌) moved ∙ sym (append_assoc v.read_by_peer _ _);
              acked = omega (
                arith,
                v.acked,
                others,
                length-append v.read_by_peer (e.obj.val ∷ []),
                length-append w.owed (e ∷ []),
              );
              ordered = v.ordered;
            })
      ]

  -- An attempt to acknowledge, for a message that was read.
  answered-Kept :
      (owed : List Envelope) (w : World) → w.owed ≡ owed → Kept a b w → Kept a b (answered b owed w)
  unfolding send_ack z_msg_new_send
  answered-Kept [] w e v = v
  answered-Kept (msg ∷ owed) w e v =
      let k = running b w.kernel in
      let s = resound b w.kernel hb v.sound in
      let ack : Request = record {
        to = msg.from;
        subject = port_data_ack;
        tag = msg.tag;
        obj = z_obj_none;
      } in
      let k' = (k_msg_send ack k).1 in
      let still = k_msg_send-IsSound ack k s in
      let at_a = tally ack k a s in
      let at_b = tally ack k b s in
      let same : unread (pending k' b) ≡ unread (pending w.kernel b) =
        ground (arith, at_b, append-nil (unread (pending w.kernel b))) in
      let n : length w.owed ≡ suc (length owed) = ap length e in
      elim at_a [
        | inl (r, u, c) ↦ let v' = steady a b w k' v still same (omega (arith, c)) in rw (r, ← e) v'
        | inr (r, u, c) ↦
            let most : acks (pending k' a) ≤ suc (acks (pending w.kernel a)) = ground (arith, c) in
            rw r (record {
              sound = still;
              valid = v.valid;
              live = v.live;
              to_peer = v.to_peer;
              read_by_peer = v.read_by_peer;
              waits = v.waits ∙ ap (v.read_by_peer ++◌) (sym same);
              acked = omega (arith, v.acked, most, n);
              ordered = v.ordered;
            })
      ]

  give_up-Kept : (w : World) → Kept a b w → Kept a b (record w { owed = dropped w.owed })
  give_up-Kept w v = record {
    sound = v.sound;
    valid = v.valid;
    live = v.live;
    to_peer = v.to_peer;
    read_by_peer = v.read_by_peer;
    waits = v.waits;
    acked = omega (arith, v.acked, fewer w.owed);
    ordered = v.ordered;
  }
    where
      fewer : (owed : List Envelope) → length (dropped owed) ≤ length owed
      fewer [] = omega arith
      fewer (msg ∷ owed) = omega arith

  step-Kept : (x : Act) (w : World) → IsForeign x → Kept a b w → Kept a b (step a b x w)
  unfolding step
  step-Kept (give obj) w f v = give-Kept obj w v
  step-Kept hear w f v =
      let s = resound a w.kernel ha v.sound in
      heard-Kept (read_envelope (running a w.kernel)) w v
        (read_envelope-IsSound (running a w.kernel) s) (taken (running a w.kernel) s)
  step-Kept listen w f v =
      let s = resound b w.kernel hb v.sound in
      listened-Kept (read_envelope (running b w.kernel)) w v
        (read_envelope-IsSound (running b w.kernel) s) (taken (running b w.kernel) s)
  step-Kept answer w f v = answered-Kept w.owed w refl v
  step-Kept give_up w f v = give_up-Kept w v
  step-Kept (other pid msg) w (h, n, m) v =
      let k = running pid w.kernel in
      let s = resound pid w.kernel h v.sound in
      let at_a = tally msg k a s in
      let at_b = tally msg k b s in
      steady a b w (k_msg_send msg k).1 v (k_msg_send-IsSound msg k s)
        (ground (arith, at_b, n, append-nil (unread (pending w.kernel b))))
        (ground (arith, at_a, m))

  run-Kept : (xs : List Act) (w : World) → All IsForeign xs → Kept a b w → Kept a b (run a b xs w)
  unfolding run
  run-Kept [] w f v = v
  run-Kept (x ∷ xs) w f v = run-Kept xs (step a b x w) f.1 (step-Kept x w f.0 v)

  -- The two ends of a connection that is open and has sent nothing: however their sends, reads and
  -- acknowledgments fall, with acknowledgments refused, repeated later or given up, and whatever other
  -- processes send that is neither data nor an acknowledgment, the blobs that were sent are, in order,
  -- those that an acknowledgment freed, some more, and those that the receiver has yet to read. None
  -- that is unread has been freed.
  pub unread_not_freed :
      (xs : List Act) (w : World)
      → IsSound w.kernel
      → IsValid w.port
      → w.port.connected ≡ true
      → w.port.peer_pid ≡ b
      → w.port.pending_count ≡ 0
      → pending w.kernel a ≡ []
      → pending w.kernel b ≡ []
      → w.owed ≡ []
      → w.given ≡ []
      → w.released ≡ []
      → All IsForeign xs
      → let u = run a b xs w in
        (between : List ℕ) × (u.given ≡ u.released ++ (between ++ unread (pending u.kernel b)))
  unread_not_freed xs w s v c p n ma mb o g r f =
      let empty : waiting w.port ≡ [] =
        ap (window_in max_pending_sends 0 w.port.pending w.port.pending_head) n in
      let k = run-Kept xs w f (record {
        sound = s;
        valid = v;
        live = c;
        to_peer = p;
        read_by_peer = [];
        waits = empty ∙ sym (ap unread mb);
        acked = omega (arith, ap acks ma, ap length o);
        ordered = g ∙ sym (ap₂ ◌++◌ r empty);
      }) in
      (k.read_by_peer, k.ordered ∙ ap ((run a b xs w).released ++◌) k.waits)
