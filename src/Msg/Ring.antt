-- ===== src/Msg/Ring.antt =====
-- sw/os/msg.c: a mailbox is a bounded queue. The ring with its three indices refines the list of the
-- pending envelopes, oldest first.
use zeitlos.Prelude.{
  ℕ, zero, suc, ◌+◌, ◌%◌, ◌^◌, add32, sub32, ◌≤◌, ◌<◌, ◌≡◌, ◌∙◌, refl, ap, ap₂, leb, ◌==◌, List, [],
  ◌∷◌, ◌++◌, arith, length, length-set, set, IsDepth, window_in, length-window_in, window_in_push,
  window_in_head,
}
use zeitlos.Msg.Queue
use zeitlos.Msg.{
  Envelope, empty_envelope, mailbox_depth, Mailbox, mailbox_push, mailbox_pop, mailbox_is_empty,
  mailbox_is_full,
}

-- What `omega` knows of the depth.
pub mailbox-IsDepth : IsDepth mailbox_depth
mailbox-IsDepth = record {
  start = λ h lt. omega arith;
  inside = λ h. omega arith;
  next = λ h n. omega arith;
  apart = λ h j k lt in_depth. omega arith;
}

-- The pending envelopes, oldest first.
abbrev pub contents : Mailbox → List Envelope
contents m = window_in mailbox_depth empty_envelope m.msgs m.head m.count

pub record IsValid (m : Mailbox) : Type 0 where
  pub sized : length m.msgs ≡ mailbox_depth
  pub head_in : m.head < mailbox_depth
  pub counted : m.count ≤ mailbox_depth
  pub tail_at : m.tail ≡ (m.head + m.count) % mailbox_depth

-- A mailbox with no message pending, as the kernel's cleared memory holds it.
pub zeroed-IsValid :
    (msgs : List Envelope)
    → length msgs ≡ mailbox_depth
    → IsValid (record { msgs = msgs; head = 0; tail = 0; count = 0 })
zeroed-IsValid msgs h = omega arith

pub length-contents : (m : Mailbox) → length (contents m) ≡ m.count
length-contents m = length-window_in mailbox_depth empty_envelope m.msgs m.head m.count

-- A push keeps the indices in range and in step, whether the mailbox is full or not.
pub mailbox_push-IsValid : (m : Mailbox) (x : Envelope) → IsValid m → IsValid (mailbox_push m x).1
unfolding mailbox_push
mailbox_push-IsValid m x v = ground (arith, length-set m.msgs m.tail x)

-- A pop keeps the indices in range and in step, whether the mailbox is empty or not.
pub mailbox_pop-IsValid : (m : Mailbox) → IsValid m → IsValid (mailbox_pop m).1
unfolding mailbox_pop
mailbox_pop-IsValid m v = ground arith

window-push :
    (m : Mailbox) (x : Envelope)
    → IsValid m
    → m.count < mailbox_depth
    → window_in mailbox_depth empty_envelope (set m.msgs m.tail x) m.head (suc m.count)
      ≡ contents m ++ (x ∷ [])
window-push m x v lt =
    ap (λ i. window_in mailbox_depth empty_envelope (set m.msgs i x) m.head (suc m.count)) v.tail_at
    ∙ (window_in_push mailbox-IsDepth empty_envelope m.msgs m.head m.count x lt
        (omega (arith, v.sized)))

-- `z_mailbox_push` on a valid mailbox returns the status of the queue's push, and leaves the mailbox
-- holding the queue's entries.
pub mailbox_push_refines :
    (m : Mailbox) (x : Envelope)
    → IsValid m
    → let (r, m') = mailbox_push m x in (r, contents m') ≡ Queue.push (contents m) x
unfolding mailbox_push Queue.push
mailbox_push_refines m x v =
    let e : add32 m.count 1 ≡ suc (m.count % 2 ^ 32) = omega (arith, v.counted) in
    ground (arith, length-contents m, window-push m x v)

pop_at :
    (m : Mailbox) (n : ℕ)
    → m.count ≡ n
    → IsValid m
    → let (r, m') = mailbox_pop m in (r, contents m') ≡ Queue.pop (contents m)
unfolding mailbox_pop Queue.pop
pop_at m zero e v = ground (arith, ap (window_in mailbox_depth empty_envelope m.msgs m.head) e)
pop_at m (suc n) e v =
    let all = ap (window_in mailbox_depth empty_envelope m.msgs m.head) e in
    let rest : window_in mailbox_depth empty_envelope m.msgs (add32 m.head 1 % mailbox_depth)
          (sub32 m.count 1)
        ≡ window_in mailbox_depth empty_envelope m.msgs ((m.head + 1) % mailbox_depth) n =
      let h : add32 m.head 1 % mailbox_depth ≡ (m.head + 1) % mailbox_depth = omega arith in
      let c : sub32 m.count 1 ≡ n = omega (arith, v.counted) in
      ap₂ (window_in mailbox_depth empty_envelope m.msgs) h c in
    ground
      (arith, all, rest, window_in_head mailbox-IsDepth empty_envelope m.msgs m.head n v.head_in)

-- `z_mailbox_pop` on a valid mailbox returns what the queue's pop returns, and leaves the mailbox
-- holding the queue's rest.
pub mailbox_pop_refines :
    (m : Mailbox)
    → IsValid m
    → let (r, m') = mailbox_pop m in (r, contents m') ≡ Queue.pop (contents m)
mailbox_pop_refines m v = pop_at m m.count refl v

-- A mailbox is empty, and full, when its queue is.
pub mailbox_tests :
    (m : Mailbox)
    → (mailbox_is_empty m ≡ (length (contents m) == 0))
      × (mailbox_is_full m ≡ leb mailbox_depth (length (contents m)))
unfolding mailbox_is_empty mailbox_is_full
mailbox_tests m = ground (arith, length-contents m)
