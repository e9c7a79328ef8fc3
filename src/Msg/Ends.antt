-- ===== src/Msg/Ends.antt =====
-- sw/os/msg.c: how the system calls end, for one queue at a time.
use zeitlos.Prelude.{
  ℕ, ◌≡◌, ◌≢◌, ◌∙◌, refl, sym, ap, true, none, some, Option, List, [], ◌∷◌, ◌++◌, append-nil, arith,
  length, leb, ◌==◌, if◌then◌else◌, Bool-cases, inl, inr, ◌⊎◌, ==_iff,
}
use zeitlos.Msg.Queue
use zeitlos.Msg.{
  Envelope, ok, fail, Kernel, Request, stamped, k_msg_send, read_envelope, mailbox_depth,
}
use zeitlos.Msg.Deliver.{IsSound, pending, reachable, k_msg_send_queues, read_envelope_queues}

-- A send ends in one of two ways: nothing is queued, or the message is, at its receiver's end.
pub sent :
    (msg : Request) (k : Kernel) (j : ℕ)
    → IsSound k
    → let (r, k') = k_msg_send msg k in
      ((r ≡ fail) × (pending k' j ≡ pending k j))
      ⊎ ((r ≡ ok)
          × (pending k' j ≡ pending k j ++ (if msg.to == j then stamped k msg ∷ [] else [])))
unfolding Queue.push
sent msg k j v =
    let q = k_msg_send_queues msg k v in
    let at : msg.to == j ≡ true → pending k msg.to ≡ pending k j =
      λ e. ap (pending k) ((==_iff msg.to j).0 e) in
    elim (Bool-cases (reachable k msg.to)) [
      | inl e ↦ elim (Bool-cases (leb mailbox_depth (length (pending k msg.to)))) [
        | inl f ↦ elim (Bool-cases (msg.to == j)) [
          | inl h ↦ inl (q.0 ∙ rw (e, f) refl, q.1 j ∙ rw (e, f, h) (at h))
          | inr h ↦ inl (q.0 ∙ rw (e, f) refl, q.1 j ∙ rw (e, f, h) refl)
        ]
        | inr f ↦ elim (Bool-cases (msg.to == j)) [
          | inl h ↦ inr (
            q.0 ∙ rw (e, f) refl,
            q.1 j ∙ rw (e, f, h) (ap (λ l. l ++ (stamped k msg ∷ [])) (at h)),
          )
          | inr h ↦
              inr (q.0 ∙ rw (e, f) refl, q.1 j ∙ rw (e, f, h) (sym (append-nil (pending k j))))
        ]
      ]
      | inr e ↦ inl (q.0 ∙ rw e refl, q.1 j ∙ rw e refl)
    ]

-- A read finds nothing, or takes the oldest message of the running process.
abbrev pub Taken : Kernel → Option Envelope × Kernel → Type 0
Taken k (none, k') = (pending k k.pid ≡ []) × ((j : ℕ) → pending k' j ≡ pending k j)
Taken k (some e, k') =
    (q : List Envelope) × (pending k k.pid ≡ e ∷ q)
    × (pending k' k.pid ≡ q)
    × ((j : ℕ) → k.pid ≢ j → pending k' j ≡ pending k j)

pub taken : (k : Kernel) → IsSound k → Taken k (read_envelope k)
unfolding Queue.pop
taken k v = popped (pending k k.pid) (read_envelope k) refl (read_envelope_queues k v)
  where
    same :
        (j : ℕ) (q : List Envelope)
        → pending k k.pid ≡ q
        → (if k.pid == j then q else pending k j) ≡ pending k j
    same j q e = elim (Bool-cases (k.pid == j)) [
      | inl h ↦ rw h (sym e ∙ ap (pending k) ((==_iff k.pid j).0 h))
      | inr h ↦ rw h refl
    ]

    popped :
        (l : List Envelope) (t : Option Envelope × Kernel)
        → pending k k.pid ≡ l
        → ((t.0 ≡ (Queue.pop (pending k k.pid)).0)
            × ((j : ℕ)
                → pending t.1 j
                  ≡ (if k.pid == j then (Queue.pop (pending k k.pid)).1 else pending k j)))
        → Taken k t
    popped [] (some e, k') h (r, p) = cc
    popped [] (none, k') h (r, p) = (
      h,
      λ j. p j ∙ ap (λ l. if k.pid == j then (Queue.pop l).1 else pending k j) h ∙ same j [] h,
    )
    popped (x ∷ q) (none, k') h (r, p) = cc
    popped (x ∷ q) (some e, k') h (r, p) =
        (q, cc, p k.pid ∙ rw (h, (==_iff k.pid k.pid).1 refl) refl, λ j n. p j ∙ ground (arith, n))
