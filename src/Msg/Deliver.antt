-- ===== src/Msg/Deliver.antt =====
-- sw/os/msg.c: sending and receiving. Each process's mailbox is a queue of what was sent to it, with
-- the sender's pid from the kernel.
use zeitlos.Prelude.{
  ℕ, ◌<◌, ◌≡◌, refl, sym, ap, Bool, true, false, leb, ◌==◌, if◌then◌else◌, ◌||◌, ◌&&◌, none, some,
  List, [], ◌∷◌, arith, length, length-set, set, get_or-set, get_or, replicate, zero, suc, ◌∙◌,
  Bool-cases, Option-cases, inl, inr, ◌⊎◌, ==_iff,
}
use zeitlos.Msg.Queue
use zeitlos.Msg.{
  Envelope, ok, fail, Mailbox, empty_envelope, mailbox_depth, mailbox_push, mailbox_pop, Kernel,
  mailbox_of, base_of, procs_max, Request, stamped, k_msg_send, read_envelope, empty_mailbox,
}
use zeitlos.Msg.Ring.{
  IsValid, contents, zeroed-IsValid, mailbox_push_refines, mailbox_pop_refines,
  mailbox_push-IsValid, mailbox_pop-IsValid,
}

-- Every slot has a valid mailbox, and the running process has a slot.
pub record IsSound (k : Kernel) : Type 0 where
  pub slots : length k.mailboxes ≡ procs_max
  pub running : k.pid < procs_max
  pub boxes : (i : ℕ) → i < procs_max → IsValid (mailbox_of k i)

-- What waits for the process in slot `i`.
abbrev pub pending : Kernel → ℕ → List Envelope
pending k i = contents (mailbox_of k i)

-- Is there a process to send to?
abbrev pub reachable : Kernel → ℕ → Bool
reachable k to = if leb procs_max to || base_of k to == 0 then false else true

-- The mailbox of slot `j` once that of slot `i` has been written.
mailbox_of-set :
    (k : Kernel) (i j : ℕ) (m : Mailbox)
    → IsSound k
    → i < procs_max
    → mailbox_of (record k { mailboxes = set k.mailboxes i m }) j
      ≡ (if i == j then m else mailbox_of k j)
mailbox_of-set k i j m v h = get_or-set k.mailboxes i j m empty_mailbox (omega (arith, v.slots))

-- A valid mailbox put into a slot keeps the kernel sound.
set-IsSound :
    (k : Kernel) (i : ℕ) (m : Mailbox)
    → IsSound k
    → i < procs_max
    → IsValid m
    → IsSound (record k { mailboxes = set k.mailboxes i m })
set-IsSound k i m v h good = record {
  slots = length-set k.mailboxes i m ∙ v.slots;
  running = v.running;
  boxes = λ j hj. rw (mailbox_of-set k i j m v h) (either j hj);
}
  where
    either : (j : ℕ) → j < procs_max → IsValid (if i == j then m else mailbox_of k j)
    either j hj = elim (Bool-cases (i == j)) [ inl e ↦ rw e good | inr e ↦ rw e (v.boxes j hj) ]

-- The mailboxes as the kernel's cleared memory holds them.
abbrev pub clear_mailbox : Mailbox
clear_mailbox = record {
  msgs = replicate mailbox_depth empty_envelope;
  head = 0;
  tail = 0;
  count = 0;
}

clear_slots : (n i : ℕ) → i < n → IsValid (get_or (replicate n clear_mailbox) i empty_mailbox)
clear_slots zero i h = elim h [ ]
clear_slots (suc n) zero h = zeroed-IsValid (replicate mailbox_depth empty_envelope) refl
clear_slots (suc n) (suc i) h = clear_slots n i (omega (arith, h))

-- At boot every mailbox is empty, and the kernel sound.
pub cleared-IsSound :
    (bases : List ℕ)
    → IsSound (record { bases = bases; pid = 0; mailboxes = replicate procs_max clear_mailbox })
cleared-IsSound bases = record {
  slots = refl;
  running = omega arith;
  boxes = λ i h. clear_slots procs_max i h;
}

reachable-lt : (k : Kernel) (to : ℕ) → reachable k to ≡ true → to < procs_max
reachable-lt k to h = ground arith

-- The three ways a send ends.
pub send_cases :
    (msg : Request) (k : Kernel)
    → let p = mailbox_push (mailbox_of k msg.to) (stamped k msg) in
      ((reachable k msg.to ≡ false) × (k_msg_send msg k ≡ (fail, k)))
      ⊎ ((reachable k msg.to ≡ true) × (p.0 ≡ fail) × (k_msg_send msg k ≡ (fail, k)))
      ⊎ ((reachable k msg.to ≡ true)
          × (p.0 ≡ ok)
          × (k_msg_send msg k ≡ (ok, record k { mailboxes = set k.mailboxes msg.to p.1 })))
unfolding k_msg_send
send_cases msg k = ground arith

-- `k_msg_send` keeps every mailbox valid.
pub k_msg_send-IsSound : (msg : Request) (k : Kernel) → IsSound k → IsSound (k_msg_send msg k).1
k_msg_send-IsSound msg k v = elim (send_cases msg k) [
  | inl (_, e) ↦ rw e v
  | inr (inl (_, _, e)) ↦ rw e v
  | inr (inr (r, _, e)) ↦
      let h = reachable-lt k msg.to r in
      rw e (set-IsSound k msg.to _ v h (mailbox_push-IsValid _ (stamped k msg) (v.boxes msg.to h)))
]

-- What a write of the value that stands there already leaves.
if_same {ℓ} :
    {A : Type ℓ} (f : ℕ → A) (i j : ℕ) (x : A) → x ≡ f i → f j ≡ (if i == j then x else f j)
if_same f i j x h = elim (Bool-cases (i == j)) [
  | inl e ↦ rw (e, h) (ap f (sym ((==_iff i j).0 e)))
  | inr e ↦ rw e
]

contents_if :
    (b : Bool) (m n : Mailbox)
    → contents (if b then m else n) ≡ (if b then contents m else contents n)
contents_if true m n = refl
contents_if false m n = refl

-- The queue of slot `j` once the mailbox of slot `i` has been written.
pending-set :
    (k : Kernel) (i j : ℕ) (m : Mailbox) (q : List Envelope)
    → IsSound k
    → i < procs_max
    → contents m ≡ q
    → pending (record k { mailboxes = set k.mailboxes i m }) j ≡ (if i == j then q else pending k j)
pending-set k i j m q v h e =
    ap contents (mailbox_of-set k i j m v h)
    ∙ contents_if (i == j) m (mailbox_of k j)
    ∙ ap (λ c. if i == j then c else pending k j) e

full_push : (q : List Envelope) (x : Envelope) → (Queue.push q x).0 ≡ fail → (Queue.push q x).1 ≡ q
unfolding Queue.push
full_push q x h = ground arith

-- `k_msg_send` fails for a slot that is out of range or holds no process, and changes nothing; else
-- it returns the status of the queue's push, and the receiver's queue is what that push leaves, with
-- the running process as the sender. No other queue changes.
pub k_msg_send_queues :
    (msg : Request) (k : Kernel)
    → IsSound k
    → let (r, k') = k_msg_send msg k in
      let q = Queue.push (pending k msg.to) (stamped k msg) in
      (r ≡ (if reachable k msg.to then q.0 else fail))
      × ((j : ℕ) → pending k' j ≡ (if reachable k msg.to && msg.to == j then q.1 else pending k j))
k_msg_send_queues msg k v = elim (send_cases msg k) [
  | inl (n, e) ↦ rw (e, n) (refl, λ j. refl)
  | inr (inl (r, f, e)) ↦
      let push =
        mailbox_push_refines _ (stamped k msg) (v.boxes msg.to (reachable-lt k msg.to r)) in
      let f' : fail ≡ (Queue.push (pending k msg.to) (stamped k msg)).0 =
        sym f ∙ ap (λ t. t.0) push in
      rw (e, r)
        (
          f',
          λ j.
              if_same (pending k) msg.to j _
                (full_push (pending k msg.to) (stamped k msg) (sym f')),
        )
  | inr (inr (r, o, e)) ↦
      let h = reachable-lt k msg.to r in
      let push = mailbox_push_refines _ (stamped k msg) (v.boxes msg.to h) in
      rw (e, r)
        (sym o ∙ ap (λ t. t.0) push, λ j. pending-set k msg.to j _ _ v h (ap (λ t. t.1) push))
]

-- The two ways a read ends.
pub read_cases :
    (k : Kernel)
    → let p = mailbox_pop (mailbox_of k k.pid) in
      ((p.0 ≡ none) × (read_envelope k ≡ (none, k)))
      ⊎ ((env : Envelope) × (p.0 ≡ some env)
          × (read_envelope k ≡ (some env, record k { mailboxes = set k.mailboxes k.pid p.1 })))
unfolding read_envelope
read_cases k = elim (Option-cases (mailbox_pop (mailbox_of k k.pid)).0) [
  | inl e ↦ inl (e, rw (e, read_envelope) refl)
  | inr (env, e) ↦ inr (env, e, rw (e, read_envelope) refl)
]

-- Reading keeps every mailbox valid.
pub read_envelope-IsSound : (k : Kernel) → IsSound k → IsSound (read_envelope k).1
read_envelope-IsSound k v = elim (read_cases k) [
  | inl (_, e) ↦ rw e v
  | inr (env, _, e) ↦
      rw e (set-IsSound k k.pid _ v v.running (mailbox_pop-IsValid _ (v.boxes k.pid v.running)))
]

empty_pop : (q : List Envelope) → (Queue.pop q).0 ≡ none → (Queue.pop q).1 ≡ q
unfolding Queue.pop
empty_pop [] h = refl
empty_pop (x ∷ q) h = cc

-- A read returns the oldest envelope of the running process's queue, and takes it off that queue;
-- on an empty queue it fails. No other queue changes.
pub read_envelope_queues :
    (k : Kernel)
    → IsSound k
    → let (r, k') = read_envelope k in
      let q = Queue.pop (pending k k.pid) in
      (r ≡ q.0) × ((j : ℕ) → pending k' j ≡ (if k.pid == j then q.1 else pending k j))
read_envelope_queues k v =
    let pop = mailbox_pop_refines _ (v.boxes k.pid v.running) in
    elim (read_cases k) [
      | inl (n, e) ↦
          let n' : none ≡ (Queue.pop (pending k k.pid)).0 = sym n ∙ ap (λ t. t.0) pop in
          rw e (n', λ j. if_same (pending k) k.pid j _ (empty_pop (pending k k.pid) (sym n')))
      | inr (env, s, e) ↦ rw e (
        sym s ∙ ap (λ t. t.0) pop,
        λ j. pending-set k k.pid j _ _ v v.running (ap (λ t. t.1) pop),
      )
    ]

pub read_keeps :
    (k : Kernel) → ((read_envelope k).1.bases ≡ k.bases) × ((read_envelope k).1.pid ≡ k.pid)
read_keeps k = elim (read_cases k) [
  | inl (_, e) ↦ rw e (refl, refl)
  | inr (_, _, e) ↦ rw e (refl, refl)
]
