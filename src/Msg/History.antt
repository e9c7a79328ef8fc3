-- ===== src/Msg/History.antt =====
-- sw/os/msg.c: any history of sends, reads and process switches.
use zeitlos.Prelude.{
  ℕ, ◌<◌, ◌≡◌, ◌∙◌, refl, ap, ap₂, ◌==◌, if◌then◌else◌, ◌&&◌, Option, List, [], ◌∷◌, All, Bool,
  true, false, leb, ◌||◌, get_or, inl, inr,
}
use mathlib.Core.Path.{fun_ext}
use zeitlos.Msg.Queue
use zeitlos.Msg.{Envelope, Rv, fail, Kernel, procs_max, Request, k_msg_send, read_envelope}
use zeitlos.Msg.Deliver.{
  IsSound, pending, send_cases, k_msg_send-IsSound, read_envelope-IsSound, k_msg_send_queues,
  read_envelope_queues, read_keeps,
}

-- A call of the running process, or the scheduler's switch to another.
pub data Op : Type 0 where
  switch : ℕ → Op
  send : Request → Op
  read : Op

pub data Reply : Type 0 where
  quiet : Reply
  status : Rv → Reply
  got : Option Envelope → Reply

-- The scheduler switches to slots of the table only.
abbrev pub Allowed : Op → Type 0
Allowed (switch p) = p < procs_max
Allowed (send msg) = Unit {0}
Allowed read = Unit {0}

pub step : Kernel → Op → Reply × Kernel
step k (switch p) = (quiet, record k { pid = p })
step k (send msg) = let (r, k') = k_msg_send msg k in (status r, k')
step k read = let (r, k') = read_envelope k in (got r, k')

pub run : Kernel → List Op → List Reply
run k [] = []
run k (op ∷ ops) = let (r, k') = step k op in r ∷ run k' ops

-- The specification: the process table, and a bounded queue for each slot.
pub record View : Type 0 where
  pub bases : List ℕ
  pub pid : ℕ
  pub queues : ℕ → List Envelope

abbrev pub view : Kernel → View
view k = record { bases = k.bases; pid = k.pid; queues = pending k }

abbrev pub view_stamped : View → Request → Envelope
view_stamped v msg = record {
  to = msg.to;
  from = v.pid;
  subject = msg.subject;
  tag = msg.tag;
  obj = msg.obj;
}

abbrev pub view_reachable : View → ℕ → Bool
view_reachable v to = if leb procs_max to || get_or v.bases to 0 == 0 then false else true

pub view_step : View → Op → Reply × View
view_step v (switch p) = (quiet, record { bases = v.bases; pid = p; queues = v.queues })
view_step v (send msg) =
    let q = Queue.push (v.queues msg.to) (view_stamped v msg) in
    (
      status (if view_reachable v msg.to then q.0 else fail),
      record {
        bases = v.bases;
        pid = v.pid;
        queues = λ j. if view_reachable v msg.to && msg.to == j then q.1 else v.queues j;
      },
    )
view_step v read =
    let q = Queue.pop (v.queues v.pid) in
    (
      got q.0,
      record { bases = v.bases; pid = v.pid; queues = λ j. if v.pid == j then q.1 else v.queues j },
    )

pub view_run : View → List Op → List Reply
view_run v [] = []
view_run v (op ∷ ops) = let (r, v') = view_step v op in r ∷ view_run v' ops

-- The calls leave the process table and the running process alone.
send_keeps :
    (msg : Request) (k : Kernel)
    → ((k_msg_send msg k).1.bases ≡ k.bases) × ((k_msg_send msg k).1.pid ≡ k.pid)
send_keeps msg k = elim (send_cases msg k) [
  | inl (_, e) ↦ rw e (refl, refl)
  | inr (inl (_, _, e)) ↦ rw e (refl, refl)
  | inr (inr (_, _, e)) ↦ rw e (refl, refl)
]

view_path : (v w : View) → v.bases ≡ w.bases → v.pid ≡ w.pid → v.queues ≡ w.queues → v ≡ w
view_path v w p q r = λ i. record { bases = p i; pid = q i; queues = r i }

step_refines :
    (k : Kernel) (op : Op)
    → IsSound k
    → let (r, k') = step k op in (r, view k') ≡ view_step (view k) op
unfolding step view_step
step_refines k (switch p) v = refl
step_refines k (send msg) v =
    let q = k_msg_send_queues msg k v in
    let keep = send_keeps msg k in
    ap₂ (λ (r : Reply) (w : View). (r, w)) (ap status q.0)
      (view_path _ _ keep.0 keep.1 (fun_ext q.1))
step_refines k read v =
    let q = read_envelope_queues k v in
    let keep = read_keeps k in
    ap₂ (λ (r : Reply) (w : View). (r, w)) (ap got q.0) (view_path _ _ keep.0 keep.1 (fun_ext q.1))

pub step-IsSound : (k : Kernel) (op : Op) → Allowed op → IsSound k → IsSound (step k op).1
unfolding step
step-IsSound k (switch p) a v = record { slots = v.slots; running = a; boxes = v.boxes }
step-IsSound k (send msg) a v = k_msg_send-IsSound msg k v
step-IsSound k read a v = read_envelope-IsSound k v

-- Whatever the processes send and read, and however the scheduler switches between them, the replies
-- are those of one bounded queue for each process, in which each envelope has its sender's pid.
pub run_refines :
    (ops : List Op) (k : Kernel) → IsSound k → All Allowed ops → run k ops ≡ view_run (view k) ops
unfolding run view_run
run_refines [] k v a = refl
run_refines (op ∷ ops) k v a =
    let s = step_refines k op v in
    ap₂ ◌∷◌ (ap (λ t. t.0) s)
      (run_refines ops (step k op).1 (step-IsSound k op a.0 v) a.1 ∙ ap (λ t. view_run t.1 ops) s)
