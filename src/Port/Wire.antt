-- ===== src/Port/Wire.antt =====
-- sw/common/zport.c over sw/os/msg.c: a connection's two ends, with a mailbox between them in each
-- direction. What has not been read has not been freed.
use zeitlos.Prelude.{
  ℕ, suc, ◌+◌, ◌<◌, ◌≡◌, ◌≢◌, refl, Option, none, some, List, [], ◌∷◌, ◌++◌, arith, ◌==◌,
  if◌then◌else◌,
}
use zeitlos.Zobj.{Obj}
use zeitlos.Msg.{Envelope, ok, fail, Kernel, procs_max, Request, k_msg_send, read_envelope}
use zeitlos.Port.{port_data, port_data_ack, Port, Outcome, send_ack, z_port_send, z_port_handle_ack}

-- The headers of the data that waits in a mailbox, oldest first.
abbrev pub unread : List Envelope → List ℕ
unread [] = []
unread (e ∷ es) = if e.subject == port_data then e.obj.val ∷ unread es else unread es

abbrev pub acks : List Envelope → ℕ
acks [] = 0
acks (e ∷ es) = if e.subject == port_data_ack then suc (acks es) else acks es

pub unread-append : (xs ys : List Envelope) → unread (xs ++ ys) ≡ unread xs ++ unread ys
unread-append [] ys = refl
unread-append (e ∷ xs) ys = ground (arith, unread-append xs ys)

pub acks-append : (xs ys : List Envelope) → acks (xs ++ ys) ≡ acks xs + acks ys
acks-append [] ys = omega arith
acks-append (e ∷ xs) ys = ground (arith, acks-append xs ys)

-- The two ends: the sender's port, the messages that the receiver has read and still has to
-- acknowledge, and the headers that were sent, and that acknowledgments freed, in order.
pub record World : Type 0 where
  pub port : Port
  pub kernel : Kernel
  pub owed : List Envelope
  pub given : List ℕ
  pub released : List ℕ

-- What happens next: the sender sends, or reads a message; the receiver reads one, attempts to
-- acknowledge the oldest that it owes, or gives up on it; or any process sends something else.
pub data Act : Type 0 where
  give : Obj → Act
  hear : Act
  listen : Act
  answer : Act
  give_up : Act
  other : ℕ → Request → Act

abbrev pub running : ℕ → Kernel → Kernel
running pid k = record k { pid = pid }

abbrev pub sent_on : Obj → Outcome → World → World
sent_on obj o w = record w {
  port = o.port;
  kernel = o.kernel;
  given = elim o.status [ ok ↦ w.given ++ (obj.val ∷ []) | fail ↦ w.given ];
}

abbrev pub heard : Envelope → World → World
heard msg w =
    if msg.subject == port_data_ack
    then (let (freed, p) = z_port_handle_ack msg w.port in
        record w { port = p; released = w.released ++ freed })
    else w

abbrev pub listened : Envelope → World → World
listened msg w = if msg.subject == port_data then record w { owed = w.owed ++ (msg ∷ []) } else w

abbrev pub after_read : (Envelope → World → World) → Option Envelope × Kernel → World → World
after_read f (none, k) w = record w { kernel = k }
after_read f (some msg, k) w = f msg (record w { kernel = k })

abbrev pub answered : ℕ → List Envelope → World → World
answered b [] w = w
answered b (msg ∷ owed) w =
    let (r, k) = send_ack msg (running b w.kernel) in
    record w { kernel = k; owed = elim r [ ok ↦ owed | fail ↦ msg ∷ owed ] }

abbrev pub dropped : List Envelope → List Envelope
dropped [] = []
dropped (msg ∷ owed) = owed

-- The sender has the pid `a`, and the receiver `b`.
module _ (a b : ℕ) where
  unfoldable pub step : Act → World → World
  step (give obj) w = sent_on obj (z_port_send obj w.port (running a w.kernel)) w
  step hear w = after_read heard (read_envelope (running a w.kernel)) w
  step listen w = after_read listened (read_envelope (running b w.kernel)) w
  step answer w = answered b w.owed w
  step give_up w = record w { owed = dropped w.owed }
  step (other pid msg) w = record w { kernel = (k_msg_send msg (running pid w.kernel)).1 }

  unfoldable pub run : List Act → World → World
  run [] w = w
  run (x ∷ xs) w = run xs (step x w)

-- Others leave the connection's subjects alone.
abbrev pub IsForeign : Act → Type 0
IsForeign (other pid msg) =
    (pid < procs_max) × (msg.subject ≢ port_data) × (msg.subject ≢ port_data_ack)
IsForeign _ = Unit {0}
