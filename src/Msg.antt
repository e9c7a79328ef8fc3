-- ===== src/Msg.antt =====
-- Messages between processes (sw/os/msg.c, sw/common/zmsg.h, the object header of
-- sw/common/zobj.h): the mailboxes, the two system calls, and the translation of the pointers that a
-- payload holds from the sender's address space.
pub mod Queue
pub mod Ring
pub mod Deliver
pub mod Ends
pub mod History
pub mod Resolve
pub mod Wait
mod Tests
use zeitlos.Prelude.{
  ℕ, zero, suc, ◌+◌, ◌%◌, Bool, true, false, ◌||◌, Option, none, some, List, [], ltb, leb, ◌==◌,
  if◌then◌else◌, get_or, set, add32, sub32,
}
use zeitlos.Zobj.{Obj, z_obj_none}

-- `z_msg_envelope_t`.
pub record Envelope : Type 0 where
  pub to : ℕ
  pub from : ℕ
  pub subject : ℕ
  pub tag : ℕ
  pub obj : Obj

abbrev pub empty_envelope : Envelope
empty_envelope = record { to = 0; from = 0; subject = 0; tag = 0; obj = z_obj_none }

-- `z_rv`.
pub data Rv : Type 0 where
  ok fail : Rv

abbrev pub mailbox_depth : ℕ
mailbox_depth = 32

-- `z_mailbox_t`.
pub record Mailbox : Type 0 where
  pub msgs : List Envelope
  pub head : ℕ
  pub tail : ℕ
  pub count : ℕ

pub mailbox_is_empty : Mailbox → Bool
mailbox_is_empty m = m.count == 0

pub mailbox_is_full : Mailbox → Bool
mailbox_is_full m = leb mailbox_depth m.count

-- The interrupts are masked from the first line to the last: a push is one step.
unfoldable pub mailbox_push : Mailbox → Envelope → Rv × Mailbox
mailbox_push m msg = if leb mailbox_depth m.count then (fail, m) else (
  ok,
  record m {
    msgs = set m.msgs m.tail msg;
    tail = add32 m.tail 1 % mailbox_depth;
    count = add32 m.count 1;
  },
)

unfoldable pub mailbox_pop : Mailbox → Option Envelope × Mailbox
mailbox_pop m = if m.count == 0 then (none, m) else (
  some (get_or m.msgs m.head empty_envelope),
  record m { head = add32 m.head 1 % mailbox_depth; count = sub32 m.count 1 },
)

abbrev pub procs_max : ℕ
procs_max = 16

-- What of the kernel's state the handlers touch: the base of each process slot (0 for a free one),
-- the running process, and the mailbox of each slot.
pub record Kernel : Type 0 where
  pub bases : List ℕ
  pub pid : ℕ
  pub mailboxes : List Mailbox

abbrev pub empty_mailbox : Mailbox
empty_mailbox = record { msgs = []; head = 0; tail = 0; count = 0 }

abbrev pub mailbox_of : Kernel → ℕ → Mailbox
mailbox_of k pid = get_or k.mailboxes pid empty_mailbox

abbrev pub base_of : Kernel → ℕ → ℕ
base_of k pid = get_or k.bases pid 0

-- What a sender fills in of a `z_msg_t`; the kernel stamps `from`.
pub record Request : Type 0 where
  pub to : ℕ
  pub subject : ℕ
  pub tag : ℕ
  pub obj : Obj

abbrev pub stamped : Kernel → Request → Envelope
stamped k msg = record {
  to = msg.to;
  from = k.pid;
  subject = msg.subject;
  tag = msg.tag;
  obj = msg.obj;
}

unfoldable pub k_msg_send : Request → Kernel → Rv × Kernel
k_msg_send msg k =
    if leb procs_max msg.to || base_of k msg.to == 0
    then (fail, k)
    else (let (r, m) = mailbox_push (mailbox_of k msg.to) (stamped k msg) in
        elim r [ fail ↦ (fail, k) | ok ↦ (ok, record k { mailboxes = set k.mailboxes msg.to m }) ])

-- The reading half of `k_msg_read`: the envelope of the calling process's mailbox.
unfoldable pub read_envelope : Kernel → Option Envelope × Kernel
read_envelope k =
    let (r, m) = mailbox_pop (mailbox_of k k.pid) in
    elim r [
      | none ↦ (none, k)
      | some env ↦ (some env, record k { mailboxes = set k.mailboxes k.pid m })
    ]

-- `z_translate`. NULL is 0.
pub translate : Kernel → ℕ → ℕ → ℕ
translate k pid vptr =
    if vptr == 0
    then 0
    else if pid == 0
    then vptr
    else add32 (sub32 vptr 0x8000_0000) (base_of k pid)

unfoldable pub z_msg_new_send : ℕ → ℕ → ℕ → Obj → Kernel → Rv × Kernel
z_msg_new_send to subject tag obj k =
    k_msg_send (record { to = to; subject = subject; tag = tag; obj = obj }) k
