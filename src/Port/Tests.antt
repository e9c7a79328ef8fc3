-- ===== src/Port/Tests.antt =====
-- sw/common/zport.c: a connection between two processes, and the theorems there.
use zeitlos.Prelude.{ℕ, ◌≡◌, refl, true, List, [], ◌∷◌, ◌++◌, arith, replicate, All, some}
use zeitlos.Zobj.{Tag, Obj, z_obj_none}
use zeitlos.Msg.{
  z_msg_new_send, Envelope, empty_envelope, Rv, fail, Kernel, k_msg_send, read_envelope,
  mailbox_push, mailbox_pop,
}
use zeitlos.Msg.Deliver.{pending, clear_mailbox, cleared-IsSound}
use zeitlos.Port.{
  Port, Turn, push, release, send_ack, z_port_send, z_port_handle_ack, z_port_send_ack,
  z_port_connect_arg_timeout, connect_timeout_ticks,
}
use zeitlos.Port.Wire.{World, Act, give, hear, listen, answer, other, unread, step, run}
use zeitlos.Port.Safety.{unread_not_freed}
use zeitlos.Port.Limits.{Call, send, close, accept, others, statuses, full_port_is_mute, waits_end}

-- The provider has the pid 1, and its client 2.
abbrev three_processes : Kernel
three_processes = record {
  bases = 0x4000_0000 ∷ 0x4001_0000 ∷ 0x4002_0000 ∷ replicate 13 0;
  pid = 0;
  mailboxes = replicate 16 clear_mailbox;
}

abbrev open_port : Port
open_port = record {
  peer_pid = 2;
  conn_id = 5;
  connected = true;
  pending = replicate 8 0;
  pending_head = 0;
  pending_count = 0;
}

abbrev opened : World
opened = record { port = open_port; kernel = three_processes; owed = []; given = []; released = [] }

abbrev blob_at : ℕ → Obj
blob_at a = record { tag = Tag.blob; val = a }

-- Two sends, of which the first is read, acknowledged and freed before the second is read.
abbrev acts : List Act
acts =
    give (blob_at 100)
    ∷ give (blob_at 200)
    ∷ listen
    ∷ other 0 (record { to = 1; subject = 7; tag = 0; obj = z_obj_none })
    ∷ answer
    ∷ hear
    ∷ hear
    ∷ []

first_freed :
    let u = run 1 2 acts opened in
    (u.given ≡ 100 ∷ 200 ∷ []) × (u.released ≡ 100 ∷ []) × (unread (pending u.kernel 2) ≡ 200 ∷ [])
unfolding run step z_msg_new_send push release send_ack z_port_send z_port_handle_ack k_msg_send
    read_envelope mailbox_push mailbox_pop
first_freed = (refl, refl, refl)

unread_not_freed_example :
    let u = run 1 2 acts opened in
    (between : List ℕ) × (u.given ≡ u.released ++ (between ++ unread (pending u.kernel 2)))
unread_not_freed_example =
    unread_not_freed 1 2 (omega arith) (omega arith) (λ e. omega (arith, e)) acts opened
      (cleared-IsSound three_processes.bases)
      (record { sized = refl; head_in = omega arith; counted = omega arith }) refl refl refl refl
      refl refl refl refl
      (
        tt,
        (
          tt,
          (
            tt,
            ((omega arith, (λ e. omega (arith, e)), (λ e. omega (arith, e))), (tt, (tt, (tt, tt)))),
          ),
        ),
      )

-- The first client has gone without an acknowledgment, and a second connects.
abbrev second_client : Envelope
second_client = record empty_envelope { to = 1; from = 3; subject = 120 }

abbrev calls : List Call
calls = close ∷ accept second_client 5 ∷ others (λ k. k) ∷ send (blob_at 300) ∷ []

full_port_is_mute_example :
    All (λ r. r ≡ fail) (statuses calls (record open_port { pending_count = 8 }) three_processes)
full_port_is_mute_example =
    full_port_is_mute calls (record open_port { pending_count = 8 }) three_processes (omega arith)

abbrev late : List Turn
late = record { clock = 1000; others = λ k. k } ∷ record { clock = 3000; others = λ k. k } ∷ []

abbrev data_message : Envelope
data_message = record empty_envelope { from = 9; subject = 123; tag = 5; obj = blob_at 100 }

waits_end_example :
    ((s : Rv × Kernel) × (z_port_send_ack 900 late data_message three_processes ≡ some s))
    × ((s : Rv × Port × Kernel) × (z_port_connect_arg_timeout 900 1 z_obj_none connect_timeout_ticks
            late open_port three_processes
          ≡ some s))
waits_end_example =
    waits_end 900 connect_timeout_ticks 1 z_obj_none late late data_message open_port
      three_processes refl refl
