-- ===== src/Msg/Tests.antt =====
-- sw/os/msg.c: runs with two processes, and the theorems there.
use zeitlos.Prelude.{
  ◌+◌, ◌^◌, ◌≡◌, refl, false, List, [], ◌∷◌, arith, ◌==◌, if◌then◌else◌, replicate, sym, append-nil,
}
use zeitlos.Zobj.{Tag, Obj, z_obj_none}
use zeitlos.Msg.{Kernel, Request, k_msg_send, stamped, mailbox_push}
use zeitlos.Msg.Deliver.{IsSound, clear_mailbox, cleared-IsSound, k_msg_send-IsSound, pending}
use zeitlos.Msg.History.{Op, run, view, view_run, run_refines}
use zeitlos.Msg.Wait.{Turn, OnlySends, Found, z_msg_wait, z_msg_wait_finds}
use zeitlos.Msg.Resolve.{Memory, Places, Scratch, resolve_obj, depth}
use zeitlos.Msg.Resolve.Fuel.{resolve_obj_ends}
use zeitlos.Msg.Resolve.Budget.{Modest}

-- The shell, which runs, and one application.
abbrev two_processes : Kernel
two_processes = record {
  bases = 0x4000_0000 ∷ 0x4001_0000 ∷ replicate 14 0;
  pid = 0;
  mailboxes = replicate 16 clear_mailbox;
}

abbrev greeting : Request
greeting = record { to = 1; subject = 7; tag = 1; obj = z_obj_none }

abbrev stranger : Request
stranger = record { to = 9; subject = 7; tag = 1; obj = z_obj_none }

-- A message is read by the process that it is for, a message to a free slot is refused, and a second read
-- finds nothing.
abbrev exchange : List Op
exchange = Op.send greeting ∷ Op.send stranger ∷ Op.switch 1 ∷ Op.read ∷ Op.read ∷ []

two-IsSound : IsSound two_processes
two-IsSound = cleared-IsSound two_processes.bases

run_refines_example : run two_processes exchange ≡ view_run (view two_processes) exchange
run_refines_example =
    run_refines exchange two_processes two-IsSound (tt, (tt, (omega arith, (tt, (tt, tt)))))

greeted : Kernel
greeted = (k_msg_send greeting two_processes).1

greeted-IsSound : IsSound greeted
unfolding greeted
greeted-IsSound = k_msg_send-IsSound greeting two_processes two-IsSound

-- The application's memory: one list of two numbers.
abbrev a_list : Memory
a_list = record {
  table = λ p.
      if p == 0x4001_0100
      then record { len = 2; a = 0x8000_0200; b = 0 }
      else record { len = 0; a = 0; b = 0 };
  blob = λ p. record { len = 0; bytes = 0 };
  obj = λ p. record { tag = Tag.uint32; val = p };
}

abbrev places : Places
places = record { tables_at = 0x8000_1000; items_at = 0x8000_1030; blobs_at = 0x8000_10b0 }

abbrev scratch : Scratch
scratch = record {
  tables = replicate 4 (record { len = 0; a = 0; b = 0 });
  items = replicate 16 z_obj_none;
  blobs = replicate 2 (record { len = 0; bytes = 0 });
  tcount = 0;
  icount = 0;
  bcount = 0;
  overrun = false;
}

abbrev list_obj : Obj
list_obj = record { tag = Tag.list; val = 0x8000_0100 }

a_list-Modest : Modest a_list
a_list-Modest p = ground arith

resolve_obj_ends_example :
    resolve_obj a_list places two_processes 1 (depth + 3) list_obj scratch
    ≡ resolve_obj a_list places two_processes 1 depth list_obj scratch
resolve_obj_ends_example = resolve_obj_ends a_list places two_processes 1 3 list_obj scratch

-- A map of 2^31 entries, all of them empty.
abbrev a_huge_map : Memory
a_huge_map = record {
  table = λ p. record { len = 2 ^ 31; a = 0x8000_0200; b = 0x8000_0200 };
  blob = λ p. record { len = 0; bytes = 0 };
  obj = λ p. z_obj_none;
}

abbrev map_obj : Obj
map_obj = record { tag = Tag.map; val = 0x8000_0100 }

-- The application waits for the shell's greeting, and another message stands before it.
abbrev note : Request
note = record { to = 1; subject = 9; tag = 0; obj = z_obj_none }

noted : Kernel
noted = (k_msg_send note two_processes).1

noted-IsSound : IsSound noted
unfolding noted
noted-IsSound = k_msg_send-IsSound note two_processes two-IsSound

both : Kernel
both = record (k_msg_send greeting noted).1 { pid = 1 }

both-IsSound : IsSound both
unfolding both
both-IsSound =
    let v = k_msg_send-IsSound greeting noted noted-IsSound in
    record { slots = v.slots; running = omega arith; boxes = v.boxes }

both_wait : pending both both.pid ≡ stamped two_processes note ∷ stamped two_processes greeting ∷ []
unfolding both noted k_msg_send mailbox_push
both_wait = refl

abbrev quiet : Turn
quiet = record { clock = 0; others = λ k. k; memory = a_list }

quiet-OnlySends : OnlySends quiet
quiet-OnlySends k v = (v, refl, ([], sym (append-nil (pending k k.pid))))

z_msg_wait_finds_example :
    Found
      (stamped two_processes greeting)
      []
      both.pid
      (z_msg_wait places 7 1 (quiet ∷ quiet ∷ []) scratch both)
z_msg_wait_finds_example =
    z_msg_wait_finds places 7 1 (stamped two_processes greeting) refl
      (stamped two_processes note ∷ []) [] (quiet ∷ quiet ∷ []) scratch both both-IsSound both_wait
      (refl, tt) (quiet-OnlySends, (quiet-OnlySends, tt)) (omega arith)
