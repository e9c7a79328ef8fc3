-- ===== src/Proc.antt =====
-- The process table and the scheduler (sw/os/kernel.c, sw/os/kernel.h), over the memory pool and the
-- name registry. Of a process's flag word the two bits that are used are two Booleans.
pub mod Round
pub mod Schedule
pub mod Create
pub mod Isolation
pub mod Reach
pub mod Stale
mod Tests
use zeitlos.Prelude.{
  ℕ, zero, suc, ◌+◌, Bool, true, false, ◌&&◌, not, Option, none, some, List, [], ◌∷◌, ltb, leb,
  ◌==◌, if◌then◌else◌, get_or, set, replicate, add32, sub32,
}
use zeitlos.Mem.{Pool, alignment, align_up, k_mem_alloc, k_mem_free}
use zeitlos.Pidreg.{Registry, k_pidreg_release_all}
use zeitlos.Msg.{Rv, ok, fail}
use zeitlos.Zobj.{Tag, Obj}

-- `z_proc`.
pub record Proc : Type 0 where
  pub base : ℕ
  pub size : ℕ
  pub active : Bool
  pub die : Bool
  pub regs : List ℕ

abbrev pub procs_max : ℕ
procs_max = 16

-- A slot as it is cleared.
abbrev pub free_proc : Proc
free_proc = record { base = 0; size = 0; active = false; die = false; regs = [] }

-- The kernel's state. `stores` are the words written to physical memory, the latest first.
pub record System : Type 0 where
  pub pool : Pool
  pub registry : Registry
  pub procs : List Proc
  pub pid : ℕ
  pub ticks : ℕ
  pub mtu : ℕ
  pub stores : List (ℕ × ℕ)

abbrev pub proc_at : System → ℕ → Proc
proc_at s p = get_or s.procs p free_proc

abbrev pub put_proc : ℕ → Proc → System → System
put_proc p q s = record s { procs = set s.procs p q }

pub find_slot : ℕ → List Proc → Option ℕ
find_slot i [] = none
find_slot i (q ∷ qs) = if q.base == 0 then some i else find_slot (i + 1) qs

abbrev pub kernel_window : ℕ
kernel_window = 0x4000_0000

abbrev pub app_window : ℕ
app_window = 0x8000_0000

-- The registers of a new process: its program counter and its stack pointer.
pub first_regs : ℕ → ℕ → List ℕ
first_regs p mem_size =
    let pc = if p == 0 then kernel_window else app_window in
    let sp = if p == 0 then add32 kernel_window mem_size else sub32 (add32 app_window mem_size) 4 in
    set (set (replicate 32 0) 0 pc) 2 sp

-- The slot as `k_proc_create` fills it in. Its flags are not touched.
pub created : ℕ → ℕ → ℕ → Proc → Proc
created p mem mem_size q = record q { base = mem; size = mem_size; regs = first_regs p mem_size }

abbrev pub proc_size : ℕ → ℕ → ℕ
proc_size size stack_size = align_up (add32 size stack_size) alignment

-- The result is the new pid, and 0 for a failure.
pub k_proc_create : ℕ → ℕ → System → ℕ × System
k_proc_create size stack_size s =
    let mem_size = proc_size size stack_size in
    elim (find_slot 0 s.procs) [
      | none ↦ (0, s)
      | some p ↦
          let (r, pool) = k_mem_alloc mem_size s.pool in
          elim r [
            | none ↦ (0, record s { pool = pool })
            | some mem ↦
                let q = created p mem mem_size (proc_at s p) in
                let top = sub32 (add32 mem mem_size) 4 in
                let stores = if p == 0 then s.stores else (top, get_or q.regs 1 0) ∷ s.stores in
                (p, record s { pool = pool; procs = set s.procs p q; stores = stores })
          ]
    ]

pub k_proc_start : ℕ → System → System
k_proc_start p s = put_proc p (record (proc_at s p) { active = true }) s

pub k_proc_stop : ℕ → System → System
k_proc_stop p s = put_proc p (record (proc_at s p) { active = false }) s

pub k_proc_kill : ℕ → System → Rv × System
k_proc_kill p s =
    if leb procs_max p then (fail, s) else (ok, put_proc p (record (proc_at s p) { die = true }) s)

pub k_proc_kill_syscall : Option Obj → System → Rv × System
k_proc_kill_syscall none s = (fail, s)
k_proc_kill_syscall (some args) s = elim args.tag [
  | Tag.uint32 ↦ k_proc_kill args.val s
  | _ ↦ (fail, s)
]

pub k_proc_base : ℕ → System → ℕ
k_proc_base p s = (proc_at s p).base

pub count_active : List Proc → ℕ
count_active [] = 0
count_active (q ∷ qs) = (if q.active then 1 else 0) + count_active qs

-- A process that is to die gives its memory and its names back, and its slot is free.
pub reap : ℕ → System → System
reap p s =
    let q = proc_at s p in
    record s {
      pool = k_mem_free q.base s.pool;
      registry = k_pidreg_release_all p s.registry;
      procs = set s.procs p (record q { base = 0; active = false; die = false });
    }

abbrev pub next_pid : ℕ → ℕ
next_pid p = if leb procs_max (p + 1) then 0 else p + 1

-- The loop over `next_process`, on fuel: `none` means that it ran out.
pub next_process : ℕ → System → Option System
next_process zero s = none
next_process (suc fuel) s =
    let p = next_pid s.pid in
    let s' : System = record s { pid = p } in
    elim (proc_at s p).die [
      | true ↦ next_process fuel (reap p s')
      | false ↦ elim (proc_at s p).active [
        | false ↦ next_process fuel s'
        | true ↦ some (record s' { mtu = (proc_at s p).base })
      ]
    ]

-- One round over the table.
abbrev pub round : ℕ
round = 16

-- The timer's interrupt, in `z_kernel_entry`: the registers to go on with, and the state.
pub timer_irq : List ℕ → System → Option (List ℕ × System)
timer_irq regs s =
    let s' : System = record s { ticks = add32 s.ticks 1 } in
    if ltb (count_active s.procs) 2
    then some (regs, s')
    else (elim (next_process round (put_proc s.pid (record (proc_at s s.pid) { regs = regs }) s')) [
      | none ↦ none
      | some s'' ↦ some ((proc_at s'' s''.pid).regs, s'')
    ])

-- `z_exit` marks the running process; it waits to be reaped.
pub z_exit : System → System
z_exit s = (k_proc_kill s.pid s).1
