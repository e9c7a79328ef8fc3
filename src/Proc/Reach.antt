-- ===== src/Proc/Reach.antt =====
-- sw/os/kernel.c: the states that the kernel reaches from boot by its operations on processes and by
-- the timer's interrupt.
use zeitlos.Prelude.{
  ℕ, zero, suc, ◌+◌, ◌≤◌, ◌<◌, ◌≡◌, ◌≢◌, ◌∙◌, refl, sym, ap, subst, true, false, none, some, List,
  [], arith, length, length-set, get_or, get_or-set, replicate, ltb, leb, Bool-cases, Option-cases,
  inl, inr, ◌⊎◌, add32,
}
use zeitlos.Mem.{mem_base, k_mem_init}
use zeitlos.Mem.Layout.{mirror}
use zeitlos.Mem.Valid.{k_mem_init-IsValid}
use zeitlos.Pidreg.{Registry}
use zeitlos.Proc.{
  Proc, System, procs_max, free_proc, proc_at, put_proc, k_proc_create, k_proc_start, k_proc_stop,
  k_proc_kill, next_process, round, timer_irq, count_active,
}
use zeitlos.Proc.Schedule.{some_inj, next_process_switches, next_process-Switched}
use zeitlos.Proc.Round.{Switched, Runnable, IsTable}
use zeitlos.Proc.Create.{k_proc_create_cases}
use zeitlos.Proc.Isolation.{
  IsIsolated, IsIsolated-apart, k_proc_create-IsIsolated, next_process-IsIsolated,
  put_proc-IsIsolated,
}

-- What `main` sets up before it creates process 0: the pool, the cleared table, and the registry.
abbrev pub booted : ℕ → Registry → System
booted total r = record {
  pool = k_mem_init total;
  registry = r;
  procs = replicate 16 free_proc;
  pid = 0;
  ticks = 0;
  mtu = 0;
  stores = [];
}

-- One operation. A pid that `k_proc_start` and `k_proc_stop` are given is one of the table.
pub data Step (s : System) : System → Type 0 where
  create : (size stack : ℕ) → Step s (k_proc_create size stack s).1
  start : (p : ℕ) → p < procs_max → Step s (k_proc_start p s)
  stop : (p : ℕ) → p < procs_max → Step s (k_proc_stop p s)
  kill : (p : ℕ) → Step s (k_proc_kill p s).1
  timer : (regs regs' : List ℕ) (s' : System) → timer_irq regs s ≡ some (regs', s') → Step s s'

pub data Reachable (s : System) : System → Type 0 where
  here : Reachable s s
  after : (t u : System) → Reachable s t → Step t u → Reachable s u

-- The invariant of the kernel's table.
pub record IsSound (total : ℕ) (s : System) : Type 0 where
  pub table : IsTable s
  pub isolated : IsIsolated total s

clear_slots : (n j : ℕ) → get_or (replicate n free_proc) j free_proc ≡ free_proc
clear_slots zero j = refl
clear_slots (suc n) zero = refl
clear_slots (suc n) (suc j) = clear_slots n j

pub booted-IsSound :
    (total : ℕ) (r : Registry)
    → 0 < total
    → mem_base + total ≤ mirror
    → IsSound total (booted total r)
booted-IsSound total r pos le =
    let clear : (j : ℕ) → (proc_at (booted total r) j).base ≡ 0 =
      λ j. ap (λ q. q.base) (clear_slots 16 j) in
    record {
      table = record { slots = refl; running = omega arith };
      isolated = record {
        pool = k_mem_init-IsValid total pos le;
        owned = λ j h. elim (h (clear j)) [ ];
        distinct = λ j k ne h. elim (h (clear j)) [ ];
      };
    }

put_proc-IsSound :
    (total p : ℕ) (q : Proc) (s : System)
    → p < procs_max
    → q.base ≡ (proc_at s p).base
    → q.size ≡ (proc_at s p).size
    → IsSound total s
    → IsSound total (put_proc p q s)
put_proc-IsSound total p q s h b z v = record {
  table = record { slots = length-set s.procs p q ∙ v.table.slots; running = v.table.running };
  isolated = put_proc-IsIsolated total p q s (omega (arith, v.table.slots)) b z v.isolated;
}

k_proc_kill-IsSound :
    (total p : ℕ) (s : System) → IsSound total s → IsSound total (k_proc_kill p s).1
unfolding k_proc_kill
k_proc_kill-IsSound total p s v = elim (Bool-cases (leb procs_max p)) [
  | inl e ↦ rw e v
  | inr e ↦ rw e (put_proc-IsSound total p _ s (ground (arith, e)) refl refl v)
]

create-IsTable : (size stack : ℕ) (s : System) → IsTable s → IsTable (k_proc_create size stack s).1
create-IsTable size stack s v = elim (k_proc_create_cases size stack s) [
  | inl m ↦ record { slots = m.slots ∙ v.slots; running = rw (m.pid) (v.running) }
  | inr (_, r) ↦ record { slots = ap length r.procs ∙ v.slots; running = rw (r.pid) (v.running) }
]

-- The state in which the handler looks for the next process.
abbrev pub saved : List ℕ → System → System
saved regs s =
    put_proc s.pid (record (proc_at s s.pid) { regs = regs }) (record s { ticks = add32 s.ticks 1 })

saved-IsSound :
    (total : ℕ) (regs : List ℕ) (s : System) → IsSound total s → IsSound total (saved regs s)
saved-IsSound total regs s v =
    put_proc-IsSound total s.pid (record (proc_at s s.pid) { regs = regs })
      (record s { ticks = add32 s.ticks 1 }) v.table.running refl refl
      (record {
        table = record { slots = v.table.slots; running = v.table.running };
        isolated = record {
          pool = v.isolated.pool;
          owned = v.isolated.owned;
          distinct = v.isolated.distinct;
        };
      })

timer_few :
    (regs : List ℕ) (s : System)
    → ltb (count_active s.procs) 2 ≡ true
    → timer_irq regs s ≡ some (regs, record s { ticks = add32 s.ticks 1 })
unfolding timer_irq
timer_few regs s e = rw (e, timer_irq) refl

timer_none :
    (regs : List ℕ) (s : System)
    → ltb (count_active s.procs) 2 ≡ false
    → next_process round (saved regs s) ≡ none
    → timer_irq regs s ≡ none
unfolding timer_irq
timer_none regs s e n = rw (e, n, timer_irq) refl

pub timer_some :
    (regs : List ℕ) (s s' : System)
    → ltb (count_active s.procs) 2 ≡ false
    → next_process round (saved regs s) ≡ some s'
    → timer_irq regs s ≡ some ((proc_at s' s'.pid).regs, s')
unfolding timer_irq
timer_some regs s s' e n = rw (e, n, timer_irq) refl

timer-IsSound :
    (total : ℕ) (regs regs' : List ℕ) (s s' : System)
    → IsSound total s
    → timer_irq regs s ≡ some (regs', s')
    → IsSound total s'
timer-IsSound total regs regs' s s' v e = elim (Bool-cases (ltb (count_active s.procs) 2)) [
  | inl few ↦
      let same = ap (λ x. x.1) (some_inj (sym (timer_few regs s few) ∙ e)) in
      subst (IsSound total) same (record {
        table = record { slots = v.table.slots; running = v.table.running };
        isolated = record {
          pool = v.isolated.pool;
          owned = v.isolated.owned;
          distinct = v.isolated.distinct;
        };
      })
  | inr many ↦
      let w = saved-IsSound total regs s v in
      elim (Option-cases (next_process round (saved regs s))) [
        | inl z ↦ cc (timer_none regs s many z)
        | inr (t, z) ↦
            let same = ap (λ x. x.1) (some_inj (sym (timer_some regs s t many z) ∙ e)) in
            subst (IsSound total) same (record {
              table = (next_process-Switched round (saved regs s) t w.table z).table;
              isolated = next_process-IsIsolated total round (saved regs s) t w.table w.isolated z;
            })
      ]
]

-- Every step keeps the invariant.
pub Step-IsSound : (total : ℕ) (s s' : System) → IsSound total s → Step s s' → IsSound total s'
unfolding k_proc_start k_proc_stop
Step-IsSound total s s' v (create size stack) = record {
  table = create-IsTable size stack s v.table;
  isolated = k_proc_create-IsIsolated total size stack s v.isolated;
}
Step-IsSound total s s' v (start p h) = put_proc-IsSound total p _ s h refl refl v
Step-IsSound total s s' v (stop p h) = put_proc-IsSound total p _ s h refl refl v
Step-IsSound total s s' v (kill p) = k_proc_kill-IsSound total p s v
Step-IsSound total s s' v (timer regs regs' _ e) = timer-IsSound total regs regs' s _ v e

pub Reachable-IsSound :
    (total : ℕ) (s s' : System) → IsSound total s → Reachable s s' → IsSound total s'
Reachable-IsSound total s s' v here = v
Reachable-IsSound total s s' v (after t _ r step) =
    Step-IsSound total t _ (Reachable-IsSound total s t v r) step

-- In every state that the kernel reaches from boot, two processes share no byte of memory, and each
-- lies in the pool.
pub processes_apart :
    (total j k : ℕ) (r : Registry) (s : System)
    → 0 < total
    → mem_base + total ≤ mirror
    → Reachable (booted total r) s
    → j ≢ k
    → (proc_at s j).base ≢ 0
    → (proc_at s k).base ≢ 0
    → (mem_base ≤ (proc_at s j).base)
      × ((proc_at s j).base + (proc_at s j).size ≤ mem_base + total)
      × (((proc_at s j).base + (proc_at s j).size ≤ (proc_at s k).base)
          ⊎ ((proc_at s k).base + (proc_at s k).size ≤ (proc_at s j).base))
processes_apart total j k r s pos le path =
    IsIsolated-apart total j k s
      (Reachable-IsSound total (booted total r) s (booted-IsSound total r pos le) path).isolated

-- A timer interrupt, with two active processes and one that is runnable, returns the registers of the
-- process that the round robin names.
pub timer_irq_switches :
    (regs : List ℕ) (s : System) (q : ℕ)
    → IsTable s
    → 2 ≤ count_active s.procs
    → q < procs_max
    → Runnable s q
    → (s' : System) × ((timer_irq regs s ≡ some ((proc_at s' s'.pid).regs, s'))
        × Switched (saved regs s) s')
timer_irq_switches regs s q v many hq run =
    let w : IsTable (saved regs s) = record {
      slots = length-set s.procs s.pid _ ∙ v.slots;
      running = v.running;
    } in
    let at_q =
      get_or-set s.procs s.pid q (record (proc_at s s.pid) { regs = regs }) free_proc
        (omega (arith, v.slots, v.running)) in
    let run' : Runnable (saved regs s) q = ground (arith, run, at_q) in
    let busy : ltb (count_active s.procs) 2 ≡ false = ground (arith, many) in
    let (s', (e, sw)) = next_process_switches (saved regs s) q w hq run' in
    (s', (timer_some regs s s' busy e, sw))
