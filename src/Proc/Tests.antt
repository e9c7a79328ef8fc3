-- ===== src/Proc/Tests.antt =====
-- sw/os/kernel.c: a table of three processes, and the theorems there.
use zeitlos.Prelude.{
  ℕ, zero, suc, ◌+◌, ◌≤◌, ◌≡◌, ◌⊎◌, refl, true, false, some, List, [], ◌∷◌, arith, get_or,
  replicate,
}
use zeitlos.Mem.{
  mem_base, k_mem_init, k_mem_alloc, rounded, alloc_walk, fits, carve, split, alloc_metadata,
  align_up,
}
use zeitlos.Pidreg.{k_pidreg_init}
use zeitlos.Proc.{
  Proc, System, free_proc, proc_at, k_proc_create, k_proc_kill, timer_irq, count_active, created,
  find_slot,
}
use zeitlos.Proc.Schedule.{IsStalled}
use zeitlos.Proc.Round.{IsTable, Switched}
use zeitlos.Proc.Reach.{
  booted, Reachable, here, after, create, saved, processes_apart, timer_irq_switches,
}

abbrev running_proc : ℕ → Proc
running_proc base = record {
  base = base;
  size = 0x1_0000;
  active = true;
  die = false;
  regs = replicate 32 0;
}

abbrev dying_proc : ℕ → Proc
dying_proc base = record {
  base = base;
  size = 0x1_0000;
  active = true;
  die = true;
  regs = replicate 32 0;
}

abbrev system : List Proc → System
system procs = record {
  pool = k_mem_init 0x10_0000;
  registry = k_pidreg_init;
  procs = procs;
  pid = 0;
  ticks = 0;
  mtu = 0;
  stores = [];
}

-- The shell runs, slot 1 is dying, and slot 2 holds a process that waits.
abbrev three : System
three = system (
    running_proc 0x4000_0000
    ∷ dying_proc 0x4001_0000
    ∷ running_proc 0x4002_0000
    ∷ replicate 13 free_proc)

three-IsTable : IsTable three
three-IsTable = record { slots = refl; running = omega arith }

two_active : 2 ≤ count_active three.procs
unfolding count_active
two_active = omega arith

timer_irq_switches_example :
    (s : System) × ((timer_irq [] three ≡ some ((proc_at s s.pid).regs, s))
      × Switched (saved [] three) s)
timer_irq_switches_example =
    timer_irq_switches [] three 2 three-IsTable two_active (omega arith) (refl, refl)

-- Every process of the table is dying.
abbrev stalled : System
stalled = system (dying_proc 0x4000_0000 ∷ dying_proc 0x4001_0000 ∷ replicate 14 free_proc)

free_slots : (n q : ℕ) → (get_or (replicate n free_proc) q free_proc).active ≡ false
free_slots zero q = refl
free_slots (suc n) zero = refl
free_slots (suc n) (suc q) = free_slots n q

stalled-IsStalled : IsStalled stalled
stalled-IsStalled zero h (a, d) = cc
stalled-IsStalled (suc zero) h (a, d) = cc
stalled-IsStalled (suc (suc q)) h (a, d) = ground (arith, a, free_slots 14 q)

-- A single process in slot 0; the killed slot 1 is free.
abbrev alone : System
alone = system (running_proc 0x4000_0000 ∷ replicate 15 free_proc)

struck : System
struck = (k_proc_create 0x8000 0x4000 (k_proc_kill 1 alone).1).1

-- Boot, and two processes.
abbrev boot : System
boot = booted 0x10_0000 k_pidreg_init

shell : System
shell = (k_proc_create 0x8000 0x4000 boot).1

both : System
both = (k_proc_create 0x8000 0x4000 shell).1

both_bases : ((proc_at both 0).base ≡ 0x4000_0000) × ((proc_at both 1).base ≡ 0x4000_c000)
unfolding both shell k_proc_create find_slot created k_mem_alloc k_mem_init rounded alloc_walk fits
    carve split alloc_metadata align_up
both_bases = (refl, refl)

both-Reachable : Reachable boot both
unfolding both shell
both-Reachable =
    after (k_proc_create 0x8000 0x4000 boot).1 _ (after boot _ here (create 0x8000 0x4000))
      (create 0x8000 0x4000)

processes_apart_example :
    (mem_base ≤ (proc_at both 0).base)
    × ((proc_at both 0).base + (proc_at both 0).size ≤ mem_base + 0x10_0000)
    × (((proc_at both 0).base + (proc_at both 0).size ≤ (proc_at both 1).base)
        ⊎ ((proc_at both 1).base + (proc_at both 1).size ≤ (proc_at both 0).base))
processes_apart_example =
    processes_apart 0x10_0000 0 1 k_pidreg_init both (omega arith) (omega arith) both-Reachable
      (λ e. omega (arith, e)) (λ e. omega (arith, e, both_bases))
      (λ e. omega (arith, e, both_bases))
