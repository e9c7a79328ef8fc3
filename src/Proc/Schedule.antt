-- ===== src/Proc/Schedule.antt =====
-- sw/os/kernel.c: the timer's switch to the next process is round robin, and ends.
use zeitlos.Prelude.{
  ℕ, zero, suc, ◌<◌, ◌≡◌, ◌≢◌, ◌∙◌, refl, sym, ap, true, false, none, some, arith, ◌==◌,
  if◌then◌else◌, inl, inr, ◌⊎◌, subst,
}
use zeitlos.Proc.{Proc, System, procs_max, proc_at, reap, next_pid, next_process, round}
use zeitlos.Proc.Round.{
  IsTable, Runnable, between, cleared, Switched, proc_at-reap, reap-IsTable, next_pid_in,
  between_next, pass,
}

-- The three things that a step of the loop does.
unfoldable pub moved : System → System
moved s = record s { pid = next_pid s.pid }

unfoldable pub reaped : System → System
unfolding moved
reaped s = reap (next_pid s.pid) (moved s)

pub loop_dying :
    (fuel : ℕ) (s : System)
    → (proc_at s (next_pid s.pid)).die ≡ true
    → next_process (suc fuel) s ≡ next_process fuel (reaped s)
unfolding next_process reaped
loop_dying fuel s d = rw (d, next_process) refl

pub loop_idle :
    (fuel : ℕ) (s : System)
    → (proc_at s (next_pid s.pid)).die ≡ false
    → (proc_at s (next_pid s.pid)).active ≡ false
    → next_process (suc fuel) s ≡ next_process fuel (moved s)
unfolding next_process moved
loop_idle fuel s d a = ground (arith, d, a)

pub loop_found :
    (fuel : ℕ) (s : System)
    → Runnable s (next_pid s.pid)
    → next_process (suc fuel) s
      ≡ some (record s { pid = next_pid s.pid; mtu = (proc_at s (next_pid s.pid)).base })
unfolding next_process
loop_found fuel s run = ground (arith, run)

pub slot_cases :
    (q : Proc)
    → (q.die ≡ true)
      ⊎ ((q.die ≡ false) × (q.active ≡ false))
      ⊎ ((q.active ≡ true) × (q.die ≡ false))
slot_cases q = ground arith

pub moved-IsTable : (s : System) → IsTable s → IsTable (moved s)
unfolding moved
moved-IsTable s v = record { slots = v.slots; running = next_pid_in s.pid v.running }

pub reaped-IsTable : (s : System) → IsTable s → IsTable (reaped s)
unfolding reaped
reaped-IsTable s v =
    let h = next_pid_in s.pid v.running in reap-IsTable (moved s) (next_pid s.pid) v.slots h h

-- The reaped slot is cleared, and no other slot changes.
pub proc_at-reaped :
    (s : System) (j : ℕ)
    → IsTable s
    → proc_at (reaped s) j
      ≡ (if next_pid s.pid == j then cleared (proc_at s (next_pid s.pid)) else proc_at s j)
unfolding reaped
proc_at-reaped s j v =
    proc_at-reap (moved s) (next_pid s.pid) j v.slots (next_pid_in s.pid v.running)

reaped_pid : (s : System) → (reaped s).pid ≡ next_pid s.pid
unfolding reaped reap
reaped_pid s = refl

-- The switch that is found once a dying process has been reaped.
pass_dying :
    (s s' : System)
    → IsTable s
    → (proc_at s (next_pid s.pid)).die ≡ true
    → Switched (reaped s) s'
    → Switched s s'
pass_dying s s' v d w =
    let p = reaped_pid s in
    let here : proc_at (reaped s) (next_pid s.pid) ≡ cleared (proc_at s (next_pid s.pid)) =
      ground (arith, proc_at-reaped s (next_pid s.pid) v) in
    pass s (reaped s) s' v p (λ run. ground (arith, run.1, d, ap (proc_at s) p))
      (λ r ne. ground (arith, proc_at-reaped s r v, p, ne)) (rw p (inr (d, here)))
      (λ run. ground (arith, run.0, here, ap (proc_at (reaped s)) p)) w

pass_idle :
    (s s' : System)
    → IsTable s
    → (proc_at s (next_pid s.pid)).active ≡ false
    → Switched (moved s) s'
    → Switched s s'
unfolding moved
pass_idle s s' v a w =
    pass s (moved s) s' v refl (λ run. ground (arith, run.0, a)) (λ r ne. refl) (inl refl)
      (λ run. ground (arith, run.0, a)) w

find_next :
    (s : System)
    → IsTable s
    → Runnable s (next_pid s.pid)
    → Switched s (record s { pid = next_pid s.pid; mtu = (proc_at s (next_pid s.pid)).base })
find_next s v run =
    let h = next_pid_in s.pid v.running in
    record {
      target = h;
      runs = run;
      nearest = λ r hr run'. ground (arith, v.running);
      mapped = refl;
      slots = λ j. inl refl;
      table = record { slots = v.slots; running = h };
    }

pub some_inj {ℓ} : {A : Type ℓ} → {a b : A} → some a ≡ some b → a ≡ b
some_inj e = cc

pub loop_spent : (s s' : System) → next_process zero s ≢ some s'
unfolding next_process
loop_spent s s' e = cc

loop_none : (s : System) → next_process zero s ≡ none
unfolding next_process
loop_none s = refl

-- Whatever the loop returns is a round-robin switch.
pub next_process-Switched :
    (fuel : ℕ) (s s' : System) → IsTable s → next_process fuel s ≡ some s' → Switched s s'
next_process-Switched zero s s' v e = elim (loop_spent s s' e) [ ]
next_process-Switched (suc fuel) s s' v e = elim (slot_cases (proc_at s (next_pid s.pid))) [
  | inl d ↦ pass_dying s s' v d (
      next_process-Switched fuel (reaped s) s' (reaped-IsTable s v) (sym (loop_dying fuel s d) ∙ e))
  | inr (inl (d, a)) ↦
      pass_idle s s' v a (
        next_process-Switched fuel (moved s) s' (moved-IsTable s v)
          (sym (loop_idle fuel s d a) ∙ e))
  | inr (inr run) ↦
      subst (Switched s) (some_inj (sym (loop_found fuel s run) ∙ e)) (find_next s v run)
]

-- With a runnable process in the table the loop finds one in as many steps as that one is away.
pub next_process_ends :
    (fuel : ℕ) (s : System) (q : ℕ)
    → IsTable s
    → q < procs_max
    → Runnable s q
    → between s.pid q < fuel
    → (s' : System) × (next_process fuel s ≡ some s')
unfolding moved
next_process_ends zero s q v hq run h = elim h [ ]
next_process_ends (suc fuel) s q v hq run h = elim (slot_cases (proc_at s (next_pid s.pid))) [
  | inl d ↦
      let ne : q ≢ next_pid s.pid = λ e. ground (arith, run.1, ap (λ j. (proc_at s j).die) e, d) in
      let run' : Runnable (reaped s) q = ground (arith, proc_at-reaped s q v, run) in
      let (s', e) =
        next_process_ends fuel (reaped s) q (reaped-IsTable s v) hq run'
          (omega (arith, reaped_pid s, between_next s.pid q v.running hq ne)) in
      (s', loop_dying fuel s d ∙ e)
  | inr (inl (d, a)) ↦
      let ne : q ≢ next_pid s.pid =
        λ e. ground (arith, run.0, ap (λ j. (proc_at s j).active) e, a) in
      let (s', e) =
        next_process_ends fuel (moved s) q (moved-IsTable s v) hq run
          (omega (arith, between_next s.pid q v.running hq ne)) in
      (s', loop_idle fuel s d a ∙ e)
  | inr (inr found) ↦ (_, loop_found fuel s found)
]

-- No slot holds a runnable process.
abbrev pub IsStalled : System → Type 0
IsStalled s = (q : ℕ) → q < procs_max → ¬ Runnable s q

-- The loop of the interrupt handler, over a table with a runnable process, ends within one round, in a
-- round-robin switch.
pub next_process_switches :
    (s : System) (q : ℕ)
    → IsTable s
    → q < procs_max
    → Runnable s q
    → (s' : System) × ((next_process round s ≡ some s') × Switched s s')
next_process_switches s q v hq run =
    let (s', e) = next_process_ends round s q v hq run (omega arith) in
    (s', (e, next_process-Switched round s s' v e))

moved-IsStalled : (s : System) → IsStalled s → IsStalled (moved s)
unfolding moved
moved-IsStalled s h = h

reaped-IsStalled : (s : System) → IsTable s → IsStalled s → IsStalled (reaped s)
reaped-IsStalled s v h q hq run = ground (arith, proc_at-reaped s q v, h q hq, run)

-- When every slot is idle or dying, the loop of the interrupt handler has no last step: whatever the
-- fuel, it runs out.
pub next_process_stalls :
    (fuel : ℕ) (s : System) → IsTable s → IsStalled s → next_process fuel s ≡ none
next_process_stalls zero s v h = loop_none s
next_process_stalls (suc fuel) s v h = elim (slot_cases (proc_at s (next_pid s.pid))) [
  | inl d ↦
      loop_dying fuel s d
      ∙ next_process_stalls fuel (reaped s) (reaped-IsTable s v) (reaped-IsStalled s v h)
  | inr (inl (d, a)) ↦
      loop_idle fuel s d a
      ∙ next_process_stalls fuel (moved s) (moved-IsTable s v) (moved-IsStalled s h)
  | inr (inr run) ↦ elim (h (next_pid s.pid) (next_pid_in s.pid v.running) run) [ ]
]
