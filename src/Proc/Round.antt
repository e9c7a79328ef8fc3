-- ===== src/Proc/Round.antt =====
-- sw/os/kernel.c: the round robin, as a relation between the states before and behind a switch.
use zeitlos.Prelude.{
  ℕ, ◌+◌, ◌-◌, ◌%◌, ◌≤◌, ◌<◌, ◌≡◌, ◌≢◌, ◌∙◌, sym, ap, true, false, arith, length, length-set,
  get_or-set, ◌==◌, if◌then◌else◌, inl, inr, ◌⊎◌, subst, ℕ_discrete,
}
use zeitlos.Proc.{Proc, System, procs_max, free_proc, proc_at, reap, next_pid}

-- The table has its slots, and the running process has one.
pub record IsTable (s : System) : Type 0 where
  pub slots : length s.procs ≡ procs_max
  pub running : s.pid < procs_max

abbrev pub Runnable : System → ℕ → Type 0
Runnable s q = ((proc_at s q).active ≡ true) × ((proc_at s q).die ≡ false)

-- How many slots lie between a process and another, going round.
abbrev pub between : ℕ → ℕ → ℕ
between p q = (q + 15 - p) % 16

-- A slot once its process has been reaped.
abbrev pub cleared : Proc → Proc
cleared q = record q { base = 0; active = false; die = false }

-- The switch from `s` to `s'`: the new process is runnable, none that is runnable stands nearer in
-- the round, its memory is mapped, and of the slots only those of dying processes change: such a slot
-- may have been cleared.
pub record Switched (s s' : System) : Type 0 where
  pub target : s'.pid < procs_max
  pub runs : Runnable s s'.pid
  pub nearest : (r : ℕ) → r < procs_max → Runnable s r → between s.pid s'.pid ≤ between s.pid r
  pub mapped : s'.mtu ≡ (proc_at s s'.pid).base
  pub slots :
      (j : ℕ)
      → (proc_at s' j ≡ proc_at s j)
        ⊎ (((proc_at s j).die ≡ true) × (proc_at s' j ≡ cleared (proc_at s j)))
  pub table : IsTable s'

pub proc_at-reap :
    (s : System) (p j : ℕ)
    → length s.procs ≡ procs_max
    → p < procs_max
    → proc_at (reap p s) j ≡ (if p == j then cleared (proc_at s p) else proc_at s j)
unfolding reap
proc_at-reap s p j l h = get_or-set s.procs p j (cleared (proc_at s p)) free_proc (omega (arith, l))

pub reap-IsTable :
    (s : System) (p : ℕ)
    → length s.procs ≡ procs_max
    → p < procs_max
    → s.pid < procs_max
    → IsTable (reap p s)
unfolding reap
reap-IsTable s p l h r = record {
  slots = length-set s.procs p (cleared (proc_at s p)) ∙ l;
  running = r;
}

pub next_pid_in : (p : ℕ) → p < procs_max → next_pid p < procs_max
next_pid_in p h = ground arith

-- One slot nearer, unless the slot is the next one.
pub between_next :
    (p q : ℕ)
    → p < procs_max
    → q < procs_max
    → q ≢ next_pid p
    → between p q ≡ between (next_pid p) q + 1
between_next p q hp hq ne = ground arith

-- A slot that is left or cleared, twice.
abbrev pub LeftOrCleared : Proc → Proc → Type 0
LeftOrCleared a b = (b ≡ a) ⊎ ((a.die ≡ true) × (b ≡ cleared a))

pub LeftOrCleared-trans : (a b c : Proc) → LeftOrCleared a b → LeftOrCleared b c → LeftOrCleared a c
LeftOrCleared-trans a b c (inl p) (inl q) = inl (q ∙ p)
LeftOrCleared-trans a b c (inl p) (inr (d, q)) =
    inr (subst (λ x. x.die ≡ true) p d, q ∙ ap cleared p)
LeftOrCleared-trans a b c (inr (d, p)) (inl q) = inr (d, q ∙ p)
LeftOrCleared-trans a b c (inr (d, p)) (inr (d', q)) = cc (ap (λ x. x.die) p)

-- A switch that passed the next slot, which held no runnable process.
pub pass :
    (s t s' : System)
    → IsTable s
    → t.pid ≡ next_pid s.pid
    → ¬ Runnable s t.pid
    → ((r : ℕ) → r ≢ t.pid → proc_at t r ≡ proc_at s r)
    → LeftOrCleared (proc_at s t.pid) (proc_at t t.pid)
    → ¬ Runnable t t.pid
    → Switched t s'
    → Switched s s'
pass s t s' v e idle same here idle' w =
    let elsewhere : s'.pid ≢ t.pid = λ q. idle' (subst (Runnable t) q w.runs) in
    let tpid : t.pid < procs_max = rw e (next_pid_in s.pid v.running) in
    record {
      target = w.target;
      runs = subst (λ q. (q.active ≡ true) × (q.die ≡ false)) (same s'.pid elsewhere) w.runs;
      nearest = λ r hr run.
          let ne : r ≢ t.pid = λ q. idle (subst (Runnable s) q run) in
          let run' : Runnable t r =
            subst (λ q. (q.active ≡ true) × (q.die ≡ false)) (sym (same r ne)) run in
          omega (
            arith,
            e,
            w.nearest r hr run',
            between_next s.pid r v.running hr (λ q. ne (q ∙ sym e)),
            between_next s.pid s'.pid v.running w.target (λ q. elsewhere (q ∙ sym e)),
          );
      mapped = w.mapped ∙ ap (λ q. q.base) (same s'.pid elsewhere);
      slots = λ j. elim (ℕ_discrete j t.pid) [
        | yes q ↦
            LeftOrCleared-trans (proc_at s j) (proc_at t j) (proc_at s' j) (rw q here) (w.slots j)
        | no ne ↦
            LeftOrCleared-trans (proc_at s j) (proc_at t j) (proc_at s' j) (inl (same j ne))
              (w.slots j)
      ];
      table = w.table;
    }
