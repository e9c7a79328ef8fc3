-- ===== src/Proc/Create.antt =====
-- sw/os/kernel.c: what `k_proc_create` does to the table and to the memory, on its every exit.
use zeitlos.Prelude.{
  ℕ, ◌+◌, ◌-◌, ◌≤◌, ◌<◌, ◌≡◌, refl, ap, none, some, List, [], ◌∷◌, subst, arith, length, length-set,
  add32, sub32, get_or, set, get_or-set, ◌==◌, if◌then◌else◌, Option-cases, inl, inr, ◌⊎◌,
}
use zeitlos.Mem.{Pool, k_mem_alloc}
use zeitlos.Proc.{Proc, System, free_proc, proc_at, find_slot, created, proc_size, k_proc_create}

-- The slot that is found is free and in the table.
pub find_slot_lem :
    (i : ℕ) (qs : List Proc) (p : ℕ)
    → find_slot i qs ≡ some p
    → (i ≤ p) × (p < i + length qs) × ((get_or qs (p - i) free_proc).base ≡ 0)
unfolding find_slot
find_slot_lem i [] p e = cc
find_slot_lem i (q ∷ qs) p e = ground (arith, e, find_slot_lem (i + 1) qs p)

-- `s'` has a new process at `p`: the slot was free, its memory is a fresh allocation, and no other
-- slot, name or running process changes.
pub record Made (size stack : ℕ) (s : System) (p : ℕ) (s' : System) : Type 0 where
  pub mem : ℕ
  pub in_table : p < length s.procs
  pub was_free : (proc_at s p).base ≡ 0
  pub room : k_mem_alloc (proc_size size stack) s.pool ≡ (some mem, s'.pool)
  pub procs :
      (j : ℕ)
      → proc_at s' j
        ≡ (if p == j then created p mem (proc_size size stack) (proc_at s p) else proc_at s j)
  pub slots : length s'.procs ≡ length s.procs
  pub registry : s'.registry ≡ s.registry
  pub pid : s'.pid ≡ s.pid

-- No process is made: the table is full, or the memory is.
pub record Refused (size stack : ℕ) (s s' : System) : Type 0 where
  pub procs : s'.procs ≡ s.procs
  pub pool : (s'.pool ≡ s.pool) ⊎ (k_mem_alloc (proc_size size stack) s.pool ≡ (none, s'.pool))
  pub registry : s'.registry ≡ s.registry
  pub pid : s'.pid ≡ s.pid

create_full :
    (size stack : ℕ) (s : System) → find_slot 0 s.procs ≡ none → k_proc_create size stack s ≡ (0, s)
unfolding k_proc_create
create_full size stack s e = rw (e, k_proc_create) refl

create_refused :
    (size stack p : ℕ) (s : System)
    → find_slot 0 s.procs ≡ some p
    → (k_mem_alloc (proc_size size stack) s.pool).0 ≡ none
    → k_proc_create size stack s
      ≡ (0, record s { pool = (k_mem_alloc (proc_size size stack) s.pool).1 })
unfolding k_proc_create
create_refused size stack p s e m = rw (e, m, k_proc_create) refl

-- The state after a creation at `p`.
placed : ℕ → ℕ → ℕ → Pool → System → System
placed p mem mem_size pool s =
    let q = created p mem mem_size (proc_at s p) in
    let top = sub32 (add32 mem mem_size) 4 in
    let stores = if p == 0 then s.stores else (top, get_or q.regs 1 0) ∷ s.stores in
    record s { pool = pool; procs = set s.procs p q; stores = stores }

create_placed :
    (size stack p mem : ℕ) (s : System)
    → find_slot 0 s.procs ≡ some p
    → (k_mem_alloc (proc_size size stack) s.pool).0 ≡ some mem
    → k_proc_create size stack s
      ≡ (p, placed p mem (proc_size size stack) (k_mem_alloc (proc_size size stack) s.pool).1 s)
unfolding k_proc_create placed
create_placed size stack p mem s e m = rw (e, m, k_proc_create) refl

placed-Made :
    (size stack p mem : ℕ) (s : System) (pool : Pool)
    → find_slot 0 s.procs ≡ some p
    → k_mem_alloc (proc_size size stack) s.pool ≡ (some mem, pool)
    → Made size stack s p (placed p mem (proc_size size stack) pool s)
unfolding placed
placed-Made size stack p mem s pool e m =
    let (_, k, f) = find_slot_lem 0 s.procs p e in
    let h : p < length s.procs = omega (arith, k) in
    let q = created p mem (proc_size size stack) (proc_at s p) in
    record {
      mem = mem;
      in_table = h;
      was_free = subst (λ i. (get_or s.procs i free_proc).base ≡ 0) (omega arith) f;
      room = m;
      procs = λ j. get_or-set s.procs p j q free_proc h;
      slots = length-set s.procs p q;
      registry = refl;
      pid = refl;
    }

-- A creation makes a process and returns its pid, or returns 0 and changes no slot.
pub k_proc_create_cases :
    (size stack : ℕ) (s : System)
    → let (p, s') = k_proc_create size stack s in
      Made size stack s p s' ⊎ ((p ≡ 0) × Refused size stack s s')
k_proc_create_cases size stack s = elim (Option-cases (find_slot 0 s.procs)) [
  | inl e ↦
      rw (create_full size stack s e)
        (inr (refl, record { procs = refl; pool = inl refl; registry = refl; pid = refl }))
  | inr (p, e) ↦
      let alloc = k_mem_alloc (proc_size size stack) s.pool in
      elim (Option-cases alloc.0) [
        | inl m ↦ rw (create_refused size stack p s e m) (
            inr (
              refl,
              record {
                procs = refl;
                pool = inr (ap (λ o. (o, alloc.1)) m);
                registry = refl;
                pid = refl;
              },
            ))
        | inr (mem, m) ↦
            rw (create_placed size stack p mem s e m)
              (inl (placed-Made size stack p mem s alloc.1 e (ap (λ o. (o, alloc.1)) m)))
      ]
]
