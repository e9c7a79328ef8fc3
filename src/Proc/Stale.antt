-- ===== src/Proc/Stale.antt =====
-- sw/os/kernel.c: the flags of a slot over the life of a process. `k_proc_create` relies on their
-- being clear in a free slot, and `k_proc_kill` sets one there.
use zeitlos.Prelude.{ℕ, suc, ◌≡◌, true, arith, length, get_or-set, inl, inr, ◌⊎◌}
use zeitlos.Proc.{System, procs_max, free_proc, proc_at, created, k_proc_create, k_proc_start}
use zeitlos.Proc.Create.{Made, Refused, k_proc_create_cases}

-- What `k_proc_create` followed by `k_proc_start` makes of the slot.
started :
    (size stack p : ℕ) (s s' : System)
    → length s.procs ≡ procs_max
    → Made size stack s p s'
    → (proc_at (k_proc_start p s') p).die ≡ (proc_at s p).die
      × ((proc_at (k_proc_start p s') p).active ≡ true)
unfolding k_proc_start created
started size stack p s s' l m =
    let at_p =
      get_or-set s'.procs p p (record (proc_at s' p) { active = true }) free_proc
        (omega (arith, m.in_table, m.slots)) in
    ground (arith, at_p, m.procs p)

Made-at :
    (size stack p : ℕ) (s s' : System)
    → k_proc_create size stack s ≡ (suc p, s')
    → Made size stack s (suc p) s'
Made-at size stack p s s' e =
    let cases : Made size stack s (suc p) s' ⊎ ((suc p ≡ 0) × Refused size stack s s') =
      rw e at (k_proc_create_cases size stack s) in
    elim cases [ inl m ↦ m | inr (z, _) ↦ (let bad : ⊥ = omega (arith, z) in elim bad [ ]) ]

-- A process that is created and started is active, and has the flag to die exactly when it was set in
-- the free slot before.
pub k_proc_start-create_flags :
    (size stack p : ℕ) (s s' : System)
    → length s.procs ≡ procs_max
    → k_proc_create size stack s ≡ (suc p, s')
    → ((proc_at (k_proc_start (suc p) s') (suc p)).die ≡ (proc_at s (suc p)).die)
      × ((proc_at (k_proc_start (suc p) s') (suc p)).active ≡ true)
k_proc_start-create_flags size stack p s s' l e =
    started size stack (suc p) s s' l (Made-at size stack p s s' e)
