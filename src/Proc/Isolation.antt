-- ===== src/Proc/Isolation.antt =====
-- sw/os/kernel.c: the processes' memory. Every slot in use holds a block of the pool, and no two
-- hold the same.
use zeitlos.Prelude.{
  ℕ, zero, suc, ◌+◌, ◌^◌, ◌%◌, ◌≤◌, ◌<◌, ◌≡◌, ◌≢◌, ◌∙◌, sym, ap, subst, some, arith, length, get_or,
  get_or-set, inl, inr, ◌⊎◌, ℕ_discrete,
}
use zeitlos.Mem.{mem_base, rounded}
use zeitlos.Mem.Layout.{IsValid, align_up_page, rounded-pos}
use zeitlos.Mem.Live.{live, rounded_lem}
use zeitlos.Mem.Valid.{k_mem_alloc-IsValid, k_mem_free-IsValid}
use zeitlos.Mem.Holds.{
  Holds, Holds-less, Holds-inside, Holds-apart, k_mem_alloc-Holds, k_mem_alloc_keeps,
  k_mem_free_keeps,
}
use zeitlos.Proc.{
  Proc, System, free_proc, proc_at, put_proc, created, proc_size, k_proc_create, reap, next_process,
  next_pid,
}
use zeitlos.Proc.Schedule.{
  reaped, moved, loop_dying, loop_idle, loop_found, loop_spent, slot_cases, some_inj,
  proc_at-reaped, reaped-IsTable, moved-IsTable,
}
use zeitlos.Proc.Round.{IsTable}
use zeitlos.Proc.Create.{Made, Refused, k_proc_create_cases}

pub record IsIsolated (total : ℕ) (s : System) : Type 0 where
  pub pool : IsValid total s.pool
  pub owned :
      (j : ℕ)
      → (proc_at s j).base ≢ 0
      → Holds (proc_at s j).base (proc_at s j).size (live s.pool.blocks)
  pub distinct :
      (j k : ℕ) → j ≢ k → (proc_at s j).base ≢ 0 → (proc_at s j).base ≢ (proc_at s k).base

-- Two processes share no byte, and each lies in the pool.
pub IsIsolated-apart :
    (total j k : ℕ) (s : System)
    → IsIsolated total s
    → j ≢ k
    → (proc_at s j).base ≢ 0
    → (proc_at s k).base ≢ 0
    → (mem_base ≤ (proc_at s j).base)
      × ((proc_at s j).base + (proc_at s j).size ≤ mem_base + total)
      × (((proc_at s j).base + (proc_at s j).size ≤ (proc_at s k).base)
          ⊎ ((proc_at s k).base + (proc_at s k).size ≤ (proc_at s j).base))
IsIsolated-apart total j k s v ne hj hk =
    let (lo, hi) =
      Holds-inside mem_base (mem_base + total) _ _ s.pool.blocks v.pool.tiles (v.owned j hj) in
    (
      lo,
      hi,
      Holds-apart mem_base (mem_base + total) _ _ _ _ s.pool.blocks v.pool.tiles (v.owned j hj)
          (v.owned k hk) (v.distinct j k ne hj),
    )

proc_size-le : (size stack : ℕ) → proc_size size stack ≤ rounded (proc_size size stack)
proc_size-le size stack =
    (rounded_lem (proc_size size stack) (omega (arith, align_up_page ((size + stack) % 2 ^ 32)))).0

-- The same slots over a pool in which what was held still is.
same_slots :
    (total : ℕ) (s s' : System)
    → IsIsolated total s
    → s'.procs ≡ s.procs
    → IsValid total s'.pool
    → ((a n : ℕ) → Holds a n (live s.pool.blocks) → Holds a n (live s'.pool.blocks))
    → IsIsolated total s'
same_slots total s s' v e pool keep =
    let same : (j : ℕ) → proc_at s' j ≡ proc_at s j = λ j. ap (λ l. get_or l j free_proc) e in
    record {
      pool = pool;
      owned = λ j h. rw (same j) (keep _ _ (v.owned j (rw (same j) at h)));
      distinct = λ j k ne h. rw (same j, same k) (v.distinct j k ne (rw (same j) at h));
    }

Refused-IsIsolated :
    (total size stack : ℕ) (s s' : System)
    → IsIsolated total s
    → Refused size stack s s'
    → IsIsolated total s'
Refused-IsIsolated total size stack s s' v r = elim (r.pool) [
  | inl e ↦ same_slots total s s' v r.procs (rw e (v.pool)) (λ a n h. rw e h)
  | inr e ↦
      same_slots total s s' v r.procs
        (rw e at (k_mem_alloc-IsValid total (proc_size size stack) s.pool v.pool))
        (λ a n h. k_mem_alloc_keeps total (proc_size size stack) a n s.pool s'.pool v.pool e h)
]

Made-IsIsolated :
    (total size stack p : ℕ) (s s' : System)
    → IsIsolated total s
    → Made size stack s p s'
    → IsIsolated total s'
unfolding created
Made-IsIsolated total size stack p s s' v m =
    let n = proc_size size stack in
    let (above, new, old) =
      k_mem_alloc-Holds total n m.mem s.pool s'.pool v.pool (omega (arith, rounded-pos n)) m.room in
    let at_new : proc_at s' p ≡ created p m.mem n (proc_at s p) = ground (arith, m.procs p) in
    let at_old : (j : ℕ) → p ≢ j → proc_at s' j ≡ proc_at s j =
      λ j ne. ground (arith, m.procs j, ne) in
    let other : (k : ℕ) → m.mem ≢ (proc_at s k).base = λ k e.
      elim (ℕ_discrete (proc_at s k).base 0) [
        | yes z ↦ omega (arith, above, e, z)
        | no z ↦ (old _ _ (v.owned k z)).1 (sym e)
      ] in
    record {
      pool = rw m.room at (k_mem_alloc-IsValid total n s.pool v.pool);
      owned = λ j h. elim (ℕ_discrete p j) [
        | yes e ↦
            rw (← e, at_new) (Holds-less _ _ _ (live s'.pool.blocks) (proc_size-le size stack) new)
        | no ne ↦ rw (at_old j ne) ((old _ _ (v.owned j (rw (at_old j ne) at h))).0)
      ];
      distinct = λ j k ne h. elim (ℕ_discrete p j) [
        | yes e ↦ let nk : p ≢ k = λ q. ne (sym e ∙ q) in rw (← e, at_new, at_old k nk) (other k)
        | no nj ↦ elim (ℕ_discrete p k) [
          | yes e ↦ rw (at_old j nj, ← e, at_new) (λ q. other j (sym q))
          | no nk ↦ rw (at_old j nj, at_old k nk) (v.distinct j k ne (rw (at_old j nj) at h))
        ]
      ];
    }

-- A creation, whatever it returns, keeps the processes apart.
pub k_proc_create-IsIsolated :
    (total size stack : ℕ) (s : System)
    → IsIsolated total s
    → IsIsolated total (k_proc_create size stack s).1
k_proc_create-IsIsolated total size stack s v = elim (k_proc_create_cases size stack s) [
  | inl m ↦ Made-IsIsolated total size stack _ s _ v m
  | inr (_, r) ↦ Refused-IsIsolated total size stack s _ v r
]

reaped-IsIsolated :
    (total : ℕ) (s : System) → IsTable s → IsIsolated total s → IsIsolated total (reaped s)
unfolding reaped moved reap
reaped-IsIsolated total s t v =
    let p = next_pid s.pid in
    let at_new : (proc_at (reaped s) p).base ≡ 0 = ground (arith, proc_at-reaped s p t) in
    let at_old : (j : ℕ) → p ≢ j → proc_at (reaped s) j ≡ proc_at s j =
      λ j ne. ground (arith, proc_at-reaped s j t, ne) in
    let in_use : (j : ℕ) → (proc_at (reaped s) j).base ≢ 0 → p ≢ j =
      λ j h e. h (subst (λ i. (proc_at (reaped s) i).base ≡ 0) e at_new) in
    record {
      pool = k_mem_free-IsValid total (proc_at s p).base s.pool v.pool;
      owned = λ j h.
          let ne = in_use j h in
          let h' = rw (at_old j ne) at h in
          rw (at_old j ne) (
            k_mem_free_keeps (proc_at s p).base _ _ s.pool (v.distinct j p (λ e. ne (sym e)) h')
              (v.owned j h'));
      distinct = λ j k ne h.
          let nj = in_use j h in
          let h' = rw (at_old j nj) at h in
          elim (ℕ_discrete p k) [
            | yes e ↦ λ q. h (q ∙ subst (λ i. (proc_at (reaped s) i).base ≡ 0) e at_new)
            | no nk ↦ rw (at_old j nj, at_old k nk) (v.distinct j k ne h')
          ];
    }

moved-IsIsolated : (total : ℕ) (s : System) → IsIsolated total s → IsIsolated total (moved s)
unfolding moved
moved-IsIsolated total s v = record { pool = v.pool; owned = v.owned; distinct = v.distinct }

-- The scheduler keeps the processes apart while it reaps the dying ones and switches.
pub next_process-IsIsolated :
    (total fuel : ℕ) (s s' : System)
    → IsTable s
    → IsIsolated total s
    → next_process fuel s ≡ some s'
    → IsIsolated total s'
next_process-IsIsolated total zero s s' t v e = elim (loop_spent s s' e) [ ]
next_process-IsIsolated total (suc fuel) s s' t v e =
    elim (slot_cases (proc_at s (next_pid s.pid))) [
      | inl d ↦
          next_process-IsIsolated total fuel (reaped s) s' (reaped-IsTable s t)
            (reaped-IsIsolated total s t v) (sym (loop_dying fuel s d) ∙ e)
      | inr (inl (d, a)) ↦
          next_process-IsIsolated total fuel (moved s) s' (moved-IsTable s t)
            (moved-IsIsolated total s v) (sym (loop_idle fuel s d a) ∙ e)
      | inr (inr run) ↦
          let same = some_inj (sym (loop_found fuel s run) ∙ e) in
          subst (IsIsolated total) same
            (record { pool = v.pool; owned = v.owned; distinct = v.distinct })
    ]

-- A slot whose memory is left alone.
pub put_proc-IsIsolated :
    (total p : ℕ) (q : Proc) (s : System)
    → p < length s.procs
    → q.base ≡ (proc_at s p).base
    → q.size ≡ (proc_at s p).size
    → IsIsolated total s
    → IsIsolated total (put_proc p q s)
put_proc-IsIsolated total p q s h b z v =
    let bases : (j : ℕ) → (proc_at (put_proc p q s) j).base ≡ (proc_at s j).base =
      λ j. ground (arith, get_or-set s.procs p j q free_proc h) in
    let sizes : (j : ℕ) → (proc_at (put_proc p q s) j).size ≡ (proc_at s j).size =
      λ j. ground (arith, get_or-set s.procs p j q free_proc h) in
    record {
      pool = v.pool;
      owned = λ j u. rw (bases j, sizes j) (v.owned j (rw (bases j) at u));
      distinct = λ j k ne u. rw (bases j, bases k) (v.distinct j k ne (rw (bases j) at u));
    }
