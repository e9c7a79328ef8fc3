-- ===== src/Msg/Wait.antt =====
-- `z_msg_wait` and `z_msg_wait_timeout` (sw/os/msg.c, and the same for processes in
-- sw/common/zeitlos.c): reading until the awaited message comes.
use zeitlos.Prelude.{
  ℕ, ◌<◌, ◌≡◌, ◌∙◌, refl, sym, ap, Bool, true, false, ◌&&◌, Option, none, some, List, [], ◌∷◌, ◌++◌,
  append_assoc, All, arith, length, get_or, drop, subst, ltb, ◌==◌, if◌then◌else◌, sub32,
}
use zeitlos.Zobj.{Obj}
use zeitlos.Msg.{Envelope, Rv, ok, fail, Kernel, read_envelope}
use zeitlos.Msg.Deliver.{IsSound, pending, read_envelope-IsSound, read_keeps}
use zeitlos.Msg.Ends.{Taken, taken}
use zeitlos.Msg.Resolve.{Memory, Places, Scratch, resolve_obj, depth, fresh, delivered, k_msg_read}

-- One round of a waiting loop: the clock's reading, what the other processes do before it, and the
-- senders' memory then.
pub record Turn : Type 0 where
  pub clock : ℕ
  pub others : Kernel → Kernel
  pub memory : Memory

abbrev pub is_awaited : ℕ → ℕ → Envelope → Bool
is_awaited subject tag msg = msg.subject == subject && msg.tag == tag

-- The reader's message, as the loops leave it: its fields and its scratch arrays.
abbrev pub Got : Type 0
Got = Envelope × Scratch

-- What a loop makes of a read: the awaited message ends it, and all else is discarded.
abbrev pub judged :
    ℕ
    → ℕ
    → (Scratch → Kernel → Option (Rv × Option Got × Kernel))
    → Scratch
    → Option Got × Kernel
    → Option (Rv × Option Got × Kernel)
judged subject tag rest s (none, k) = rest s k
judged subject tag rest s (some (msg, s'), k) =
    if is_awaited subject tag msg then some (ok, some (msg, s'), k) else rest s' k

module _ (l : Places) (subject tag : ℕ) where
  -- With no turn left it still waits.
  pub z_msg_wait : List Turn → Scratch → Kernel → Option (Rv × Option Got × Kernel)
  z_msg_wait [] s k = none
  z_msg_wait (t ∷ ts) s k =
      judged subject tag (z_msg_wait ts) s (k_msg_read t.memory l s (t.others k))

  abbrev pub z_msg_wait_timeout :
      ℕ → ℕ → List Turn → Scratch → Kernel → Option (Rv × Option Got × Kernel)
  z_msg_wait_timeout start timeout [] s k = none
  z_msg_wait_timeout start timeout (t ∷ ts) s k =
      let rest =
        judged subject tag (z_msg_wait_timeout start timeout ts) s
          (k_msg_read t.memory l s (t.others k)) in
      if ltb (sub32 t.clock start) timeout then rest else some (fail, none, t.others k)

-- What the other processes may do to the one that waits: send to it.
abbrev pub OnlySends : Turn → Type 0
OnlySends t =
    (k : Kernel)
    → IsSound k
    → IsSound (t.others k)
      × ((t.others k).pid ≡ k.pid)
      × ((more : List Envelope) × (pending (t.others k) k.pid ≡ pending k k.pid ++ more))

abbrev pub IsOther : ℕ → ℕ → Envelope → Type 0
IsOther subject tag msg = is_awaited subject tag msg ≡ false

-- A message that is there is read, with its payload rebuilt.
read_lem :
    (m : Memory) (l : Places) (s : Scratch) (k k' : Kernel) (e : Envelope)
    → read_envelope k ≡ (some e, k')
    → (o : Obj) × (s' : Scratch) × (k_msg_read m l s k ≡ (some (record e { obj = o }, s'), k'))
unfolding k_msg_read delivered
read_lem m l s k k' e h =
    let r = resolve_obj m l k' e.from depth e.obj (fresh s) in (r.1, r.2, ap (delivered m l s) h)

-- The outcome of a wait for a message: its fields, what was rebuilt of its payload, and what is left of
-- the mailbox.
abbrev pub Found : Envelope → List Envelope → ℕ → Option (Rv × Option Got × Kernel) → Type 0
Found e after pid r =
    (o : Obj) × (s : Scratch) × (k : Kernel) × (later : List Envelope) × (r
      ≡ some (ok, some (record e { obj = o }, s), k))
    × (pending k pid ≡ after ++ later)

Found-append :
    (e : Envelope) (after more : List Envelope) (pid : ℕ) (r : Option (Rv × Option Got × Kernel))
    → Found e (after ++ more) pid r
    → Found e after pid r
Found-append e after more pid r (o, s, k, later, h, p) =
    (o, s, k, more ++ later, h, p ∙ append_assoc after more later)

-- The message that a sound kernel reads, if `e` is the oldest.
oldest :
    (k : Kernel) (e : Envelope) (q : List Envelope)
    → IsSound k
    → pending k k.pid ≡ e ∷ q
    → (k' : Kernel) × (read_envelope k ≡ (some e, k'))
      × IsSound k'
      × (pending k' k.pid ≡ q)
      × (k'.pid ≡ k.pid)
oldest k e q v h = found (read_envelope k) refl (taken k v)
  where
    found :
        (t : Option Envelope × Kernel)
        → read_envelope k ≡ t
        → Taken k t
        → (k' : Kernel) × (read_envelope k ≡ (some e, k'))
          × IsSound k'
          × (pending k' k.pid ≡ q)
          × (k'.pid ≡ k.pid)
    found (none, k') r (p, _) = cc
    found (some x, k') r (q', p, here, there) =
        let same : x ≡ e = ap (λ l. get_or l 0 e) (sym p ∙ h) in
        (
          k',
          r ∙ ap (λ y. (some y, k')) same,
          subst (λ t. IsSound t.1) r (read_envelope-IsSound k v),
          here ∙ ap (drop 1) (sym p ∙ h),
          sym (ap (λ t. t.1.pid) r) ∙ (read_keeps k).1,
        )

module _ (l : Places) (subject tag : ℕ) (e : Envelope)
    (awaited : is_awaited subject tag e ≡ true) where
  -- A process waits, and finds in its mailbox messages that it does not wait for, and behind them one
  -- that it does: however much the others send to it meanwhile, as soon as there was a round for each of
  -- them the wait has returned that one, with its subject, its tag and its sender. Those before are
  -- gone, and those behind are still there, in front of what came later.
  pub z_msg_wait_finds :
      (before after : List Envelope) (ts : List Turn) (s : Scratch) (k : Kernel)
      → IsSound k
      → pending k k.pid ≡ before ++ (e ∷ after)
      → All (IsOther subject tag) before
      → All OnlySends ts
      → length before < length ts
      → Found e after k.pid (z_msg_wait l subject tag ts s k)
  unfolding z_msg_wait
  z_msg_wait_finds before after [] s k v p b o n = elim n [ ]
  z_msg_wait_finds [] after (t ∷ ts) s k v p b o n =
      let (v', same, (more, q)) = o.0 k v in
      let k1 = t.others k in
      let there : pending k1 k1.pid ≡ e ∷ (after ++ more) =
        ap (pending k1) same ∙ q ∙ ap (λ q. q ++ more) p in
      let (k', r, w, left, pid) = oldest k1 e (after ++ more) v' there in
      let (x, s', got) = read_lem t.memory l s k1 k' e r in
      (
        x,
        s',
        k',
        more,
        ap (judged subject tag (z_msg_wait l subject tag ts) s) got ∙ rw awaited refl,
        ap (pending k') (sym same) ∙ left,
      )
  z_msg_wait_finds (x ∷ before) after (t ∷ ts) s k v p b o n =
      let (v', same, (more, q)) = o.0 k v in
      let k1 = t.others k in
      let there : pending k1 k1.pid ≡ x ∷ (before ++ (e ∷ (after ++ more))) =
        ap (pending k1) same
        ∙ q
        ∙ ap (λ q. q ++ more) p
        ∙ ap (x ∷◌) (append_assoc before (e ∷ after) more) in
      let (k', r, w, left, pid) = oldest k1 x (before ++ (e ∷ (after ++ more))) v' there in
      let (y, s', got) = read_lem t.memory l s k1 k' x r in
      let rest =
        z_msg_wait_finds before (after ++ more) ts s' k' w (ap (pending k') pid ∙ left) b.1 o.1
          (omega (arith, n)) in
      let found = Found-append e after more k'.pid _ rest in
      let on = ap (judged subject tag (z_msg_wait l subject tag ts) s) got ∙ rw b.0 refl in
      subst (Found e after k.pid) (sym on)
        (subst (λ i. Found e after i (z_msg_wait l subject tag ts s' k')) (pid ∙ same) found)
