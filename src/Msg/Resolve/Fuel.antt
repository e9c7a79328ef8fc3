-- ===== src/Msg/Resolve/Fuel.antt =====
-- sw/os/msg.c: the recursion of `z_resolve_obj` ends, for every memory of the sender, cyclic ones
-- included, because each list or map on the way down takes one of the four tables.
use zeitlos.Prelude.{
  ℕ, zero, suc, ◌+◌, ◌-◌, ◌*◌, ◌≤◌, add32, ◌≡◌, refl, ap, Bool, true, false, arith,
}
use zeitlos.Zobj.{Tag, Obj}
use zeitlos.Msg.{Kernel, translate}
use zeitlos.Msg.Resolve.{
  Table, Memory, Places, Scratch, Resolved, write_item, claim, max_tables, resolve_slot,
  resolve_round, resolve_rounds, resolve_table, resolve_blob, resolve_tag, resolve_obj, depth,
}

module _ (m : Memory) (l : Places) (k : Kernel) (from : ℕ) where
  -- The count of tables never falls.
  abbrev Grows : (Obj → Scratch → Resolved) → Type 0
  Grows step = (o : Obj) (s : Scratch) → s.tcount ≤ (step o s).2.tcount

  module _ (step : Obj → Scratch → Resolved) (grows : Grows step) where
    slot_grows :
        (addr i : ℕ) (s : Scratch) → s.tcount ≤ (resolve_slot m l k from step addr i s).1.tcount
    unfolding resolve_slot
    slot_grows addr i s =
        let o = m.obj (translate k from addr) in omega (arith, grows o (write_item i o s))

    round_grows :
        (is_map : Bool) (t : Table) (a0 b0 i : ℕ) (s : Scratch)
        → s.tcount ≤ (resolve_round m l k from step is_map t a0 b0 i s).1.tcount
    unfolding resolve_round
    round_grows is_map t a0 b0 i s =
        let s1 = (resolve_slot m l k from step (add32 t.a (8 * i)) (a0 + i) s).1 in
        ground (
          arith,
          slot_grows (add32 t.a (8 * i)) (a0 + i) s,
          slot_grows (add32 t.b (8 * i)) (b0 + i) s1,
        )

    rounds_grow :
        (is_map : Bool) (t : Table) (a0 b0 n i : ℕ) (s : Scratch)
        → s.tcount ≤ (resolve_rounds m l k from step is_map t a0 b0 n i s).1.tcount
    unfolding resolve_rounds
    rounds_grow is_map t a0 b0 zero i s = omega arith
    rounds_grow is_map t a0 b0 (suc n) i s =
        let s1 = (resolve_round m l k from step is_map t a0 b0 i s).1 in
        ground (arith, round_grows is_map t a0 b0 i s, rounds_grow is_map t a0 b0 n (i + 1) s1)

    table_grows :
        (is_map : Bool) (tag : Tag) (val : ℕ) (s : Scratch)
        → s.tcount ≤ (resolve_table m l k from step is_map tag val s).2.tcount
    unfolding resolve_table
    table_grows is_map tag val s =
        let t = m.table (translate k from val) in
        ground (
          arith,
          rounds_grow is_map t s.icount (add32 s.icount t.len) t.len 0 (claim l is_map t.len s),
        )

    tag_grows :
        (tag : Tag) (val : ℕ) (s : Scratch)
        → s.tcount ≤ (resolve_tag m l k from step tag val s).2.tcount
    unfolding resolve_tag resolve_blob
    tag_grows Tag.blob val s = ground arith
    tag_grows Tag.list val s = table_grows false Tag.list val s
    tag_grows Tag.map val s = table_grows true Tag.map val s
    tag_grows _ val s = omega arith

  grows : (fuel : ℕ) → Grows (resolve_obj m l k from fuel)
  unfolding resolve_obj
  grows zero o s = omega arith
  grows (suc fuel) o s = tag_grows (resolve_obj m l k from fuel) (grows fuel) o.tag o.val s

  -- Two ways to resolve the parts that agree once `n` tables are claimed.
  module _ (n : ℕ) (f g : Obj → Scratch → Resolved) (f_grows : Grows f)
      (same : (o : Obj) (s : Scratch) → n ≤ s.tcount → f o s ≡ g o s) where
    slot_same :
        (addr i : ℕ) (s : Scratch)
        → n ≤ s.tcount
        → resolve_slot m l k from f addr i s ≡ resolve_slot m l k from g addr i s
    unfolding resolve_slot
    slot_same addr i s h =
        let o = m.obj (translate k from addr) in
        ap (λ (t : Resolved). (t.0, write_item i t.1 t.2)) (same o (write_item i o s) h)

    round_same :
        (is_map : Bool) (t : Table) (a0 b0 i : ℕ) (s : Scratch)
        → n ≤ s.tcount
        → resolve_round m l k from f is_map t a0 b0 i s
          ≡ resolve_round m l k from g is_map t a0 b0 i s
    unfolding resolve_round
    round_same is_map t a0 b0 i s h =
        let s1 = (resolve_slot m l k from f (add32 t.a (8 * i)) (a0 + i) s).1 in
        ground (
          arith,
          slot_grows f f_grows (add32 t.a (8 * i)) (a0 + i) s,
          slot_same (add32 t.a (8 * i)) (a0 + i) s h,
          slot_same (add32 t.b (8 * i)) (b0 + i) s1,
        )

    rounds_same :
        (is_map : Bool) (t : Table) (a0 b0 r i : ℕ) (s : Scratch)
        → n ≤ s.tcount
        → resolve_rounds m l k from f is_map t a0 b0 r i s
          ≡ resolve_rounds m l k from g is_map t a0 b0 r i s
    unfolding resolve_rounds
    rounds_same is_map t a0 b0 zero i s h = refl
    rounds_same is_map t a0 b0 (suc r) i s h =
        let s1 = (resolve_round m l k from f is_map t a0 b0 i s).1 in
        ground (
          arith,
          round_grows f f_grows is_map t a0 b0 i s,
          round_same is_map t a0 b0 i s h,
          rounds_same is_map t a0 b0 r (i + 1) s1,
        )

    -- A list or map claims a table before it resolves its parts.
    table_same :
        (is_map : Bool) (tag : Tag) (val : ℕ) (s : Scratch)
        → n ≤ s.tcount + 1
        → resolve_table m l k from f is_map tag val s ≡ resolve_table m l k from g is_map tag val s
    unfolding resolve_table
    table_same is_map tag val s h =
        let t = m.table (translate k from val) in
        ground (
          arith,
          rounds_same is_map t s.icount (add32 s.icount t.len) t.len 0 (claim l is_map t.len s),
        )

    tag_same :
        (tag : Tag) (val : ℕ) (s : Scratch)
        → n ≤ s.tcount + 1
        → resolve_tag m l k from f tag val s ≡ resolve_tag m l k from g tag val s
    unfolding resolve_tag
    tag_same Tag.list val s h = table_same false Tag.list val s h
    tag_same Tag.map val s h = table_same true Tag.map val s h
    tag_same _ val s h = refl

  -- With all tables claimed the parts are not looked at.
  table_full :
      (f g : Obj → Scratch → Resolved) (is_map : Bool) (tag : Tag) (val : ℕ) (s : Scratch)
      → max_tables ≤ s.tcount
      → resolve_table m l k from f is_map tag val s ≡ resolve_table m l k from g is_map tag val s
  unfolding resolve_table
  table_full f g is_map tag val s h = ground arith

  tag_full :
      (f g : Obj → Scratch → Resolved) (tag : Tag) (val : ℕ) (s : Scratch)
      → max_tables ≤ s.tcount
      → resolve_tag m l k from f tag val s ≡ resolve_tag m l k from g tag val s
  unfolding resolve_tag
  tag_full f g Tag.list val s h = table_full f g false Tag.list val s h
  tag_full f g Tag.map val s h = table_full f g true Tag.map val s h
  tag_full f g _ val s h = refl

  -- From `c` claimed tables, `5 - c` levels are deep enough: more fuel changes nothing.
  enough :
      (d fuel more : ℕ) (o : Obj) (s : Scratch)
      → max_tables ≤ s.tcount + d
      → d ≤ fuel
      → d ≤ more
      → resolve_obj m l k from (suc fuel) o s ≡ resolve_obj m l k from (suc more) o s
  unfolding resolve_obj
  enough zero fuel more o s h p q =
      tag_full (resolve_obj m l k from fuel) (resolve_obj m l k from more) o.tag o.val s
        (omega arith)
  enough (suc d) zero more o s h p q = absurd (omega arith)
  enough (suc d) (suc fuel) zero o s h p q = absurd (omega arith)
  enough (suc d) (suc fuel) (suc more) o s h p q =
      tag_same (max_tables - d) (resolve_obj m l k from (suc fuel))
        (resolve_obj m l k from (suc more)) (grows (suc fuel))
        (λ o' s' h'. enough d fuel more o' s' (omega arith) (omega arith) (omega arith)) o.tag o.val
        s (omega arith)

  -- The resolution of any object, in any memory, is complete at the depth that the reader uses: with
  -- every greater fuel it comes out the same.
  pub resolve_obj_ends :
      (extra : ℕ) (o : Obj) (s : Scratch)
      → resolve_obj m l k from (depth + extra) o s ≡ resolve_obj m l k from depth o s
  resolve_obj_ends extra o s =
      let e : depth + extra ≡ suc (4 + extra) = omega arith in
      rw e (enough 4 (4 + extra) 4 o s (omega arith) (omega arith) (omega arith))
