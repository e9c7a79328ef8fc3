-- ===== src/Msg/Resolve/Budget.antt =====
-- sw/os/msg.c: the scratch arrays of `z_resolve_obj`. Lists and maps of sane length stay inside them;
-- the 32-bit sizes of longer ones wrap, and those write outside.
use zeitlos.Prelude.{ℕ, zero, suc, ◌+◌, ◌*◌, ◌^◌, ◌≤◌, ◌<◌, add32, ◌≡◌, Bool, true, false, arith}
use zeitlos.Zobj.{Tag, Obj}
use zeitlos.Msg.{Kernel, translate}
use zeitlos.Msg.Resolve.{
  Table, Memory, Places, Scratch, Resolved, write_item, over_budget, claim, max_tables, max_items,
  max_blobs, resolve_slot, resolve_round, resolve_rounds, resolve_table, resolve_blob, resolve_tag,
  resolve_obj,
}

-- The counters are within the arrays, and nothing has been written outside them.
pub record InBudget (s : Scratch) : Type 0 where
  pub tables : s.tcount ≤ max_tables
  pub items : s.icount ≤ max_items
  pub blobs : s.bcount ≤ max_blobs
  pub inside : s.overrun ≡ false

-- No list or map of the sender has 2^30 entries.
abbrev pub Modest : Memory → Type 0
Modest m = (p : ℕ) → (m.table p).len < 2 ^ 30

module _ (m : Memory) (l : Places) (k : Kernel) (from : ℕ) where
  abbrev Keeps : (Obj → Scratch → Resolved) → Type 0
  Keeps step = (o : Obj) (s : Scratch) → InBudget s → InBudget (step o s).2

  write_item-InBudget :
      (i : ℕ) (o : Obj) (s : Scratch) → i < max_items → InBudget s → InBudget (write_item i o s)
  write_item-InBudget i o s h v = ground arith

  module _ (modest : Modest m) (step : Obj → Scratch → Resolved) (keeps : Keeps step) where
    slot-InBudget :
        (addr i : ℕ) (s : Scratch)
        → i < max_items
        → InBudget s
        → InBudget (resolve_slot m l k from step addr i s).1
    unfolding resolve_slot
    slot-InBudget addr i s h v =
        let o = m.obj (translate k from addr) in
        let r = step o (write_item i o s) in
        write_item-InBudget i r.1 r.2 h (keeps o (write_item i o s) (write_item-InBudget i o s h v))

    round-InBudget :
        (is_map : Bool) (t : Table) (a0 b0 i : ℕ) (s : Scratch)
        → a0 + i < max_items
        → (is_map ≡ true → b0 + i < max_items)
        → InBudget s
        → InBudget (resolve_round m l k from step is_map t a0 b0 i s).1
    unfolding resolve_round
    round-InBudget is_map t a0 b0 i s ha hb v =
        let s1 = (resolve_slot m l k from step (add32 t.a (8 * i)) (a0 + i) s).1 in
        ground (
          arith,
          slot-InBudget (add32 t.a (8 * i)) (a0 + i) s ha v,
          slot-InBudget (add32 t.b (8 * i)) (b0 + i) s1,
          hb,
        )

    rounds-InBudget :
        (is_map : Bool) (t : Table) (a0 b0 n i : ℕ) (s : Scratch)
        → a0 + i + n ≤ max_items
        → (is_map ≡ true → b0 + i + n ≤ max_items)
        → InBudget s
        → InBudget (resolve_rounds m l k from step is_map t a0 b0 n i s).1
    unfolding resolve_rounds
    rounds-InBudget is_map t a0 b0 zero i s ha hb v = v
    rounds-InBudget is_map t a0 b0 (suc n) i s ha hb v =
        let s1 = (resolve_round m l k from step is_map t a0 b0 i s).1 in
        let now = round-InBudget is_map t a0 b0 i s (omega arith) (λ e. omega (arith, hb e)) v in
        let later =
          rounds-InBudget is_map t a0 b0 n (i + 1) s1 (omega arith) (λ e. omega (arith, hb e)) in
        ground (arith, now, later)

    claim-InBudget :
        (is_map : Bool) (len : ℕ) (s : Scratch)
        → len < 2 ^ 30
        → over_budget is_map len s ≡ false
        → InBudget s
        → InBudget (claim l is_map len s)
          × (s.icount + 0 + len ≤ max_items)
          × (is_map ≡ true → add32 s.icount len + 0 + len ≤ max_items)
    claim-InBudget true len s small fits v = (ground arith, ground arith, λ e. ground arith)
    claim-InBudget false len s small fits v = (ground arith, ground arith, λ e. cc)

    table-InBudget :
        (is_map : Bool) (tag : Tag) (val : ℕ) (s : Scratch)
        → InBudget s
        → InBudget (resolve_table m l k from step is_map tag val s).2
    unfolding resolve_table
    table-InBudget is_map tag val s v =
        let t = m.table (translate k from val) in
        ground (arith, filled t (modest (translate k from val)))
      where
        filled :
            (t : Table)
            → t.len < 2 ^ 30
            → over_budget is_map t.len s ≡ false
            → InBudget
                (resolve_rounds m l k from step is_map t s.icount
                  (add32 s.icount t.len)
                  t.len
                  0
                  (claim l is_map t.len s)).1
        filled t small fits =
            let c = claim-InBudget is_map t.len s small fits v in
            rounds-InBudget is_map t s.icount (add32 s.icount t.len) t.len 0
              (claim l is_map t.len s) c.1 c.2 c.0

    tag-InBudget :
        (tag : Tag) (val : ℕ) (s : Scratch)
        → InBudget s
        → InBudget (resolve_tag m l k from step tag val s).2
    unfolding resolve_tag resolve_blob
    tag-InBudget Tag.blob val s v = ground arith
    tag-InBudget Tag.list val s v = table-InBudget false Tag.list val s v
    tag-InBudget Tag.map val s v = table-InBudget true Tag.map val s v
    tag-InBudget _ val s v = v

  -- With tables of sane length no resolution writes outside the scratch arrays or counts past their
  -- ends, whatever else the sender's memory holds and whether the resolution succeeds or fails.
  pub resolve_obj-InBudget :
      (fuel : ℕ) (o : Obj) (s : Scratch)
      → Modest m
      → InBudget s
      → InBudget (resolve_obj m l k from fuel o s).2
  unfolding resolve_obj
  resolve_obj-InBudget zero o s modest v = v
  resolve_obj-InBudget (suc fuel) o s modest v =
      tag-InBudget modest (resolve_obj m l k from fuel)
        (λ o' s' v'. resolve_obj-InBudget fuel o' s' modest v') o.tag o.val s v

-- A write outside the array is not undone.
module _ (m : Memory) (l : Places) (k : Kernel) (from : ℕ) where
  abbrev Stays : (Obj → Scratch → Resolved) → Type 0
  Stays step = (o : Obj) (s : Scratch) → s.overrun ≡ true → (step o s).2.overrun ≡ true

  module _ (step : Obj → Scratch → Resolved) (stays : Stays step) where
    slot_stays :
        (addr i : ℕ) (s : Scratch)
        → s.overrun ≡ true
        → (resolve_slot m l k from step addr i s).1.overrun ≡ true
    unfolding resolve_slot
    slot_stays addr i s h =
        let o = m.obj (translate k from addr) in ground (arith, stays o (write_item i o s))

    round_stays :
        (is_map : Bool) (t : Table) (a0 b0 i : ℕ) (s : Scratch)
        → s.overrun ≡ true
        → (resolve_round m l k from step is_map t a0 b0 i s).1.overrun ≡ true
    unfolding resolve_round
    round_stays is_map t a0 b0 i s h =
        let s1 = (resolve_slot m l k from step (add32 t.a (8 * i)) (a0 + i) s).1 in
        ground (
          arith,
          slot_stays (add32 t.a (8 * i)) (a0 + i) s h,
          slot_stays (add32 t.b (8 * i)) (b0 + i) s1,
        )

    rounds_stay :
        (is_map : Bool) (t : Table) (a0 b0 n i : ℕ) (s : Scratch)
        → s.overrun ≡ true
        → (resolve_rounds m l k from step is_map t a0 b0 n i s).1.overrun ≡ true
    unfolding resolve_rounds
    rounds_stay is_map t a0 b0 zero i s h = h
    rounds_stay is_map t a0 b0 (suc n) i s h =
        let s1 = (resolve_round m l k from step is_map t a0 b0 i s).1 in
        ground (arith, round_stays is_map t a0 b0 i s h, rounds_stay is_map t a0 b0 n (i + 1) s1)

    table_stays :
        (is_map : Bool) (tag : Tag) (val : ℕ) (s : Scratch)
        → s.overrun ≡ true
        → (resolve_table m l k from step is_map tag val s).2.overrun ≡ true
    unfolding resolve_table
    table_stays is_map tag val s h =
        let t = m.table (translate k from val) in
        ground (
          arith,
          rounds_stay is_map t s.icount (add32 s.icount t.len) t.len 0 (claim l is_map t.len s) h,
        )

    tag_stays :
        (tag : Tag) (val : ℕ) (s : Scratch)
        → s.overrun ≡ true
        → (resolve_tag m l k from step tag val s).2.overrun ≡ true
    unfolding resolve_tag resolve_blob
    tag_stays Tag.blob val s h = ground arith
    tag_stays Tag.list val s h = table_stays false Tag.list val s h
    tag_stays Tag.map val s h = table_stays true Tag.map val s h
    tag_stays _ val s h = h

  stays : (fuel : ℕ) → Stays (resolve_obj m l k from fuel)
  unfolding resolve_obj
  stays zero o s h = h
  stays (suc fuel) o s h = tag_stays (resolve_obj m l k from fuel) (stays fuel) o.tag o.val s h

  -- The first key of a table.
  abbrev pub first_key : Table → Obj
  first_key t = m.obj (translate k from (add32 t.a 0))
