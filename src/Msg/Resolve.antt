-- ===== src/Msg/Resolve.antt =====
-- `z_resolve_obj` and `k_msg_read` (sw/os/msg.c): the pointers of a payload are rebuilt in the scratch
-- arrays of the reader's message. The recursion over the sender's objects runs on fuel.
pub mod Fuel
pub mod Budget
use zeitlos.Prelude.{
  ℕ, zero, suc, ◌+◌, ◌*◌, ◌%◌, Bool, true, false, ◌||◌, Option, none, some, List, ltb, leb, ◌==◌,
  if◌then◌else◌, set, add32, u32_mod,
}
use zeitlos.Zobj.{Tag, Obj}
use zeitlos.Msg.{Rv, ok, fail, Kernel, Envelope, translate, read_envelope}

-- `z_obj_table_t` and `z_blob_t`, pointers as words.
pub record Table : Type 0 where
  pub len : ℕ
  pub a : ℕ
  pub b : ℕ

pub record Blob : Type 0 where
  pub len : ℕ
  pub bytes : ℕ

-- What stands at the physical addresses of the sender's memory.
pub record Memory : Type 0 where
  pub table : ℕ → Table
  pub blob : ℕ → Blob
  pub obj : ℕ → Obj

abbrev pub max_tables : ℕ
max_tables = 4

abbrev pub max_items : ℕ
max_items = 16

abbrev pub max_blobs : ℕ
max_blobs = 2

-- Where the three scratch arrays of the message stand.
pub record Places : Type 0 where
  pub tables_at : ℕ
  pub items_at : ℕ
  pub blobs_at : ℕ

-- The scratch arrays and the counters. `overrun` records a write outside the array of items, which
-- in C goes to whatever stands behind it.
pub record Scratch : Type 0 where
  pub tables : List Table
  pub items : List Obj
  pub blobs : List Blob
  pub tcount : ℕ
  pub icount : ℕ
  pub bcount : ℕ
  pub overrun : Bool

abbrev pub write_item : ℕ → Obj → Scratch → Scratch
write_item i o s = record s {
  items = set s.items i o;
  overrun = if ltb i max_items then s.overrun else true;
}

-- What a resolution returns: the status, the object and the scratch.
abbrev pub Resolved : Type 0
Resolved = Rv × Obj × Scratch

-- The room that a list or a map takes: a 32-bit product.
abbrev pub need : Bool → ℕ → ℕ
need is_map len = len * (if is_map then 2 else 1) % u32_mod

abbrev pub over_budget : Bool → ℕ → Scratch → Bool
over_budget is_map len s =
    leb max_tables s.tcount || ltb max_items (add32 s.icount (need is_map len))

-- A list or map that fits claims a table and its items.
abbrev pub claim : Places → Bool → ℕ → Scratch → Scratch
claim l is_map len s =
    let b = if is_map then add32 l.items_at (8 * add32 s.icount len) else 0 in
    record s {
      tables =
          set s.tables s.tcount (record { len = len; a = add32 l.items_at (8 * s.icount); b = b });
      tcount = s.tcount + 1;
      icount = if is_map then add32 (add32 s.icount len) len else add32 s.icount len;
    }

module _ (m : Memory) (l : Places) (k : Kernel) (from : ℕ) where
  -- One slot: copied from the sender, then resolved in place.
  pub resolve_slot : (Obj → Scratch → Resolved) → ℕ → ℕ → Scratch → Rv × Scratch
  resolve_slot step addr i s =
      let o = m.obj (translate k from addr) in
      let (r, o', s') = step o (write_item i o s) in (r, write_item i o' s')

  -- One round of the loop: the key's slot, and a map's value.
  pub resolve_round : (Obj → Scratch → Resolved) → Bool → Table → ℕ → ℕ → ℕ → Scratch → Rv × Scratch
  resolve_round step is_map t a0 b0 i s =
      let (r, s') = resolve_slot step (add32 t.a (8 * i)) (a0 + i) s in
      elim r [
        | fail ↦ (fail, s')
        | ok ↦ if is_map then resolve_slot step (add32 t.b (8 * i)) (b0 + i) s' else (ok, s')
      ]

  -- The loop, with the rounds that are left.
  pub resolve_rounds :
      (Obj → Scratch → Resolved) → Bool → Table → ℕ → ℕ → ℕ → ℕ → Scratch → Rv × Scratch
  resolve_rounds step is_map t a0 b0 zero i s = (ok, s)
  resolve_rounds step is_map t a0 b0 (suc n) i s =
      let (r, s') = resolve_round step is_map t a0 b0 i s in
      elim r [ fail ↦ (fail, s') | ok ↦ resolve_rounds step is_map t a0 b0 n (i + 1) s' ]

  -- The case of a list or a map.
  pub resolve_table : (Obj → Scratch → Resolved) → Bool → Tag → ℕ → Scratch → Resolved
  resolve_table step is_map tag val s =
      let src = translate k from val in
      if src == 0
      then (ok, record { tag = Tag.none; val = val }, s)
      else (let t = m.table src in
          if over_budget is_map t.len s
          then (fail, record { tag = Tag.none; val = val }, s)
          else (let (r, s') =
                resolve_rounds step is_map t s.icount (add32 s.icount t.len) t.len 0
                  (claim l is_map t.len s) in
              elim r [
                | fail ↦ (fail, record { tag = Tag.none; val = val }, s')
                | ok ↦ (ok, record { tag = tag; val = add32 l.tables_at (12 * s.tcount) }, s')
              ]))

  -- The case of a blob: its header is rebuilt, its bytes are not copied.
  pub resolve_blob : ℕ → Scratch → Resolved
  resolve_blob val s =
      let src = translate k from val in
      if src == 0
      then (ok, record { tag = Tag.none; val = val }, s)
      else if leb max_blobs s.bcount
      then (fail, record { tag = Tag.none; val = val }, s)
      else (let b = m.blob src in
          (
            ok,
            record { tag = Tag.blob; val = add32 l.blobs_at (8 * s.bcount) },
            record s {
              blobs =
                  set s.blobs s.bcount (record { len = b.len; bytes = translate k from b.bytes });
              bcount = s.bcount + 1;
            },
          ))

  -- The switch on the type, over what resolves the parts.
  pub resolve_tag : (Obj → Scratch → Resolved) → Tag → ℕ → Scratch → Resolved
  resolve_tag step Tag.str val s = (ok, record { tag = Tag.str; val = translate k from val }, s)
  resolve_tag step Tag.blob val s = resolve_blob val s
  resolve_tag step Tag.list val s = resolve_table step false Tag.list val s
  resolve_tag step Tag.map val s = resolve_table step true Tag.map val s
  resolve_tag step Tag.other val s = (ok, record { tag = Tag.none; val = val }, s)
  resolve_tag step tag val s = (ok, record { tag = tag; val = val }, s)

  -- `z_resolve_obj`.
  pub resolve_obj : ℕ → Obj → Scratch → Resolved
  resolve_obj zero o s = (fail, record { tag = Tag.none; val = o.val }, s)
  resolve_obj (suc fuel) o s = resolve_tag (resolve_obj fuel) o.tag o.val s

-- Each list or map on the way down claims a table, so that one level more than there are tables is
-- deep enough.
abbrev pub depth : ℕ
depth = 5

-- `k_msg_read`'s fresh counters.
abbrev pub fresh : Scratch → Scratch
fresh s = record s { tcount = 0; icount = 0; bcount = 0 }

-- The message of an envelope that was read: its payload is resolved.
unfoldable pub delivered :
    Memory → Places → Scratch → Option Envelope × Kernel → Option (Envelope × Scratch) × Kernel
delivered m l s (none, k) = (none, k)
delivered m l s (some env, k) =
    let (_, o, s') = resolve_obj m l k env.from depth env.obj (fresh s) in
    (some (record env { obj = o }, s'), k)

-- `k_msg_read`: the envelope with its payload resolved, and the scratch; `none` for a failure.
unfoldable pub k_msg_read :
    Memory → Places → Scratch → Kernel → Option (Envelope × Scratch) × Kernel
k_msg_read m l s k = delivered m l s (read_envelope k)
