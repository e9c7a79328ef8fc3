-- ===== src/Zobj/Tree.antt =====
-- Objects as the calls of sw/common/zobj.c see them: trees, whose parts no other object shares. `heap`
-- says which requests of bytes are granted; the tables of lists and maps, whose `malloc` the code
-- does not test, always are. A null payload is `none`.
pub mod Equal
pub mod Maps
mod Tests
use zeitlos.Prelude.{
  ℕ, zero, suc, ◌+◌, Bool, true, false, ◌&&◌, ◌||◌, not, Option, none, some, List, [], ◌∷◌, ltb,
  ◌==◌, if◌then◌else◌, length, max, Bytes, str_eq,
}

mutual
  -- `z_obj_t`; `z_other` has a tag that is none of the enumeration's. A float is its word.
  pub data Value : Type 0 where
    z_none : Value
    z_retval : ℕ → Value
    z_uint32 : ℕ → Value
    z_int32 : ℕ → Value
    z_float32 : ℕ → Value
    z_str : Option Bytes → Value
    z_blob : Option Bytes → Value
    z_list : Items → Value
    z_map : Entries → Value
    z_null_list : Value
    z_null_map : Value
    z_other : ℕ → Value

  pub data Items : Type 0 where
    no_items : Items
    item : Value → Items → Items

  pub data Entries : Type 0 where
    no_entries : Entries
    entry : Value → Value → Entries → Entries

pub z_obj_str : (ℕ → Bool) → Bytes → Value
z_obj_str heap s = if heap (length s + 1) then z_str (some s) else z_none

pub z_obj_blob : (ℕ → Bool) → Bytes → Value
z_obj_blob heap octets =
    if heap 8 && heap (max 1 (length octets)) then z_blob (some octets) else z_none

mutual
  pub z_obj_copy : (ℕ → Bool) → Value → Value
  z_obj_copy heap (z_str (some s)) = z_obj_str heap s
  z_obj_copy heap (z_str none) = z_obj_str heap []
  z_obj_copy heap (z_blob (some octets)) = z_obj_blob heap octets
  z_obj_copy heap (z_blob none) = z_none
  z_obj_copy heap (z_list xs) = z_list (copy_items heap xs)
  z_obj_copy heap (z_map es) = z_map (copy_entries heap es)
  z_obj_copy heap z_null_list = z_none
  z_obj_copy heap z_null_map = z_none
  z_obj_copy heap (z_other v) = z_none
  z_obj_copy heap z_none = z_none
  z_obj_copy heap (z_retval v) = z_retval v
  z_obj_copy heap (z_uint32 v) = z_uint32 v
  z_obj_copy heap (z_int32 v) = z_int32 v
  z_obj_copy heap (z_float32 v) = z_float32 v

  pub copy_items : (ℕ → Bool) → Items → Items
  copy_items heap no_items = no_items
  copy_items heap (item x xs) = item (z_obj_copy heap x) (copy_items heap xs)

  pub copy_entries : (ℕ → Bool) → Entries → Entries
  copy_entries heap no_entries = no_entries
  copy_entries heap (entry k v es) =
      entry (z_obj_copy heap k) (z_obj_copy heap v) (copy_entries heap es)

-- Equal texts, or both null.
pub same_bytes : Option Bytes → Option Bytes → Bool
same_bytes none none = true
same_bytes (some a) (some b) = str_eq a b
same_bytes _ _ = false

-- `near` compares two floats. Tables of different lengths differ, as one ends before the other.
mutual
  pub z_obj_equal : (ℕ → ℕ → Bool) → Value → Value → Bool
  z_obj_equal near z_none z_none = true
  z_obj_equal near (z_retval a) (z_retval b) = a == b
  z_obj_equal near (z_uint32 a) (z_uint32 b) = a == b
  z_obj_equal near (z_int32 a) (z_int32 b) = a == b
  z_obj_equal near (z_float32 a) (z_float32 b) = near a b
  z_obj_equal near (z_str a) (z_str b) = same_bytes a b
  z_obj_equal near (z_blob a) (z_blob b) = same_bytes a b
  z_obj_equal near (z_list xs) (z_list ys) = equal_items near xs ys
  z_obj_equal near (z_map es) (z_map fs) = equal_entries near es fs
  z_obj_equal near z_null_list z_null_list = true
  z_obj_equal near z_null_map z_null_map = true
  z_obj_equal near _ _ = false

  pub equal_items : (ℕ → ℕ → Bool) → Items → Items → Bool
  equal_items near no_items no_items = true
  equal_items near (item x xs) (item y ys) = z_obj_equal near x y && equal_items near xs ys
  equal_items near _ _ = false

  pub equal_entries : (ℕ → ℕ → Bool) → Entries → Entries → Bool
  equal_entries near no_entries no_entries = true
  equal_entries near (entry k v es) (entry l w fs) =
      z_obj_equal near k l && (z_obj_equal near v w && equal_entries near es fs)
  equal_entries near _ _ = false

abbrev pub key_is : Bytes → Value → Bool
key_is key (z_str (some s)) = str_eq s key
key_is key _ = false

abbrev pub is_z_none : Value → Bool
is_z_none z_none = true
is_z_none _ = false

pub find_entry : Bytes → Entries → Option Value
find_entry key no_entries = none
find_entry key (entry k v es) = if key_is key k then some v else find_entry key es

pub z_map_find : Bytes → Value → Option Value
z_map_find key (z_map es) = find_entry key es
z_map_find key _ = none

-- The first loop: an entry of the key gets the value.
pub update : Bytes → Value → Entries → Option Entries
update key v no_entries = none
update key v (entry k w es) =
    let rest : Option Entries = elim (update key v es) [
      | none ↦ none
      | some fs ↦ some (entry k w fs)
    ] in
    if key_is key k then some (entry k v es) else rest

-- The second: the first entry with no key is taken.
pub insert : Value → Value → Entries → Option Entries
insert k v no_entries = none
insert k v (entry l w es) =
    let rest : Option Entries = elim (insert k v es) [
      | none ↦ none
      | some fs ↦ some (entry l w fs)
    ] in
    if is_z_none l then some (entry k v es) else rest

-- Which of the two loops found a place, the first one first.
abbrev pub placed : Option Entries → Option Entries → Entries → Bool × Entries
placed (some fs) gs es = (true, fs)
placed none (some fs) es = (true, fs)
placed none none es = (false, es)

pub z_map_set : (ℕ → Bool) → Bytes → Value → Value → Bool × Value
z_map_set heap key v (z_map es) =
    let (done, fs) =
      placed (update key (z_obj_copy heap v) es)
        (insert (z_obj_str heap key) (z_obj_copy heap v) es) es in
    (done, z_map fs)
z_map_set heap key v m = (false, m)

abbrev pub append_item : Value → Items → Option Items
append_item v no_items = none
append_item v (item x xs) =
    let rest : Option Items = elim (append_item v xs) [
      | none ↦ none
      | some ys ↦ some (item x ys)
    ] in
    if is_z_none x then some (item v xs) else rest

abbrev pub z_list_append : (ℕ → Bool) → Value → Value → Bool × Value
z_list_append heap v (z_list xs) = elim (append_item (z_obj_copy heap v) xs) [
  | some ys ↦ (true, z_list ys)
  | none ↦ (false, z_list xs)
]
z_list_append heap v l = (false, l)

-- `calloc` leaves objects of the type `Z_NONE`.
abbrev pub blank_items : ℕ → Items
blank_items zero = no_items
blank_items (suc n) = item z_none (blank_items n)

abbrev pub blank_entries : ℕ → Entries
blank_entries zero = no_entries
blank_entries (suc n) = entry z_none z_none (blank_entries n)

abbrev pub z_obj_list : ℕ → Value
z_obj_list n = z_list (blank_items n)

abbrev pub z_obj_map : ℕ → Value
z_obj_map n = z_map (blank_entries n)

abbrev pub nth_item : Items → ℕ → Option Value
nth_item no_items i = none
nth_item (item x xs) zero = some x
nth_item (item x xs) (suc i) = nth_item xs i

abbrev pub nth_entry : Entries → ℕ → Option (Value × Value)
nth_entry no_entries i = none
nth_entry (entry k v es) zero = some (k, v)
nth_entry (entry k v es) (suc i) = nth_entry es i

abbrev pub z_list_get : Value → ℕ → Option Value
z_list_get (z_list xs) i = nth_item xs i
z_list_get _ i = none

abbrev pub z_map_get_key : Value → ℕ → Option Value
z_map_get_key (z_map es) i = elim (nth_entry es i) [ none ↦ none | some e ↦ some e.0 ]
z_map_get_key _ i = none

abbrev pub z_map_get_val : Value → ℕ → Option Value
z_map_get_val (z_map es) i = elim (nth_entry es i) [ none ↦ none | some e ↦ some e.1 ]
z_map_get_val _ i = none

abbrev pub items_len : Items → ℕ
items_len no_items = 0
items_len (item x xs) = suc (items_len xs)

abbrev pub entries_len : Entries → ℕ
entries_len no_entries = 0
entries_len (entry k v es) = suc (entries_len es)

abbrev pub z_obj_size : Value → ℕ
z_obj_size (z_list xs) = items_len xs
z_obj_size (z_map es) = entries_len es
z_obj_size (z_str (some s)) = length s
z_obj_size (z_blob (some octets)) = length octets
z_obj_size _ = 0

-- How many blocks a release gives back to the heap: a text's, a blob's header and data, a table with
-- its arrays, and those of all parts.
mutual
  pub frees : Value → ℕ
  frees (z_str (some s)) = 1
  frees (z_blob (some octets)) = 2
  frees (z_list xs) = 2 + frees_items xs
  frees (z_map es) = 3 + frees_entries es
  frees _ = 0

  pub frees_items : Items → ℕ
  frees_items no_items = 0
  frees_items (item x xs) = frees x + frees_items xs

  pub frees_entries : Entries → ℕ
  frees_entries no_entries = 0
  frees_entries (entry k v es) = frees k + (frees v + frees_entries es)

-- `z_obj_free`: the object afterwards, and the blocks that were freed.
abbrev pub z_obj_free : Value → Value × ℕ
z_obj_free v = (z_none, frees v)
