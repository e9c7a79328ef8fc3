-- ===== src/Zobj/Tree/Equal.antt =====
-- sw/common/zobj.c: a deep copy is equal to what was copied.
use zeitlos.Prelude.{ℕ, ◌+◌, ◌≡◌, refl, Bool, true, none, some, length, max, str_eq_refl, ==_iff}
use zeitlos.Zobj.Tree.{
  Value, z_none, z_retval, z_uint32, z_int32, z_float32, z_str, z_blob, z_list, z_map, z_null_list,
  z_null_map, z_other, Items, no_items, item, Entries, no_entries, entry, z_obj_str, z_obj_blob,
  z_obj_copy, copy_items, copy_entries, same_bytes, z_obj_equal, equal_items, equal_entries,
}

-- No payload in the tree is null, and every tag is known.
unfoldable mutual
  pub IsWhole : Value → Type 0
  IsWhole (z_str none) = ⊥
  IsWhole (z_blob none) = ⊥
  IsWhole z_null_list = ⊥
  IsWhole z_null_map = ⊥
  IsWhole (z_other v) = ⊥
  IsWhole (z_list xs) = AllWhole xs
  IsWhole (z_map es) = EntriesWhole es
  IsWhole _ = Unit {0}

  pub AllWhole : Items → Type 0
  AllWhole no_items = Unit {0}
  AllWhole (item x xs) = IsWhole x × AllWhole xs

  pub EntriesWhole : Entries → Type 0
  EntriesWhole no_entries = Unit {0}
  EntriesWhole (entry k v es) = IsWhole k × IsWhole v × EntriesWhole es

module _ (heap : ℕ → Bool) (near : ℕ → ℕ → Bool) (granted : (n : ℕ) → heap n ≡ true)
    (close : (x : ℕ) → near x x ≡ true) where
  mutual
    unfolding z_obj_equal equal_items equal_entries z_obj_copy copy_items copy_entries z_obj_str
        z_obj_blob same_bytes IsWhole AllWhole EntriesWhole

    equal-copy : (v : Value) → IsWhole v → z_obj_equal near v (z_obj_copy heap v) ≡ true
    equal-copy z_none w = refl
    equal-copy (z_retval x) w = (==_iff x x).1 refl
    equal-copy (z_uint32 x) w = (==_iff x x).1 refl
    equal-copy (z_int32 x) w = (==_iff x x).1 refl
    equal-copy (z_float32 x) w = close x
    equal-copy (z_str (some s)) w = rw (granted (length s + 1)) (str_eq_refl s)
    equal-copy (z_str none) w = elim w [ ]
    equal-copy (z_blob (some s)) w = rw (granted 8, granted (max 1 (length s))) (str_eq_refl s)
    equal-copy (z_blob none) w = elim w [ ]
    equal-copy (z_list xs) w = items-copy xs w
    equal-copy (z_map es) w = entries-copy es w
    equal-copy z_null_list w = elim w [ ]
    equal-copy z_null_map w = elim w [ ]
    equal-copy (z_other x) w = elim w [ ]

    items-copy : (xs : Items) → AllWhole xs → equal_items near xs (copy_items heap xs) ≡ true
    items-copy no_items w = refl
    items-copy (item x xs) w = rw (equal-copy x w.0) (items-copy xs w.1)

    entries-copy :
        (es : Entries) → EntriesWhole es → equal_entries near es (copy_entries heap es) ≡ true
    entries-copy no_entries w = refl
    entries-copy (entry k v es) w = rw (equal-copy k w.0, equal-copy v w.1) (entries-copy es w.2)
