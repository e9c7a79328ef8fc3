-- ===== src/Zobj/Tree/Tests.antt =====
-- sw/common/zobj.c: an address book, and the theorems there.
use zeitlos.Prelude.{ℕ, ◌≡◌, refl, Bool, true, false, ◌&&◌, some, [], ◌∷◌, if◌then◌else◌, str_eq}
use zeitlos.Zobj.Tree.{
  Value, z_none, z_uint32, z_str, z_list, z_map, no_items, item, no_entries, entry, z_obj_copy,
  z_map_find, z_map_set, find_entry, update, insert, z_obj_str,
}
use zeitlos.Zobj.Tree.Maps.{z_map_find-z_map_set}

-- A heap with room, and one that refuses texts of more than three bytes.
abbrev roomy : ℕ → Bool
roomy n = true

abbrev book : Value
book = z_map (entry (z_str (some (105 ∷ []))) (z_uint32 7) (entry z_none z_none no_entries))

-- The second key is new, the third has no room.
three_keys :
    let (_, a) = z_map_set roomy (105 ∷ []) (z_uint32 8) book in
    let (b, c) = z_map_set roomy (106 ∷ []) (z_uint32 9) a in
    let (d, e) = z_map_set roomy (107 ∷ []) (z_uint32 9) c in
    (z_map_find (105 ∷ []) e ≡ some (z_uint32 8)) × (b ≡ true) × (d ≡ false)
unfolding z_map_set z_map_find find_entry update insert z_obj_str z_obj_copy str_eq
three_keys = (refl, refl, refl)

z_map_find-z_map_set_example :
    let (done, n) = z_map_set roomy (106 ∷ []) (z_uint32 9) book in
    z_map_find (106 ∷ []) n ≡ (
      if done && str_eq (106 ∷ []) (106 ∷ [])
      then some (z_obj_copy roomy (z_uint32 9))
      else z_map_find (106 ∷ []) book)
z_map_find-z_map_set_example =
    z_map_find-z_map_set roomy (106 ∷ []) (106 ∷ []) (z_uint32 9) book refl

abbrev nested : Value
nested = z_list (item (z_uint32 1) (item (z_str (some (105 ∷ []))) no_items))
