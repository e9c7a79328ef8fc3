-- ===== src/Zobj/Tree/Maps.antt =====
-- sw/common/zobj.c: what `z_map_find` finds after `z_map_set`.
use zeitlos.Prelude.{
  ℕ, ◌+◌, ◌≡◌, ◌∙◌, refl, ap, Bool, true, false, ◌&&◌, Option, none, some, if◌then◌else◌, length,
  subst, Bytes, str_eq, str_eq-eq, Bool-cases, Option-cases, inl, inr,
}
use zeitlos.Zobj.Tree.{
  Value, z_none, z_retval, z_uint32, z_int32, z_float32, z_str, z_blob, z_list, z_map, z_null_list,
  z_null_map, z_other, Entries, no_entries, entry, z_obj_str, z_obj_copy, key_is, is_z_none,
  find_entry, z_map_find, update, insert, z_map_set,
}

-- A value is the key of one text at most.
key_is-str_eq :
    (key other : Bytes) (k : Value) → key_is key k ≡ true → key_is other k ≡ str_eq key other
key_is-str_eq key other (z_str (some s)) h = ap (λ s. str_eq s other) (str_eq-eq s key h)
key_is-str_eq key other (z_str none) h = cc
key_is-str_eq key other z_none h = cc
key_is-str_eq key other (z_retval v) h = cc
key_is-str_eq key other (z_uint32 v) h = cc
key_is-str_eq key other (z_int32 v) h = cc
key_is-str_eq key other (z_float32 v) h = cc
key_is-str_eq key other (z_blob v) h = cc
key_is-str_eq key other (z_list v) h = cc
key_is-str_eq key other (z_map v) h = cc
key_is-str_eq key other z_null_list h = cc
key_is-str_eq key other z_null_map h = cc
key_is-str_eq key other (z_other v) h = cc

empty_key : (key : Bytes) (k : Value) → is_z_none k ≡ true → key_is key k ≡ false
empty_key key (z_str (some s)) h = cc
empty_key key (z_str none) h = refl
empty_key key z_none h = refl
empty_key key (z_retval v) h = refl
empty_key key (z_uint32 v) h = refl
empty_key key (z_int32 v) h = refl
empty_key key (z_float32 v) h = refl
empty_key key (z_blob v) h = refl
empty_key key (z_list v) h = refl
empty_key key (z_map v) h = refl
empty_key key z_null_list h = refl
empty_key key z_null_map h = refl
empty_key key (z_other v) h = refl

-- What a lookup of `other` finds once `key` has the value `v`.
abbrev looked_up : Bytes → Bytes → Value → Entries → Option Value
looked_up key other v es = if str_eq key other then some v else find_entry other es

-- A lookup goes past an entry, or ends there, before and after a change behind it.
passes :
    (key other : Bytes) (v k w : Value) (es gs : Entries)
    → key_is key k ≡ false
    → find_entry other gs ≡ looked_up key other v es
    → find_entry other (entry k w gs) ≡ looked_up key other v (entry k w es)
unfolding find_entry
passes key other v k w es gs e h = elim (Bool-cases (key_is other k)) [
  | inl g ↦ elim (Bool-cases (str_eq key other)) [
    | inl q ↦
        let same : key ≡ other = str_eq-eq key other q in
        let clash : key_is key k ≡ true = ap (λ s. key_is s k) same ∙ g in cc
    | inr q ↦ rw (g, q) refl
  ]
  | inr g ↦ rw g h
]

-- Where the entry with the key takes the value.
replaces :
    (key other : Bytes) (v k w : Value) (es : Entries)
    → key_is other k ≡ str_eq key other
    → find_entry other (entry k v es) ≡ looked_up key other v (entry k w es)
unfolding find_entry
replaces key other v k w es e = elim (Bool-cases (str_eq key other)) [
  | inl q ↦ rw (e, q) refl
  | inr q ↦ rw (e, q) refl
]

find-update :
    (key other : Bytes) (v : Value) (es fs : Entries)
    → update key v es ≡ some fs
    → find_entry other fs ≡ looked_up key other v es
unfolding update
find-update key other v no_entries fs h = cc
find-update key other v (entry k w es) fs h = elim (Bool-cases (key_is key k)) [
  | inl e ↦
      let at : entry k v es ≡ fs = cc in
      subst (λ f. find_entry other f ≡ looked_up key other v (entry k w es)) at
        (replaces key other v k w es (key_is-str_eq key other k e))
  | inr e ↦ elim (Option-cases (update key v es)) [
    | inl n ↦ cc
    | inr (gs, n) ↦
        let at : entry k w gs ≡ fs = cc in
        subst (λ f. find_entry other f ≡ looked_up key other v (entry k w es)) at
          (passes key other v k w es gs e (find-update key other v es gs n))
  ]
]

-- A key that no entry has, given to the first without one.
find-insert :
    (key other : Bytes) (v : Value) (es fs : Entries)
    → update key v es ≡ none
    → insert (z_str (some key)) v es ≡ some fs
    → find_entry other fs ≡ looked_up key other v es
unfolding update insert find_entry
find-insert key other v no_entries fs u h = cc
find-insert key other v (entry k w es) fs u h = elim (Bool-cases (key_is key k)) [
  | inl e ↦ cc
  | inr e ↦ elim (Bool-cases (is_z_none k)) [
    | inl z ↦
        let at : entry (z_str (some key)) v es ≡ fs = cc in
        let free = empty_key other k z in
        subst (λ f. find_entry other f ≡ looked_up key other v (entry k w es)) at (rw free refl)
    | inr z ↦ elim (Option-cases (insert (z_str (some key)) v es)) [
      | inl n ↦ cc
      | inr (gs, n) ↦
          let at : entry k w gs ≡ fs = cc in
          let none_there : update key v es ≡ none = elim (Option-cases (update key v es)) [
            | inl m ↦ m
            | inr (fs, m) ↦ cc
          ] in
          subst (λ f. find_entry other f ≡ looked_up key other v (entry k w es)) at
            (passes key other v k w es gs e (find-insert key other v es gs none_there n))
    ]
  ]
]

-- When the heap grants the key's text: after `z_map_set`, a lookup of the key finds the copy of the
-- value if the call reports success, and a lookup of any other text finds what it found before; if the
-- call reports no room, every lookup finds what it found before.
pub z_map_find-z_map_set :
    (heap : ℕ → Bool) (key other : Bytes) (v m : Value)
    → heap (length key + 1) ≡ true
    → let (done, n) = z_map_set heap key v m in
      z_map_find other n
      ≡ (if done && str_eq key other then some (z_obj_copy heap v) else z_map_find other m)
unfolding z_map_set z_map_find z_obj_str
z_map_find-z_map_set heap key other v (z_map es) g =
    let w = z_obj_copy heap v in
    elim (Option-cases (update key w es)) [
      | inr (fs, u) ↦ rw (g, u) (find-update key other w es fs u)
      | inl u ↦ elim (Option-cases (insert (z_str (some key)) w es)) [
        | inl n ↦ rw (g, u, n) refl
        | inr (fs, n) ↦ rw (g, u, n) (find-insert key other w es fs u n)
      ]
    ]
z_map_find-z_map_set heap key other v z_none g = refl
z_map_find-z_map_set heap key other v (z_retval x) g = refl
z_map_find-z_map_set heap key other v (z_uint32 x) g = refl
z_map_find-z_map_set heap key other v (z_int32 x) g = refl
z_map_find-z_map_set heap key other v (z_float32 x) g = refl
z_map_find-z_map_set heap key other v (z_str x) g = refl
z_map_find-z_map_set heap key other v (z_blob x) g = refl
z_map_find-z_map_set heap key other v (z_list xs) g = refl
z_map_find-z_map_set heap key other v z_null_list g = refl
z_map_find-z_map_set heap key other v z_null_map g = refl
z_map_find-z_map_set heap key other v (z_other x) g = refl
