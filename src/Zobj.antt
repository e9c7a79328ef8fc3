-- ===== src/Zobj.antt =====
-- The object header that every system call and message carries (sw/common/zobj.h), as the machine
-- holds it: a tag and one word.
pub mod Tree
use Prim.Native.Nat.{ℕ}

-- `z_type_t`; `other` stands for a word that is none of the enumeration's.
pub data Tag : Type 0 where
  none retval uint32 int32 float32 str list map blob other : Tag

-- `z_obj_t`: the tag and the word that the union holds.
pub record Obj : Type 0 where
  pub tag : Tag
  pub val : ℕ

abbrev pub z_obj_none : Obj
z_obj_none = record { tag = none; val = 0 }
