-- ===== src/Vt100/Overflow.antt =====
-- sw/common/zvt100.c: what a long parameter does to the cursor.
use zeitlos.Prelude.{ℕ, ◌+◌, ◌-◌, ◌^◌, ◌<◌, ◌≡◌, true, List, [], ◌∷◌, arith}
use zeitlos.Vt100.{Screen, vt_rows, slt, csi_param, at_least_one, cud, csi_dispatch}

-- On a screen whose cursor is not in the first row, a sequence with the parameter 2147483647, which its ten
-- digits make, moves the cursor down by that many rows: the sum wraps to a negative `int`, passes for a row
-- above the last, and the cursor leaves the screen.
pub csi_dispatch_overflows :
    (vt : Screen)
    → 0 < vt.cursor_y
    → vt.cursor_y < vt_rows
    → csi_param vt 0 1 ≡ 2 ^ 31 - 1
    → ((csi_dispatch 0x42 vt).cursor_y ≡ 2 ^ 31 - 1 + vt.cursor_y)
      × (slt (csi_dispatch 0x42 vt).cursor_y 0 ≡ true)
unfolding csi_dispatch cud at_least_one
csi_dispatch_overflows vt pos low e = ground (arith, e)

digits : List ℕ
digits = 0x32 ∷ 0x31 ∷ 0x34 ∷ 0x37 ∷ 0x34 ∷ 0x38 ∷ 0x33 ∷ 0x36 ∷ 0x34 ∷ 0x37 ∷ []
