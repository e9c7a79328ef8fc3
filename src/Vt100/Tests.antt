-- ===== src/Vt100/Tests.antt =====
-- sw/common/zvt100.c: short inputs on a fresh screen, and the theorems there.
use zeitlos.Prelude.{
  ℕ, ◌+◌, ◌-◌, ◌≡◌, ◌^◌, inr, refl, true, false, List, [], ◌∷◌, arith, get_or, replicate,
}
use zeitlos.Vt100.{
  Screen, slt, csi_param, csi_dispatch, vt_feed, vt_feed_byte, vt_init, vt_clear_dirty,
  vt_row_dirty, feed_normal, feed_esc, feed_csi, put_char, put_here, set_cell, mark_dirty, cup,
  at_least_one, csi,
}
use zeitlos.Vt100.Bounds.{IsValid}
use zeitlos.Vt100.Feed.{nine_digits, Inside, vt_init-IsValid, vt_feed-IsValid}
use zeitlos.Vt100.Params.{IsValid-loosen}
use zeitlos.Vt100.Dirty.{vt_row_dirty-vt_feed}
use zeitlos.Vt100.Overflow.{csi_dispatch_overflows}

-- ESC [ 5 ; 9 H, and an A.
abbrev place_a : List ℕ
place_a = 0x1b ∷ 0x5b ∷ 0x35 ∷ 0x3b ∷ 0x39 ∷ 0x48 ∷ 0x41 ∷ []

placed : Screen
placed = vt_feed place_a vt_init

-- The A stands in the fifth row and the ninth column, and the cursor behind it.
placed_cursor : (placed.cursor_x ≡ 9) × (placed.cursor_y ≡ 4)
unfolding placed vt_feed vt_feed_byte vt_init feed_normal feed_esc feed_csi csi_dispatch cup
    csi_param at_least_one put_char put_here set_cell mark_dirty
placed_cursor = (refl, refl)

vt_feed-IsValid_example : IsValid nine_digits (vt_feed place_a vt_init)
vt_feed-IsValid_example = vt_feed-IsValid place_a refl

start-Inside : Inside 0 vt_init
unfolding Inside
start-Inside =
    (IsValid-loosen 0 nine_digits vt_init (omega arith) vt_init-IsValid, inr vt_init-IsValid)

row_2_clean : vt_row_dirty (vt_feed place_a (vt_clear_dirty vt_init)) 2 ≡ false
unfolding vt_row_dirty vt_clear_dirty vt_feed vt_feed_byte vt_init feed_normal feed_esc feed_csi
    csi_dispatch cup csi_param at_least_one put_char put_here set_cell mark_dirty
row_2_clean = refl

vt_row_dirty-vt_feed_example :
    get_or (vt_feed place_a (vt_clear_dirty vt_init)).cells 2 [] ≡ get_or vt_init.cells 2 []
vt_row_dirty-vt_feed_example =
    vt_row_dirty-vt_feed 0 2 place_a vt_init start-Inside refl (omega arith) row_2_clean

-- A screen in the second row, in the middle of the long sequence.
abbrev long : Screen
long = record {
  cells = replicate 25 [];
  cursor_x = 0;
  cursor_y = 1;
  reverse = false;
  pstate = csi;
  csi_params = 2147483647 ∷ replicate 7 0;
  csi_has_param = true ∷ replicate 7 false;
  csi_param_count = 0;
  dirty = replicate 25 false;
}

long_param : csi_param long 0 1 ≡ 2 ^ 31 - 1
unfolding csi_param
long_param = refl

csi_dispatch_overflows_example :
    ((csi_dispatch 0x42 long).cursor_y ≡ 2 ^ 31 - 1 + 1)
    × (slt (csi_dispatch 0x42 long).cursor_y 0 ≡ true)
csi_dispatch_overflows_example = csi_dispatch_overflows long (omega arith) (omega arith) long_param
