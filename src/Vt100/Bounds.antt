-- ===== src/Vt100/Bounds.antt =====
-- sw/common/zvt100.c: the cursor stays on the screen, and the screen and the parser's arrays keep their
-- sizes, as long as no parameter of a sequence comes near the end of an `int`.
use zeitlos.Prelude.{
  ℕ, zero, suc, ◌+◌, ◌-◌, ◌^◌, ◌≤◌, ◌<◌, ◌≡◌, ◌∙◌, Bool, true, false, List, [], ◌∷◌, ltb,
  if◌then◌else◌, get_or, length, length-set, length-replicate, arith, All, Bool-cases, inl, inr,
}
use zeitlos.Vt100.{
  Screen, Cell, Pstate, esc, vt_cols, vt_rows, vt_csi_max_params, slt, blank, mark_dirty, mark_rows,
  scroll_up, newline, set_cell, put_here, put_char, erase_cell, erase_cols, erase_rows, csi_param,
  at_least_one, cuu, cud, cuf, cub, cup, ed, el, sgr_param, sgr_loop, sgr, csi_dispatch, tab,
  feed_normal, feed_esc,
}
use zeitlos.Vt100.Frame.{shift_rows-rows, shift_rows-cols, set_cols, mark_dirty_x, newline_x}

pub record IsValid (bound : ℕ) (vt : Screen) : Type 0 where
  pub rows : length vt.cells ≡ vt_rows
  pub cols : All (λ r. length r ≡ vt_cols) vt.cells
  pub x : vt.cursor_x ≤ vt_cols
  pub y : vt.cursor_y < vt_rows
  pub params : length vt.csi_params ≡ vt_csi_max_params
  pub has : length vt.csi_has_param ≡ vt_csi_max_params
  pub count : vt.csi_param_count < vt_csi_max_params
  pub dirty : length vt.dirty ≡ vt_rows
  pub below : All (λ p. p ≤ bound) vt.csi_params

-- The greatest parameter that the cursor can be moved by without a wrap.
abbrev pub limit : ℕ
limit = 2 ^ 31 - 81

module _ {B : ℕ} where
  pub mark_dirty-IsValid : (row : ℕ) (vt : Screen) → IsValid B vt → IsValid B (mark_dirty row vt)
  unfolding mark_dirty
  mark_dirty-IsValid row vt v = ground (arith, length-set vt.dirty row true, v)

  mark_rows-IsValid : (row n : ℕ) (vt : Screen) → IsValid B vt → IsValid B (mark_rows row n vt)
  unfolding mark_rows
  mark_rows-IsValid row zero vt v = v
  mark_rows-IsValid row (suc n) vt v =
      mark_rows-IsValid (row + 1) n (mark_dirty row vt) (mark_dirty-IsValid row vt v)

  pub scroll_up-IsValid : (vt : Screen) → IsValid B vt → IsValid B (scroll_up vt)
  unfolding scroll_up
  scroll_up-IsValid vt v = mark_rows-IsValid 0 vt_rows _ (record {
    rows = shift_rows-rows _ vt.cells ∙ v.rows;
    cols = shift_rows-cols _ vt.cells (length-replicate vt_cols (blank vt)) v.cols;
    x = v.x;
    y = v.y;
    params = v.params;
    has = v.has;
    count = v.count;
    dirty = v.dirty;
    below = v.below;
  })

  pub newline-IsValid : (vt : Screen) → IsValid B vt → IsValid B (newline vt)
  unfolding newline
  newline-IsValid vt v =
      let bottom : Screen = record vt { cursor_y = vt_rows - 1 } in
      let low : IsValid B bottom = ground (arith, v) in
      ground (arith, v, scroll_up-IsValid bottom low)

  pub set_cell-IsValid :
      (row col : ℕ) (c : Cell) (vt : Screen) → IsValid B vt → IsValid B (set_cell row col c vt)
  unfolding set_cell
  set_cell-IsValid row col c vt v = record {
    rows = length-set vt.cells row _ ∙ v.rows;
    cols = set_cols vt.cells row col c v.cols;
    x = v.x;
    y = v.y;
    params = v.params;
    has = v.has;
    count = v.count;
    dirty = v.dirty;
    below = v.below;
  }

  -- The cursor moved, within its bounds.
  pub move-IsValid :
      (x y : ℕ) (vt : Screen)
      → x ≤ vt_cols
      → y < vt_rows
      → IsValid B vt
      → IsValid B (record vt { cursor_x = x; cursor_y = y })
  move-IsValid x y vt hx hy v = record {
    rows = v.rows;
    cols = v.cols;
    x = hx;
    y = hy;
    params = v.params;
    has = v.has;
    count = v.count;
    dirty = v.dirty;
    below = v.below;
  }

  put_here-IsValid :
      (c : ℕ) (vt : Screen) → vt.cursor_x < vt_cols → IsValid B vt → IsValid B (put_here c vt)
  unfolding put_here set_cell
  put_here-IsValid c vt h v =
      let cell : Cell = record { ch = c; reverse = vt.reverse } in
      let written = set_cell vt.cursor_y vt.cursor_x cell vt in
      let w =
        mark_dirty-IsValid vt.cursor_y written
          (set_cell-IsValid vt.cursor_y vt.cursor_x cell vt v) in
      let k = mark_dirty_x vt.cursor_y written in
      move-IsValid _ _ (mark_dirty vt.cursor_y written) (omega (arith, k, h)) w.y w

  put_char-IsValid : (c : ℕ) (vt : Screen) → IsValid B vt → IsValid B (put_char c vt)
  unfolding put_char
  put_char-IsValid c vt v = elim (Bool-cases (slt vt.cursor_x vt_cols)) [
    | inl e ↦ rw e (put_here-IsValid c vt (ground (arith, e, v.x)) v)
    | inr e ↦
        let start : Screen = record vt { cursor_x = 0 } in
        let k = newline_x start in
        rw e (
          put_here-IsValid c (newline start) (omega (arith, k))
            (newline-IsValid start (move-IsValid 0 vt.cursor_y vt (omega arith) v.y v)))
  ]

  erase_cols-IsValid :
      (row col n : ℕ) (vt : Screen) → IsValid B vt → IsValid B (erase_cols row col n vt)
  unfolding erase_cols erase_cell
  erase_cols-IsValid row col zero vt v = v
  erase_cols-IsValid row col (suc n) vt v =
      erase_cols-IsValid row (col + 1) n (erase_cell row col vt)
        (set_cell-IsValid row col (blank vt) vt v)

  erase_rows-IsValid : (row n : ℕ) (vt : Screen) → IsValid B vt → IsValid B (erase_rows row n vt)
  unfolding erase_rows
  erase_rows-IsValid row zero vt v = v
  erase_rows-IsValid row (suc n) vt v =
      erase_rows-IsValid (row + 1) n (erase_cols row 0 vt_cols vt)
        (erase_cols-IsValid row 0 vt_cols vt v)

  ed-IsValid : (vt : Screen) → IsValid B vt → IsValid B (ed vt)
  unfolding ed
  ed-IsValid vt v =
      let x = vt.cursor_x in
      let y = vt.cursor_y in
      let tail = erase_cols-IsValid y x (vt_cols - x) vt v in
      let head = erase_rows-IsValid 0 y vt v in
      mark_rows-IsValid 0 vt_rows _ (
        ground (
          arith,
          erase_rows-IsValid (y + 1) (vt_rows - (y + 1)) (erase_cols y x (vt_cols - x) vt) tail,
          erase_cols-IsValid y 0 (if ltb x vt_cols then x + 1 else vt_cols) (erase_rows 0 y vt)
              head,
          erase_rows-IsValid 0 vt_rows vt v,
        ))

  el-IsValid : (vt : Screen) → IsValid B vt → IsValid B (el vt)
  unfolding el
  el-IsValid vt v =
      let x = vt.cursor_x in
      let y = vt.cursor_y in
      mark_dirty-IsValid y _ (
        ground (
          arith,
          erase_cols-IsValid y x (vt_cols - x) vt v,
          erase_cols-IsValid y 0 (if ltb x vt_cols then x + 1 else vt_cols) vt v,
          erase_cols-IsValid y 0 vt_cols vt v,
        ))

  pub get_or_in : (ps : List ℕ) (i : ℕ) → All (λ p. p ≤ B) ps → get_or ps i 0 ≤ B
  get_or_in [] i m = omega arith
  get_or_in (p ∷ ps) zero m = m.0
  get_or_in (p ∷ ps) (suc i) m = get_or_in ps i m.1

  -- What a sequence moves the cursor by.
  step_in :
      (i : ℕ) (vt : Screen)
      → B ≤ limit
      → IsValid B vt
      → (1 ≤ at_least_one (csi_param vt i 1)) × (at_least_one (csi_param vt i 1) ≤ limit)
  unfolding csi_param at_least_one
  step_in i vt m v = ground (arith, m, get_or_in vt.csi_params i v.below)

  cursor-IsValid :
      (vt : Screen)
      → B ≤ limit
      → IsValid B vt
      → IsValid B (cuu vt)
        × IsValid B (cud vt)
        × IsValid B (cuf vt)
        × IsValid B (cub vt)
        × IsValid B (cup vt)
  unfolding cuu cud cuf cub cup
  cursor-IsValid vt m v =
      let s0 = step_in 0 vt m v in
      let s1 = step_in 1 vt m v in
      (
        move-IsValid vt.cursor_x _ vt v.x (ground (arith, s0, v.y)) v,
        move-IsValid vt.cursor_x _ vt v.x (ground (arith, s0, v.y)) v,
        move-IsValid _ vt.cursor_y vt (ground (arith, s0, v.x)) v.y v,
        move-IsValid _ vt.cursor_y vt (ground (arith, s0, v.x)) v.y v,
        move-IsValid _ _ vt (ground (arith, s1)) (ground (arith, s0)) v,
      )

  recolor-IsValid : (b : Bool) (vt : Screen) → IsValid B vt → IsValid B (record vt { reverse = b })
  recolor-IsValid b vt v = record {
    rows = v.rows;
    cols = v.cols;
    x = v.x;
    y = v.y;
    params = v.params;
    has = v.has;
    count = v.count;
    dirty = v.dirty;
    below = v.below;
  }

  sgr_param-IsValid : (p : ℕ) (vt : Screen) → IsValid B vt → IsValid B (sgr_param p vt)
  unfolding sgr_param
  sgr_param-IsValid p vt v =
      ground (arith, recolor-IsValid true vt v, recolor-IsValid false vt v, v)

  sgr_loop-IsValid : (i n : ℕ) (vt : Screen) → IsValid B vt → IsValid B (sgr_loop i n vt)
  unfolding sgr_loop
  sgr_loop-IsValid i zero vt v = v
  sgr_loop-IsValid i (suc n) vt v =
      sgr_loop-IsValid (i + 1) n (sgr_param (csi_param vt i 0) vt)
        (sgr_param-IsValid (csi_param vt i 0) vt v)

  pub csi_dispatch-IsValid :
      (final : ℕ) (vt : Screen) → B ≤ limit → IsValid B vt → IsValid B (csi_dispatch final vt)
  unfolding csi_dispatch sgr
  csi_dispatch-IsValid final vt m v = ground (
    arith,
    cursor-IsValid vt m v,
    ed-IsValid vt v,
    el-IsValid vt v,
    sgr_loop-IsValid 0
        (let n = vt.csi_param_count + 1 in if ltb vt_csi_max_params n then vt_csi_max_params else n)
        vt v,
    v,
  )

  -- The parser's state changed.
  pub enter-IsValid :
      (p : Pstate) (vt : Screen) → IsValid B vt → IsValid B (record vt { pstate = p })
  enter-IsValid p vt v = record {
    rows = v.rows;
    cols = v.cols;
    x = v.x;
    y = v.y;
    params = v.params;
    has = v.has;
    count = v.count;
    dirty = v.dirty;
    below = v.below;
  }

  pub feed_normal-IsValid : (c : ℕ) (vt : Screen) → IsValid B vt → IsValid B (feed_normal c vt)
  unfolding feed_normal tab
  feed_normal-IsValid c vt v =
      ground (arith, enter-IsValid esc vt v, newline-IsValid vt v, put_char-IsValid c vt v, v)

  pub feed_esc-IsValid : (c : ℕ) (vt : Screen) → IsValid B vt → IsValid B (feed_esc c vt)
  unfolding feed_esc
  feed_esc-IsValid c vt v = ground (arith, v)
