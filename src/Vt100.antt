-- ===== src/Vt100.antt =====
-- The terminal emulation core (sw/common/zvt100.c, sw/common/zvt100.h): the screen, and the machine
-- that reads escape sequences. An `int` is a 32-bit word in two's complement, and its arithmetic
-- wraps; a write outside the screen is no write.
pub mod Frame
pub mod Bounds
pub mod Params
pub mod Feed
pub mod Traced
pub mod Dirty
pub mod Overflow
mod Tests
use zeitlos.Prelude.{
  ℕ, zero, suc, ◌+◌, ◌-◌, ◌*◌, ◌/◌, ◌%◌, ◌^◌, Bool, true, false, ◌&&◌, ◌||◌, not, List, [], ◌∷◌,
  ltb, leb, ◌==◌, if◌then◌else◌, get_or, set, replicate, add32, sub32,
}

abbrev pub vt_cols : ℕ
vt_cols = 80

abbrev pub vt_rows : ℕ
vt_rows = 25

abbrev pub vt_csi_max_params : ℕ
vt_csi_max_params = 8

-- `vt_cell_t`.
pub record Cell : Type 0 where
  pub ch : ℕ
  pub reverse : Bool

abbrev pub Row : Type 0
Row = List Cell

-- `vt_pstate_t`.
pub data Pstate : Type 0 where
  normal esc csi : Pstate

-- `vt_screen_t`.
pub record Screen : Type 0 where
  pub cells : List Row
  pub cursor_x : ℕ
  pub cursor_y : ℕ
  pub reverse : Bool
  pub pstate : Pstate
  pub csi_params : List ℕ
  pub csi_has_param : List Bool
  pub csi_param_count : ℕ
  pub dirty : List Bool

-- `<` on `int`.
abbrev pub slt : ℕ → ℕ → Bool
slt a b = ltb ((a + 2 ^ 31) % 2 ^ 32) ((b + 2 ^ 31) % 2 ^ 32)

-- A space in the current attributes.
abbrev pub blank : Screen → Cell
blank vt = record { ch = 0x20; reverse = vt.reverse }

pub mark_dirty : ℕ → Screen → Screen
mark_dirty row vt =
    if not (slt row 0) && slt row vt_rows then record vt { dirty = set vt.dirty row true } else vt

-- `mark_dirty` on the `n` rows from `row`.
pub mark_rows : ℕ → ℕ → Screen → Screen
mark_rows row zero vt = vt
mark_rows row (suc n) vt = mark_rows (row + 1) n (mark_dirty row vt)

-- Every row takes the next one's cells, and the last one those of `bottom`.
pub shift_rows : Row → List Row → List Row
shift_rows bottom [] = []
shift_rows bottom (r ∷ []) = bottom ∷ []
shift_rows bottom (r ∷ r' ∷ rs) = r' ∷ shift_rows bottom (r' ∷ rs)

pub scroll_up : Screen → Screen
scroll_up vt =
    mark_rows 0 vt_rows (record vt { cells = shift_rows (replicate vt_cols (blank vt)) vt.cells })

pub newline : Screen → Screen
newline vt =
    let y = add32 vt.cursor_y 1 in
    if not (slt y vt_rows)
    then scroll_up (record vt { cursor_y = vt_rows - 1 })
    else record vt { cursor_y = y }

pub set_cell : ℕ → ℕ → Cell → Screen → Screen
set_cell row col c vt = record vt { cells = set vt.cells row (set (get_or vt.cells row []) col c) }

-- `put_char` behind its wrap.
pub put_here : ℕ → Screen → Screen
put_here c vt =
    let written = set_cell vt.cursor_y vt.cursor_x (record { ch = c; reverse = vt.reverse }) vt in
    let marked = mark_dirty vt.cursor_y written in
    record marked { cursor_x = add32 marked.cursor_x 1 }

pub put_char : ℕ → Screen → Screen
put_char c vt =
    put_here c (if not (slt vt.cursor_x vt_cols) then newline (record vt { cursor_x = 0 }) else vt)

pub erase_cell : ℕ → ℕ → Screen → Screen
erase_cell row col vt = set_cell row col (blank vt) vt

-- The `n` cells from `col`.
pub erase_cols : ℕ → ℕ → ℕ → Screen → Screen
erase_cols row col zero vt = vt
erase_cols row col (suc n) vt = erase_cols row (col + 1) n (erase_cell row col vt)

-- The `n` rows from `row`.
pub erase_rows : ℕ → ℕ → Screen → Screen
erase_rows row zero vt = vt
erase_rows row (suc n) vt = erase_rows (row + 1) n (erase_cols row 0 vt_cols vt)

pub csi_param : Screen → ℕ → ℕ → ℕ
csi_param vt idx default_val =
    if leb vt_csi_max_params idx
    then default_val
    else if not (get_or vt.csi_has_param idx false)
    then default_val
    else get_or vt.csi_params idx 0

-- A count or a position, at least 1.
pub at_least_one : ℕ → ℕ
at_least_one n = if slt n 1 then 1 else n

pub cuu : Screen → Screen
cuu vt =
    let y = sub32 vt.cursor_y (at_least_one (csi_param vt 0 1)) in
    record vt { cursor_y = if slt y 0 then 0 else y }

pub cud : Screen → Screen
cud vt =
    let y = add32 vt.cursor_y (at_least_one (csi_param vt 0 1)) in
    record vt { cursor_y = if not (slt y vt_rows) then vt_rows - 1 else y }

pub cuf : Screen → Screen
cuf vt =
    let x = add32 vt.cursor_x (at_least_one (csi_param vt 0 1)) in
    record vt { cursor_x = if not (slt x vt_cols) then vt_cols - 1 else x }

pub cub : Screen → Screen
cub vt =
    let x = sub32 vt.cursor_x (at_least_one (csi_param vt 0 1)) in
    record vt { cursor_x = if slt x 0 then 0 else x }

pub cup : Screen → Screen
cup vt =
    let row = sub32 (at_least_one (csi_param vt 0 1)) 1 in
    let col = sub32 (at_least_one (csi_param vt 1 1)) 1 in
    record vt {
      cursor_y = if not (slt row vt_rows) then vt_rows - 1 else row;
      cursor_x = if not (slt col vt_cols) then vt_cols - 1 else col;
    }

-- Erase in display. The loops run from the cursor to the edge, and from the edge through the cursor.
pub ed : Screen → Screen
ed vt =
    let mode = csi_param vt 0 0 in
    let x = vt.cursor_x in
    let y = vt.cursor_y in
    mark_rows 0 vt_rows (
      if mode == 0
      then erase_rows (y + 1) (vt_rows - (y + 1)) (erase_cols y x (vt_cols - x) vt)
      else if mode == 1
      then erase_cols y 0 (if ltb x vt_cols then x + 1 else vt_cols) (erase_rows 0 y vt)
      else erase_rows 0 vt_rows vt)

-- Erase in line.
pub el : Screen → Screen
el vt =
    let mode = csi_param vt 0 0 in
    let x = vt.cursor_x in
    let y = vt.cursor_y in
    mark_dirty y (
      if mode == 0
      then erase_cols y x (vt_cols - x) vt
      else if mode == 1
      then erase_cols y 0 (if ltb x vt_cols then x + 1 else vt_cols) vt
      else erase_cols y 0 vt_cols vt)

pub sgr_param : ℕ → Screen → Screen
sgr_param p vt =
    if p == 0
    then record vt { reverse = false }
    else if p == 7
    then record vt { reverse = true }
    else if p == 27
    then record vt { reverse = false }
    else vt

-- The parameters from `i`, `n` of them.
pub sgr_loop : ℕ → ℕ → Screen → Screen
sgr_loop i zero vt = vt
sgr_loop i (suc n) vt = sgr_loop (i + 1) n (sgr_param (csi_param vt i 0) vt)

pub sgr : Screen → Screen
sgr vt =
    let n = vt.csi_param_count + 1 in
    sgr_loop 0 (if ltb vt_csi_max_params n then vt_csi_max_params else n) vt

-- The final byte of a sequence: A B C D H f J K m.
pub csi_dispatch : ℕ → Screen → Screen
csi_dispatch final vt =
    if final == 0x41
    then cuu vt
    else if final == 0x42
    then cud vt
    else if final == 0x43
    then cuf vt
    else if final == 0x44
    then cub vt
    else if final == 0x48 || final == 0x66
    then cup vt
    else if final == 0x4a
    then ed vt
    else if final == 0x4b
    then el vt
    else if final == 0x6d
    then sgr vt
    else vt

pub tab : Screen → Screen
tab vt =
    let next_tab = (vt.cursor_x / 8 + 1) * 8 in
    record vt { cursor_x = if leb vt_cols next_tab then vt_cols - 1 else next_tab }

pub feed_normal : ℕ → Screen → Screen
feed_normal c vt =
    if c == 0x1b
    then record vt { pstate = esc }
    else if c == 0x0d
    then record vt { cursor_x = 0 }
    else if c == 0x0a
    then newline vt
    else if c == 0x08
    then (if slt 0 vt.cursor_x then record vt { cursor_x = sub32 vt.cursor_x 1 } else vt)
    else if c == 0x09
    then tab vt
    else if c == 0x07
    then vt
    else if leb 0x20 c && ltb c 0x7f
    then put_char c vt
    else vt

pub feed_esc : ℕ → Screen → Screen
feed_esc c vt =
    if c == 0x5b
    then record vt {
      pstate = csi;
      csi_param_count = 0;
      csi_params = replicate vt_csi_max_params 0;
      csi_has_param = replicate vt_csi_max_params false;
    }
    else record vt { pstate = normal }

pub feed_csi : ℕ → Screen → Screen
feed_csi c vt =
    let i = vt.csi_param_count in
    if leb 0x30 c && leb c 0x39
    then (if ltb i vt_csi_max_params
        then record vt {
          csi_params = set vt.csi_params i ((get_or vt.csi_params i 0 * 10 + (c - 0x30)) % 2 ^ 32);
          csi_has_param = set vt.csi_has_param i true;
        }
        else vt)
    else if c == 0x3b
    then (if ltb i (vt_csi_max_params - 1) then record vt { csi_param_count = i + 1 } else vt)
    else record (csi_dispatch c vt) { pstate = normal }

pub vt_feed_byte : ℕ → Screen → Screen
vt_feed_byte c vt = elim (vt.pstate) [
  | normal ↦ feed_normal c vt
  | esc ↦ feed_esc c vt
  | csi ↦ feed_csi c vt
]

pub vt_feed : List ℕ → Screen → Screen
vt_feed [] vt = vt
vt_feed (c ∷ cs) vt = vt_feed cs (vt_feed_byte c vt)

pub vt_init : Screen
vt_init = record {
  cells = replicate vt_rows (replicate vt_cols (record { ch = 0x20; reverse = false }));
  cursor_x = 0;
  cursor_y = 0;
  reverse = false;
  pstate = normal;
  csi_params = replicate vt_csi_max_params 0;
  csi_has_param = replicate vt_csi_max_params false;
  csi_param_count = 0;
  dirty = replicate vt_rows true;
}

pub vt_row_dirty : Screen → ℕ → Bool
vt_row_dirty vt row =
    if slt row 0 || not (slt row vt_rows) then false else get_or vt.dirty row false

pub vt_clear_dirty : Screen → Screen
vt_clear_dirty vt = record vt { dirty = replicate vt_rows false }

pub vt_mark_all_dirty : Screen → Screen
vt_mark_all_dirty vt = record vt { dirty = replicate vt_rows true }
