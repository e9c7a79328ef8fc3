-- ===== src/Vt100/Traced.antt =====
-- sw/common/zvt100.c: rows that change, and marks that tell of it.
use zeitlos.Prelude.{
  ℕ, zero, suc, ◌+◌, ◌≤◌, ◌<◌, ◌≡◌, ◌∙◌, refl, sym, ap, true, false, ◌&&◌, List, [], ◌∷◌, ltb, leb,
  ◌==◌, if◌then◌else◌, get_or, set, length, length-set, arith, Bool-cases, inl, inr,
}
use zeitlos.Vt100.{
  Screen, Row, Cell, vt_cols, vt_rows, blank, mark_dirty, mark_rows, set_cell, erase_cell,
  erase_cols, erase_rows, csi_param, cuu, cud, cuf, cub, cup, sgr_param, sgr_loop, tab,
}
use zeitlos.Prelude.{◌⊎◌, ◌≢◌}
use zeitlos.Prelude.{get_or-set, get_or-set_ne, ℕ_discrete}

-- From `a` to `b` a row's mark is not lost, and a row that has none in `b` has its cells from `a`.
pub record Traced (a b : Screen) : Type 0 where
  pub kept : (r : ℕ) → get_or a.dirty r false ≡ true → get_or b.dirty r false ≡ true
  pub told : (r : ℕ) → (get_or b.dirty r false ≡ true) ⊎ (get_or b.cells r [] ≡ get_or a.cells r [])

pub Traced-refl : (a b : Screen) → b.cells ≡ a.cells → b.dirty ≡ a.dirty → Traced a b
Traced-refl a b c d = record { kept = λ r h. rw d h; told = λ r. inr (ap (λ l. get_or l r []) c) }

pub Traced-trans : (a b c : Screen) → Traced a b → Traced b c → Traced a c
Traced-trans a b c t u = record {
  kept = λ r h. u.kept r (t.kept r h);
  told = λ r. elim (u.told r) [
    | inl d ↦ inl d
    | inr e ↦ elim (t.told r) [ inl d ↦ inl (u.kept r d) | inr e' ↦ inr (e ∙ e') ]
  ];
}

-- From `a` to `b` no mark changes, and at most the row `y` of cells.
pub record Only (y : ℕ) (a b : Screen) : Type 0 where
  pub cells : (r : ℕ) → r ≢ y → get_or b.cells r [] ≡ get_or a.cells r []
  pub marks : b.dirty ≡ a.dirty
  pub here : b.cursor_y ≡ a.cursor_y

pub Only-refl : (y : ℕ) (a : Screen) → Only y a a
Only-refl y a = record { cells = λ r ne. refl; marks = refl; here = refl }

pub Only-set_cell : (row col : ℕ) (c : Cell) (vt : Screen) → Only row vt (set_cell row col c vt)
unfolding set_cell
Only-set_cell row col c vt = record {
  cells = λ r ne. get_or-set_ne vt.cells row r _ [] (λ e. ne (sym e));
  marks = refl;
  here = refl;
}

pub Only-trans : (y : ℕ) (a b c : Screen) → Only y a b → Only y b c → Only y a c
Only-trans y a b c o p = record {
  cells = λ r ne. p.cells r ne ∙ o.cells r ne;
  marks = p.marks ∙ o.marks;
  here = p.here ∙ o.here;
}

pub Only-erase_cols : (row col n : ℕ) (vt : Screen) → Only row vt (erase_cols row col n vt)
unfolding erase_cols erase_cell
Only-erase_cols row col zero vt = Only-refl row vt
Only-erase_cols row col (suc n) vt =
    Only-trans row vt _ _ (Only-set_cell row col (blank vt) vt)
      (Only-erase_cols row (col + 1) n (set_cell row col (blank vt) vt))

pub mark_dirty_marks :
    (y : ℕ) (vt : Screen) → y < vt_rows → (mark_dirty y vt).dirty ≡ set vt.dirty y true
unfolding mark_dirty
mark_dirty_marks y vt h = ground (arith, h)

pub mark_dirty_cells : (y : ℕ) (vt : Screen) → (mark_dirty y vt).cells ≡ vt.cells
unfolding mark_dirty
mark_dirty_cells y vt = ground arith

-- The one row that changed is marked.
pub mark_row :
    (y : ℕ) (a b : Screen)
    → y < vt_rows
    → length a.dirty ≡ vt_rows
    → Only y a b
    → Traced a (mark_dirty y b)
mark_row y a b h l o =
    let marks : (mark_dirty y b).dirty ≡ set a.dirty y true =
      mark_dirty_marks y b h ∙ ap (λ d. set d y true) o.marks in
    let read : (r : ℕ)
        → get_or (mark_dirty y b).dirty r false
          ≡ (if y == r then true else get_or a.dirty r false) =
      λ r.
        ap (λ d. get_or d r false) marks
        ∙ get_or-set a.dirty y r true false (omega (arith, l, h)) in
    record {
      kept = λ r k. ground (arith, read r, k);
      told = λ r. elim (ℕ_discrete r y) [
        | yes e ↦ inl (ground (arith, read r, e))
        | no ne ↦ inr (ap (λ l. get_or l r []) (mark_dirty_cells y b) ∙ o.cells r ne)
      ];
    }

pub mark_rows_cells : (row n : ℕ) (vt : Screen) → (mark_rows row n vt).cells ≡ vt.cells
unfolding mark_rows
mark_rows_cells row zero vt = refl
mark_rows_cells row (suc n) vt =
    mark_rows_cells (row + 1) n (mark_dirty row vt) ∙ mark_dirty_cells row vt

-- A mark of a row that is on the screen.
pub read_mark :
    (y r : ℕ) (vt : Screen)
    → y < vt_rows
    → length vt.dirty ≡ vt_rows
    → get_or (mark_dirty y vt).dirty r false ≡ (if y == r then true else get_or vt.dirty r false)
read_mark y r vt h l =
    ap (λ d. get_or d r false) (mark_dirty_marks y vt h)
    ∙ get_or-set vt.dirty y r true false (omega (arith, l, h))

pub mark_length : (y : ℕ) (vt : Screen) → length (mark_dirty y vt).dirty ≡ length vt.dirty
unfolding mark_dirty
mark_length y vt = ground (arith, length-set vt.dirty y true)

pub read_marks :
    (row n r : ℕ) (vt : Screen)
    → row + n ≤ vt_rows
    → length vt.dirty ≡ vt_rows
    → get_or (mark_rows row n vt).dirty r false
      ≡ (if leb row r && ltb r (row + n) then true else get_or vt.dirty r false)
unfolding mark_rows
read_marks row zero r vt h l = ground arith
read_marks row (suc n) r vt h l =
    let rest =
      read_marks (row + 1) n r (mark_dirty row vt) (omega (arith, h)) (mark_length row vt ∙ l) in
    let here = read_mark row r vt (omega (arith, h)) l in ground (arith, rest, here)

pub get_or_past : (rs : List Row) (r : ℕ) → length rs ≤ r → get_or rs r [] ≡ []
get_or_past [] r h = refl
get_or_past (x ∷ rs) zero h = elim h [ ]
get_or_past (x ∷ rs) (suc r) h = get_or_past rs r (omega (arith, h))

-- Every row is marked.
pub mark_all :
    (a b : Screen)
    → length a.cells ≡ vt_rows
    → length b.cells ≡ vt_rows
    → length a.dirty ≡ vt_rows
    → b.dirty ≡ a.dirty
    → Traced a (mark_rows 0 vt_rows b)
mark_all a b la lb ld same =
    let read : (r : ℕ)
        → get_or (mark_rows 0 vt_rows b).dirty r false
          ≡ (if leb 0 r && ltb r vt_rows then true else get_or b.dirty r false) =
      λ r. read_marks 0 vt_rows r b (omega arith) (ap length same ∙ ld) in
    record {
      kept = λ r k. ground (arith, read r, k, ap (λ d. get_or d r false) same);
      told = λ r. elim (Bool-cases (ltb r vt_rows)) [
        | inl e ↦ inl (ground (arith, read r, e))
        | inr e ↦ inr (
            ap (λ l. get_or l r []) (mark_rows_cells 0 vt_rows b)
            ∙ get_or_past b.cells r (ground (arith, e, lb))
            ∙ sym (get_or_past a.cells r (ground (arith, e, la))))
      ];
    }

-- Erasing marks nothing, and keeps the number of rows.
pub record Erased (a b : Screen) : Type 0 where
  pub rows : length b.cells ≡ length a.cells
  pub marks : b.dirty ≡ a.dirty

pub Erased-erase_cols : (row col n : ℕ) (vt : Screen) → Erased vt (erase_cols row col n vt)
unfolding erase_cols erase_cell set_cell
Erased-erase_cols row col zero vt = record { rows = refl; marks = refl }
Erased-erase_cols row col (suc n) vt =
    let rest = Erased-erase_cols row (col + 1) n (erase_cell row col vt) in
    record { rows = rest.rows ∙ length-set vt.cells row _; marks = rest.marks }

pub Erased-trans : (a b c : Screen) → Erased a b → Erased b c → Erased a c
Erased-trans a b c s t = record { rows = t.rows ∙ s.rows; marks = t.marks ∙ s.marks }

pub Erased-erase_rows : (row n : ℕ) (vt : Screen) → Erased vt (erase_rows row n vt)
unfolding erase_rows
Erased-erase_rows row zero vt = record { rows = refl; marks = refl }
Erased-erase_rows row (suc n) vt =
    Erased-trans vt _ _ (Erased-erase_cols row 0 vt_cols vt)
      (Erased-erase_rows (row + 1) n (erase_cols row 0 vt_cols vt))

pub sgr_param_cells : (p : ℕ) (vt : Screen) → Traced vt (sgr_param p vt)
unfolding sgr_param
sgr_param_cells p vt = Traced-refl vt _ (ground arith) (ground arith)

pub sgr_loop_cells : (i n : ℕ) (vt : Screen) → Traced vt (sgr_loop i n vt)
unfolding sgr_loop
sgr_loop_cells i zero vt = Traced-refl vt vt refl refl
sgr_loop_cells i (suc n) vt =
    Traced-trans vt _ _ (sgr_param_cells (csi_param vt i 0) vt)
      (sgr_loop_cells (i + 1) n (sgr_param (csi_param vt i 0) vt))

pub Traced-tab : (vt : Screen) → Traced vt (tab vt)
unfolding tab
Traced-tab vt = Traced-refl vt _ refl refl

pub Traced-cursor :
    (vt : Screen)
    → Traced vt (cuu vt)
      × Traced vt (cud vt)
      × Traced vt (cuf vt)
      × Traced vt (cub vt)
      × Traced vt (cup vt)
unfolding cuu cud cuf cub cup
Traced-cursor vt = (
  Traced-refl vt _ refl refl,
  Traced-refl vt _ refl refl,
  Traced-refl vt _ refl refl,
  Traced-refl vt _ refl refl,
  Traced-refl vt _ refl refl,
)
