-- ===== src/Vt100/Frame.antt =====
-- sw/common/zvt100.c: what the screen's operations leave of its shape and of the cursor.
use zeitlos.Prelude.{
  ℕ, zero, suc, ◌+◌, ◌≡◌, ◌∙◌, refl, ap, List, [], ◌∷◌, get_or, set, add32, length, length-set,
  arith, All, Bool-cases, inl, inr,
}
use zeitlos.Vt100.{
  Screen, Row, Cell, vt_cols, vt_rows, slt, mark_dirty, mark_rows, shift_rows, scroll_up, newline,
}

pub shift_rows-rows : (bottom : Row) (rs : List Row) → length (shift_rows bottom rs) ≡ length rs
unfolding shift_rows
shift_rows-rows bottom [] = refl
shift_rows-rows bottom (r ∷ []) = refl
shift_rows-rows bottom (r ∷ r' ∷ rs) = ap suc (shift_rows-rows bottom (r' ∷ rs))

pub shift_rows-cols :
    (bottom : Row) (rs : List Row)
    → length bottom ≡ vt_cols
    → All (λ r. length r ≡ vt_cols) rs
    → All (λ r. length r ≡ vt_cols) (shift_rows bottom rs)
unfolding shift_rows
shift_rows-cols bottom [] h a = tt
shift_rows-cols bottom (r ∷ []) h a = (h, tt)
shift_rows-cols bottom (r ∷ r' ∷ rs) h a = (a.1.0, shift_rows-cols bottom (r' ∷ rs) h a.1)

pub set_cols :
    (rs : List Row) (row col : ℕ) (c : Cell)
    → All (λ r. length r ≡ vt_cols) rs
    → All (λ r. length r ≡ vt_cols) (set rs row (set (get_or rs row []) col c))
set_cols [] row col c a = tt
set_cols (r ∷ rs) zero col c a = (length-set r col c ∙ a.0, a.1)
set_cols (r ∷ rs) (suc row) col c a = (a.0, set_cols rs row col c a.1)

pub mark_dirty_x : (row : ℕ) (vt : Screen) → (mark_dirty row vt).cursor_x ≡ vt.cursor_x
unfolding mark_dirty
mark_dirty_x row vt = ground arith

pub mark_rows_x : (row n : ℕ) (vt : Screen) → (mark_rows row n vt).cursor_x ≡ vt.cursor_x
unfolding mark_rows
mark_rows_x row zero vt = refl
mark_rows_x row (suc n) vt = mark_rows_x (row + 1) n (mark_dirty row vt) ∙ mark_dirty_x row vt

pub newline_x : (vt : Screen) → (newline vt).cursor_x ≡ vt.cursor_x
unfolding newline scroll_up
newline_x vt = elim (Bool-cases (slt (add32 vt.cursor_y 1) vt_rows)) [
  | inl e ↦ rw e refl
  | inr e ↦ rw e (mark_rows_x 0 vt_rows _)
]
