-- ===== src/Vt100/Dirty.antt =====
-- sw/common/zvt100.c: a row that is not marked dirty has not changed.
use zeitlos.Prelude.{
  ℕ, ◌+◌, ◌-◌, ◌*◌, ◌%◌, ◌^◌, ◌<◌, ◌≡◌, ◌∙◌, refl, sym, true, false, List, [], ◌∷◌, ltb, ◌==◌,
  if◌then◌else◌, get_or, set, add32, sub32, arith, Bool-cases, inl, inr,
}
use zeitlos.Vt100.{
  Screen, Cell, normal, esc, vt_cols, vt_rows, vt_csi_max_params, slt, scroll_up, newline, put_here,
  put_char, erase_cols, erase_rows, csi_param, ed, el, sgr, csi_dispatch, feed_normal, feed_esc,
  feed_csi, vt_feed_byte, vt_feed,
}
use zeitlos.Prelude.{subst}
use zeitlos.Vt100.Frame.{shift_rows-rows}
use zeitlos.Vt100.Bounds.{IsValid, newline-IsValid, move-IsValid}
use zeitlos.Vt100.Feed.{
  Inside, Inside-step, calm, is_parameter, at_normal, at_esc, at_csi, pstate_cases,
}
use zeitlos.Vt100.{vt_row_dirty, vt_clear_dirty}
use zeitlos.Vt100.Traced.{
  Traced, Traced-refl, Traced-trans, Only-set_cell, Only-erase_cols, mark_row, mark_all, Erased,
  Erased-erase_cols, Erased-erase_rows, sgr_loop_cells, Traced-tab, Traced-cursor,
}

module _ {B : ℕ} where
  Traced-scroll_up : (vt : Screen) → IsValid B vt → Traced vt (scroll_up vt)
  unfolding scroll_up
  Traced-scroll_up vt v = mark_all vt _ v.rows (shift_rows-rows _ vt.cells ∙ v.rows) v.dirty refl

  Traced-newline : (vt : Screen) → IsValid B vt → Traced vt (newline vt)
  unfolding newline
  Traced-newline vt v = elim (Bool-cases (slt (add32 vt.cursor_y 1) vt_rows)) [
    | inl e ↦ rw e (Traced-refl vt _ refl refl)
    | inr e ↦
        let bottom : Screen = record vt { cursor_y = vt_rows - 1 } in
        let low : IsValid B bottom = move-IsValid vt.cursor_x 24 vt v.x (omega arith) v in
        rw e
          (Traced-trans vt bottom _ (Traced-refl vt bottom refl refl) (Traced-scroll_up bottom low))
  ]

  Traced-put_here : (c : ℕ) (vt : Screen) → IsValid B vt → Traced vt (put_here c vt)
  unfolding put_here
  Traced-put_here c vt v =
      let cell : Cell = record { ch = c; reverse = vt.reverse } in
      let t =
        mark_row vt.cursor_y vt _ v.y v.dirty (Only-set_cell vt.cursor_y vt.cursor_x cell vt) in
      Traced-trans vt _ _ t (Traced-refl _ _ refl refl)

  Traced-put_char : (c : ℕ) (vt : Screen) → IsValid B vt → Traced vt (put_char c vt)
  unfolding put_char
  Traced-put_char c vt v = elim (Bool-cases (slt vt.cursor_x vt_cols)) [
    | inl e ↦ rw e (Traced-put_here c vt v)
    | inr e ↦
        let start : Screen = record vt { cursor_x = 0 } in
        let w : IsValid B start = move-IsValid 0 vt.cursor_y vt (omega arith) v.y v in
        let s : Traced vt start = Traced-refl vt start refl refl in
        let n = Traced-trans vt start (newline start) s (Traced-newline start w) in
        rw e (
          Traced-trans vt (newline start) _ n
            (Traced-put_here c (newline start) (newline-IsValid start w)))
  ]

  Traced-el : (vt : Screen) → IsValid B vt → Traced vt (el vt)
  unfolding el
  Traced-el vt v =
      let x = vt.cursor_x in
      let y = vt.cursor_y in
      mark_row y vt _ v.y v.dirty (
        ground (
          arith,
          Only-erase_cols y x (vt_cols - x) vt,
          Only-erase_cols y 0 (if ltb x vt_cols then x + 1 else vt_cols) vt,
          Only-erase_cols y 0 vt_cols vt,
        ))

  Traced-ed : (vt : Screen) → IsValid B vt → Traced vt (ed vt)
  unfolding ed
  Traced-ed vt v =
      let x = vt.cursor_x in
      let y = vt.cursor_y in
      let out : Screen =
        if csi_param vt 0 0 == 0
        then erase_rows (y + 1) (vt_rows - (y + 1)) (erase_cols y x (vt_cols - x) vt)
        else if csi_param vt 0 0 == 1
        then erase_cols y 0 (if ltb x vt_cols then x + 1 else vt_cols) (erase_rows 0 y vt)
        else erase_rows 0 vt_rows vt in
      let e : Erased vt out = ground (
        arith,
        Erased-erase_cols y x (vt_cols - x) vt,
        Erased-erase_rows (y + 1) (vt_rows - (y + 1)) (erase_cols y x (vt_cols - x) vt),
        Erased-erase_rows 0 y vt,
        Erased-erase_cols y 0 (if ltb x vt_cols then x + 1 else vt_cols) (erase_rows 0 y vt),
        Erased-erase_rows 0 vt_rows vt,
      ) in
      mark_all vt out v.rows (e.rows ∙ v.rows) v.dirty e.marks

  Traced-csi_dispatch : (final : ℕ) (vt : Screen) → IsValid B vt → Traced vt (csi_dispatch final vt)
  unfolding csi_dispatch sgr
  Traced-csi_dispatch final vt v = ground (
    arith,
    Traced-cursor vt,
    Traced-ed vt v,
    Traced-el vt v,
    sgr_loop_cells 0
        (let n = vt.csi_param_count + 1 in if ltb vt_csi_max_params n then vt_csi_max_params else n)
        vt,
    Traced-refl vt vt refl refl,
  )

  Traced-feed_normal : (c : ℕ) (vt : Screen) → IsValid B vt → Traced vt (feed_normal c vt)
  unfolding feed_normal
  Traced-feed_normal c vt v = ground (
    arith,
    Traced-refl vt (record vt { pstate = esc }) refl refl,
    Traced-refl vt (record vt { cursor_x = 0 }) refl refl,
    Traced-refl vt (record vt { cursor_x = sub32 vt.cursor_x 1 }) refl refl,
    Traced-refl vt vt refl refl,
    Traced-tab vt,
    Traced-newline vt v,
    Traced-put_char c vt v,
  )

  Traced-feed_csi : (c : ℕ) (vt : Screen) → IsValid B vt → Traced vt (feed_csi c vt)
  unfolding feed_csi
  Traced-feed_csi c vt v =
      let i = vt.csi_param_count in
      let p = (get_or vt.csi_params i 0 * 10 + (c - 0x30)) % 2 ^ 32 in
      let q = set vt.csi_has_param i true in
      let d = csi_dispatch c vt in
      ground (
        arith,
        Traced-refl vt (record vt { csi_params = set vt.csi_params i p; csi_has_param = q }) refl
            refl,
        Traced-refl vt (record vt { csi_param_count = i + 1 }) refl refl,
        Traced-refl vt vt refl refl,
        Traced-trans vt d (record d { pstate = normal }) (Traced-csi_dispatch c vt v)
            (Traced-refl d (record d { pstate = normal }) refl refl),
      )

Traced-feed_esc : (c : ℕ) (vt : Screen) → Traced vt (feed_esc c vt)
unfolding feed_esc
Traced-feed_esc c vt = Traced-refl vt _ (ground arith) (ground arith)

-- One byte, fed to a valid screen, clears no mark, and changes no row that it leaves unmarked.
pub Traced-vt_feed_byte :
    (bound c : ℕ) (vt : Screen) → IsValid bound vt → Traced vt (vt_feed_byte c vt)
Traced-vt_feed_byte bound c vt v = elim (pstate_cases vt.pstate) [
  | inl e ↦ subst (Traced vt) (sym (at_normal c vt e)) (Traced-feed_normal c vt v)
  | inr (inl e) ↦ subst (Traced vt) (sym (at_esc c vt e)) (Traced-feed_esc c vt)
  | inr (inr e) ↦ subst (Traced vt) (sym (at_csi c vt e)) (Traced-feed_csi c vt v)
]

Traced-vt_feed :
    (n : ℕ) (cs : List ℕ) (vt : Screen) → Inside n vt → calm n cs ≡ true → Traced vt (vt_feed cs vt)
unfolding vt_feed Inside
Traced-vt_feed n [] vt (v, w) h = Traced-refl vt vt refl refl
Traced-vt_feed n (c ∷ cs) vt (v, w) h =
    Traced-trans vt (vt_feed_byte c vt) _ (Traced-vt_feed_byte 999999999 c vt v) (
      Traced-vt_feed (if is_parameter c then n + 1 else 0) cs (vt_feed_byte c vt)
        (Inside-step n c vt (v, w) (ground (arith, h))) (ground (arith, h)))

unmarked : {B : ℕ} {vt : Screen} → IsValid B vt → IsValid B (vt_clear_dirty vt)
unfolding vt_clear_dirty
unmarked {B = B} {vt = vt} v = record {
  rows = v.rows;
  cols = v.cols;
  x = v.x;
  y = v.y;
  params = v.params;
  has = v.has;
  count = v.count;
  dirty = refl;
  below = v.below;
}

Inside-vt_clear_dirty : (n : ℕ) (vt : Screen) → Inside n vt → Inside n (vt_clear_dirty vt)
unfolding Inside vt_clear_dirty
Inside-vt_clear_dirty n vt (v, w) =
    (unmarked v, elim w [ inl ne ↦ inl ne | inr w' ↦ inr (unmarked w') ])

-- What a renderer relies on: it clears the marks, bytes with no more than nine digits and semicolons in a
-- row are fed, and then every row that `vt_row_dirty` does not report has the cells that it had.
pub vt_row_dirty-vt_feed :
    (n r : ℕ) (cs : List ℕ) (vt : Screen)
    → Inside n vt
    → calm n cs ≡ true
    → r < vt_rows
    → vt_row_dirty (vt_feed cs (vt_clear_dirty vt)) r ≡ false
    → get_or (vt_feed cs (vt_clear_dirty vt)).cells r [] ≡ get_or vt.cells r []
unfolding vt_row_dirty vt_clear_dirty
vt_row_dirty-vt_feed n r cs vt i h hr clean =
    let t = Traced-vt_feed n cs (vt_clear_dirty vt) (Inside-vt_clear_dirty n vt i) h in
    elim (t.told r) [
      | inl d ↦ (let bad : ⊥ = ground (arith, d, clean, hr) in elim bad [ ])
      | inr e ↦ e
    ]
