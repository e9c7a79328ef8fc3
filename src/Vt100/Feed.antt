-- ===== src/Vt100/Feed.antt =====
-- sw/common/zvt100.c: the bounds, over the bytes that the parser is fed.
use zeitlos.Prelude.{
  ℕ, zero, suc, ◌+◌, ◌*◌, ◌≤◌, ◌≡◌, ◌∙◌, refl, sym, Bool, true, false, ◌&&◌, ◌||◌, List, [], ◌∷◌,
  leb, ◌==◌, subst, if◌then◌else◌, add32, arith, Bool-cases, inl, inr,
}
use zeitlos.Vt100.{
  Screen, Pstate, normal, esc, csi, vt_cols, vt_rows, slt, mark_dirty, mark_rows, scroll_up,
  newline, set_cell, put_here, put_char, tab, feed_normal, feed_esc, feed_csi, vt_feed_byte,
  vt_feed, vt_init,
}
use zeitlos.Prelude.{◌≢◌, ◌⊎◌}
use zeitlos.Vt100.Bounds.{IsValid, enter-IsValid, feed_normal-IsValid}
use zeitlos.Vt100.Params.{IsValid-loosen, feed_digit, feed_semicolon, feed_final}

-- A digit or a semicolon.
abbrev pub is_parameter : ℕ → Bool
is_parameter c = (leb 0x30 c && leb c 0x39) || c == 0x3b

-- No more than nine digits and semicolons in a row, behind `n` of them.
abbrev pub calm : ℕ → List ℕ → Bool
calm n [] = true
calm n (c ∷ cs) = let m = if is_parameter c then n + 1 else 0 in leb m 9 && calm m cs

-- What `n` digits make at most.
abbrev pub cap : ℕ → ℕ
cap zero = 0
cap (suc n) = cap n * 10 + 9

abbrev pub nine_digits : ℕ
nine_digits = 999999999

cap-le : (n m : ℕ) → n ≤ m → cap n ≤ cap m
cap-le zero m h = omega arith
cap-le (suc n) zero h = elim h [ ]
cap-le (suc n) (suc m) h = omega (arith, cap-le n m (omega (arith, h)))

-- Outside a sequence the parameters are no more than nine digits long, and inside one no longer than the
-- bytes that were read of it.
unfoldable pub Inside : ℕ → Screen → Type 0
Inside n vt = IsValid nine_digits vt × ((vt.pstate ≢ csi) ⊎ IsValid (cap n) vt)

mark_dirty_pstate : (row : ℕ) (vt : Screen) → (mark_dirty row vt).pstate ≡ vt.pstate
unfolding mark_dirty
mark_dirty_pstate row vt = ground arith

mark_rows_pstate : (row n : ℕ) (vt : Screen) → (mark_rows row n vt).pstate ≡ vt.pstate
unfolding mark_rows
mark_rows_pstate row zero vt = refl
mark_rows_pstate row (suc n) vt =
    mark_rows_pstate (row + 1) n (mark_dirty row vt) ∙ mark_dirty_pstate row vt

newline_pstate : (vt : Screen) → (newline vt).pstate ≡ vt.pstate
unfolding newline scroll_up
newline_pstate vt = elim (Bool-cases (slt (add32 vt.cursor_y 1) vt_rows)) [
  | inl e ↦ rw e refl
  | inr e ↦ rw e (mark_rows_pstate 0 vt_rows _)
]

put_here_pstate : (c : ℕ) (vt : Screen) → (put_here c vt).pstate ≡ vt.pstate
unfolding put_here set_cell
put_here_pstate c vt = mark_dirty_pstate vt.cursor_y _

put_char_pstate : (c : ℕ) (vt : Screen) → (put_char c vt).pstate ≡ vt.pstate
unfolding put_char
put_char_pstate c vt = elim (Bool-cases (slt vt.cursor_x vt_cols)) [
  | inl e ↦ rw e (put_here_pstate c vt)
  | inr e ↦ rw e (put_here_pstate c _ ∙ newline_pstate _)
]

feed_normal_pstate : (c : ℕ) (vt : Screen) → vt.pstate ≡ normal → (feed_normal c vt).pstate ≢ csi
unfolding feed_normal tab
feed_normal_pstate c vt e q = ground (arith, e, q, newline_pstate vt, put_char_pstate c vt)

pub pstate_cases : (p : Pstate) → (p ≡ normal) ⊎ (p ≡ esc) ⊎ (p ≡ csi)
pstate_cases normal = inl refl
pstate_cases esc = inr (inl refl)
pstate_cases csi = inr (inr refl)

normal_ne : normal ≢ csi
normal_ne e = cc

step_esc : (m c : ℕ) (vt : Screen) → IsValid nine_digits vt → Inside m (feed_esc c vt)
unfolding feed_esc Inside
step_esc m c vt v = elim (Bool-cases (c == 0x5b)) [
  | inr e ↦ rw e (enter-IsValid normal vt v, inl normal_ne)
  | inl e ↦
      let zeros : IsValid 0 (feed_esc 0x5b vt) = record {
        rows = v.rows;
        cols = v.cols;
        x = v.x;
        y = v.y;
        params = refl;
        has = refl;
        count = omega arith;
        dirty = v.dirty;
        below = ground arith;
      } in
      rw e (
        IsValid-loosen 0 nine_digits (feed_esc 0x5b vt) (omega arith) zeros,
        inr (IsValid-loosen 0 (cap m) (feed_esc 0x5b vt) (omega arith) zeros),
      )
]

final_pstate :
    (c : ℕ) (vt : Screen)
    → (leb 0x30 c && leb c 0x39) ≡ false
    → (c == 0x3b) ≡ false
    → (feed_csi c vt).pstate ≢ csi
unfolding feed_csi
final_pstate c vt digit semi q = normal_ne (rw (digit, semi) at q)

step_csi :
    (n c : ℕ) (vt : Screen)
    → IsValid nine_digits vt
    → IsValid (cap n) vt
    → leb (if is_parameter c then n + 1 else 0) 9 ≡ true
    → Inside (if is_parameter c then n + 1 else 0) (feed_csi c vt)
unfolding Inside
step_csi n c vt v w h = elim (Bool-cases (leb 0x30 c && leb c 0x39)) [
  | inl digit ↦
      let le : n + 1 ≤ 9 = ground (arith, digit, h) in
      let f = feed_digit (cap n) c vt digit w in
      let next : suc n ≡ n + 1 = omega arith in
      rw digit (
        IsValid-loosen (cap (suc n)) nine_digits (feed_csi c vt)
            (cap-le (suc n) 9 (omega (arith, le))) f,
        inr (subst (λ k. IsValid (cap k) (feed_csi c vt)) next f),
      )
  | inr digit ↦ elim (Bool-cases (c == 0x3b)) [
    | inl semi ↦
        let le : n + 1 ≤ 9 = ground (arith, digit, semi, h) in
        let wider : cap n ≤ cap (n + 1) = cap-le n (n + 1) (omega arith) in
        rw (digit, semi)
          (
            feed_semicolon nine_digits c vt digit semi v,
            inr (
                feed_semicolon (cap (n + 1)) c vt digit semi
                  (IsValid-loosen (cap n) (cap (n + 1)) vt wider w)),
          )
    | inr semi ↦
        rw (digit, semi)
          (
            feed_final nine_digits c vt (omega arith) digit semi v,
            inl (final_pstate c vt digit semi),
          )
  ]
]

pub at_normal : (c : ℕ) (vt : Screen) → vt.pstate ≡ normal → vt_feed_byte c vt ≡ feed_normal c vt
unfolding vt_feed_byte
at_normal c vt e = ground (arith, e)

pub at_esc : (c : ℕ) (vt : Screen) → vt.pstate ≡ esc → vt_feed_byte c vt ≡ feed_esc c vt
unfolding vt_feed_byte
at_esc c vt e = ground (arith, e)

pub at_csi : (c : ℕ) (vt : Screen) → vt.pstate ≡ csi → vt_feed_byte c vt ≡ feed_csi c vt
unfolding vt_feed_byte
at_csi c vt e = ground (arith, e)

-- One byte.
pub Inside-step :
    (n c : ℕ) (vt : Screen)
    → Inside n vt
    → leb (if is_parameter c then n + 1 else 0) 9 ≡ true
    → Inside (if is_parameter c then n + 1 else 0) (vt_feed_byte c vt)
unfolding vt_feed_byte Inside
Inside-step n c vt (v, w) h = elim (pstate_cases vt.pstate) [
  | inl e ↦
      subst (Inside _) (sym (at_normal c vt e))
        (feed_normal-IsValid c vt v, inl (feed_normal_pstate c vt e))
  | inr (inl e) ↦ subst (Inside _) (sym (at_esc c vt e)) (step_esc _ c vt v)
  | inr (inr e) ↦ elim w [
    | inl ne ↦ elim (ne e) [ ]
    | inr w' ↦ subst (Inside _) (sym (at_csi c vt e)) (step_csi n c vt v w' h)
  ]
]

vt_feed-Inside :
    (n : ℕ) (cs : List ℕ) (vt : Screen)
    → Inside n vt
    → calm n cs ≡ true
    → IsValid nine_digits (vt_feed cs vt)
unfolding vt_feed Inside
vt_feed-Inside n [] vt (v, w) h = v
vt_feed-Inside n (c ∷ cs) vt i h =
    vt_feed-Inside (if is_parameter c then n + 1 else 0) cs (vt_feed_byte c vt)
      (Inside-step n c vt i (ground (arith, h))) (ground (arith, h))

pub vt_init-IsValid : IsValid 0 vt_init
unfolding vt_init
vt_init-IsValid = record {
  rows = refl;
  cols = ground arith;
  x = omega arith;
  y = omega arith;
  params = refl;
  has = refl;
  count = omega arith;
  dirty = refl;
  below = ground arith;
}

-- A fresh screen, fed any bytes with no more than nine digits and semicolons in a row, is valid: the
-- cursor is on the screen or just behind its last column, and the grid and the parser's arrays have
-- their sizes.
pub vt_feed-IsValid : (cs : List ℕ) → calm 0 cs ≡ true → IsValid nine_digits (vt_feed cs vt_init)
unfolding Inside
vt_feed-IsValid cs h =
    let v = IsValid-loosen 0 nine_digits vt_init (omega arith) vt_init-IsValid in
    vt_feed-Inside 0 cs vt_init (v, inr vt_init-IsValid) h
