-- ===== src/Vt100/Params.antt =====
-- sw/common/zvt100.c: the bounds, under the three kinds of byte inside a sequence.
use zeitlos.Prelude.{
  ℕ, zero, suc, ◌+◌, ◌-◌, ◌*◌, ◌%◌, ◌^◌, ◌≤◌, ◌<◌, ◌≡◌, ◌∙◌, true, false, ◌&&◌, List, [], ◌∷◌, ltb,
  leb, ◌==◌, get_or, set, length-set, arith, All, Bool-cases, inl, inr,
}
use zeitlos.Vt100.{Screen, normal, vt_csi_max_params, csi_dispatch, feed_csi}
use zeitlos.Vt100.Bounds.{IsValid, limit, get_or_in, enter-IsValid, csi_dispatch-IsValid}

pub loosen : (B C : ℕ) (ps : List ℕ) → B ≤ C → All (λ q. q ≤ B) ps → All (λ q. q ≤ C) ps
loosen B C [] h a = tt
loosen B C (q ∷ ps) h a = (omega (arith, a.0), loosen B C ps h a.1)

pub IsValid-loosen : (B C : ℕ) (vt : Screen) → B ≤ C → IsValid B vt → IsValid C vt
IsValid-loosen B C vt h v = record {
  rows = v.rows;
  cols = v.cols;
  x = v.x;
  y = v.y;
  params = v.params;
  has = v.has;
  count = v.count;
  dirty = v.dirty;
  below = loosen B C vt.csi_params h v.below;
}

pub All-set :
    (B p i : ℕ) (ps : List ℕ) → p ≤ B → All (λ q. q ≤ B) ps → All (λ q. q ≤ B) (set ps i p)
All-set B p i [] h a = tt
All-set B p zero (q ∷ ps) h a = (h, a.1)
All-set B p (suc i) (q ∷ ps) h a = (a.0, All-set B p i ps h a.1)

-- A parameter written.
pub param-IsValid :
    (B p i : ℕ) (vt : Screen)
    → p ≤ B
    → IsValid B vt
    → IsValid B (record vt {
      csi_params = set vt.csi_params i p;
      csi_has_param = set vt.csi_has_param i true;
    })
param-IsValid B p i vt h v = record {
  rows = v.rows;
  cols = v.cols;
  x = v.x;
  y = v.y;
  params = length-set vt.csi_params i p ∙ v.params;
  has = length-set vt.csi_has_param i true ∙ v.has;
  count = v.count;
  dirty = v.dirty;
  below = All-set B p i vt.csi_params h v.below;
}

pub next-IsValid :
    (B i : ℕ) (vt : Screen)
    → i < vt_csi_max_params
    → IsValid B vt
    → IsValid B (record vt { csi_param_count = i })
next-IsValid B i vt h v = record {
  rows = v.rows;
  cols = v.cols;
  x = v.x;
  y = v.y;
  params = v.params;
  has = v.has;
  count = h;
  dirty = v.dirty;
  below = v.below;
}

-- The three kinds of byte inside a sequence.
pub feed_digit :
    (B c : ℕ) (vt : Screen)
    → (leb 0x30 c && leb c 0x39) ≡ true
    → IsValid B vt
    → IsValid (B * 10 + 9) (feed_csi c vt)
unfolding feed_csi
feed_digit B c vt digit v =
    let i = vt.csi_param_count in
    let p = (get_or vt.csi_params i 0 * 10 + (c - 0x30)) % 2 ^ 32 in
    let w = IsValid-loosen B (B * 10 + 9) vt (omega arith) v in
    let le : p ≤ B * 10 + 9 = ground (arith, digit, get_or_in vt.csi_params i v.below) in
    rw (digit, feed_csi) (ground (arith, param-IsValid (B * 10 + 9) p i vt le w, w))

pub feed_semicolon :
    (B c : ℕ) (vt : Screen)
    → (leb 0x30 c && leb c 0x39) ≡ false
    → (c == 0x3b) ≡ true
    → IsValid B vt
    → IsValid B (feed_csi c vt)
unfolding feed_csi
feed_semicolon B c vt digit semi v =
    elim (Bool-cases (ltb vt.csi_param_count (vt_csi_max_params - 1))) [
      | inl e ↦
          rw (digit, semi, e) (next-IsValid B (vt.csi_param_count + 1) vt (ground (arith, e)) v)
      | inr e ↦ rw (digit, semi, e) v
    ]

pub feed_final :
    (B c : ℕ) (vt : Screen)
    → B ≤ limit
    → (leb 0x30 c && leb c 0x39) ≡ false
    → (c == 0x3b) ≡ false
    → IsValid B vt
    → IsValid B (feed_csi c vt)
unfolding feed_csi
feed_final B c vt m digit semi v =
    rw (digit, semi) (enter-IsValid normal (csi_dispatch c vt) (csi_dispatch-IsValid c vt m v))
