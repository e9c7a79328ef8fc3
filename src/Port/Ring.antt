-- ===== src/Port/Ring.antt =====
-- sw/common/zport.c: the sends that wait for an acknowledgment are a queue of at most eight.
use zeitlos.Prelude.{
  ℕ, suc, ◌+◌, ◌-◌, ◌%◌, ◌<◌, ◌≤◌, ◌≡◌, ◌∙◌, ap, ap₂, List, [], ◌∷◌, ◌++◌, arith, length,
  length-set, get_or, set, add32, sub32, IsDepth, window_in, window_in_push, window_in_head,
}
use zeitlos.Port.{Port, max_pending_sends, push, release}

pub port-IsDepth : IsDepth max_pending_sends
port-IsDepth = record {
  start = λ h lt. omega arith;
  inside = λ h. omega arith;
  next = λ h n. omega arith;
  apart = λ h j k lt in_depth. omega arith;
}

-- The headers that wait, oldest first.
abbrev pub waiting : Port → List ℕ
waiting p = window_in max_pending_sends 0 p.pending p.pending_head p.pending_count

pub record IsValid (p : Port) : Type 0 where
  pub sized : length p.pending ≡ max_pending_sends
  pub head_in : p.pending_head < max_pending_sends
  pub counted : p.pending_count ≤ max_pending_sends

pub push-IsValid :
    (header : ℕ) (p : Port)
    → IsValid p
    → p.pending_count < max_pending_sends
    → IsValid (push header p)
unfolding push
push-IsValid header p v lt =
    let i = add32 p.pending_head p.pending_count % max_pending_sends in
    ground (arith, v, length-set p.pending i header)

pub waiting-push :
    (header : ℕ) (p : Port)
    → IsValid p
    → p.pending_count < max_pending_sends
    → waiting (push header p) ≡ waiting p ++ (header ∷ [])
unfolding push
waiting-push header p v lt =
    let n : add32 p.pending_count 1 ≡ suc p.pending_count = omega (arith, lt) in
    let at : add32 p.pending_head p.pending_count % max_pending_sends
        ≡ (p.pending_head + p.pending_count) % max_pending_sends =
      omega (arith, lt, v.head_in) in
    ap₂ (λ i k. window_in max_pending_sends 0 (set p.pending i header) p.pending_head k) at n
    ∙ window_in_push port-IsDepth 0 p.pending p.pending_head p.pending_count header lt
        (omega (arith, v.sized))

pub release-IsValid : (p : Port) → IsValid p → 0 < p.pending_count → IsValid (release p).1
unfolding release
release-IsValid p v h = ground (arith, v)

-- What is released is the oldest that waits.
pub waiting-release :
    (p : Port)
    → IsValid p
    → 0 < p.pending_count
    → let (freed, q) = release p in waiting p ≡ freed ++ waiting q
unfolding release
waiting-release p v h =
    let n = p.pending_count - 1 in
    let some_left : p.pending_count ≡ suc n = omega arith in
    let fewer : n ≡ sub32 p.pending_count 1 = omega (arith, v.counted) in
    let at : (p.pending_head + 1) % max_pending_sends ≡ add32 p.pending_head 1 % max_pending_sends =
      omega (arith, v.head_in) in
    ap (window_in max_pending_sends 0 p.pending p.pending_head) some_left
    ∙ window_in_head port-IsDepth 0 p.pending p.pending_head n v.head_in
    ∙ ap₂ (λ i k. get_or p.pending p.pending_head 0 ∷ window_in max_pending_sends 0 p.pending i k)
        at fewer
