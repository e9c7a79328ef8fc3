-- ===== src/Uart/Ring.antt =====
-- sw/os/uart.c: each ring is a queue of at most 255 bytes, as its indices have 8 bits.
use zeitlos.Prelude.{
  ℕ, suc, ◌+◌, ◌-◌, ◌%◌, ◌≤◌, ◌<◌, ◌≡◌, ◌∙◌, ap, ap₂, List, [], ◌∷◌, ◌++◌, arith, length, get_or,
  set, leb, ◌==◌, IsDepth, window_in, length-window_in, window_in_push, window_in_head, true, false,
}
use zeitlos.Uart.{advance}

pub uart-IsDepth : IsDepth 256
uart-IsDepth = record {
  start = λ h lt. omega arith;
  inside = λ h. omega arith;
  next = λ h n. omega arith;
  apart = λ h j k lt in_depth. omega arith;
}

-- How many bytes a ring holds, and which, oldest first.
abbrev pub count : ℕ → ℕ → ℕ
count head tail = (head + 256 - tail) % 256

abbrev pub contents : List ℕ → ℕ → ℕ → List ℕ
contents fifo head tail = window_in 256 0 fifo tail (count head tail)

pub length-contents :
    (fifo : List ℕ) (head tail : ℕ) → length (contents fifo head tail) ≡ count head tail
length-contents fifo head tail = length-window_in 256 0 fifo tail (count head tail)

-- A byte behind the others, for a ring that has room.
pub contents-push :
    (fifo : List ℕ) (head tail c : ℕ)
    → 256 ≤ length fifo
    → head < 256
    → tail < 256
    → (advance head == tail) ≡ false
    → contents (set fifo head c) (advance head) tail ≡ contents fifo head tail ++ (c ∷ [])
contents-push fifo head tail c sized h t room =
    let n : count (advance head) tail ≡ suc (count head tail) = ground (arith, h, t, room) in
    let at : head ≡ (tail + count head tail) % 256 = omega (arith, h, t) in
    let lt : count head tail < 256 = omega arith in
    ap₂ (λ i k. window_in 256 0 (set fifo i c) tail k) at n
    ∙ window_in_push uart-IsDepth 0 fifo tail (count head tail) c lt sized

-- A ring is full, by its test, exactly when it holds 255 bytes.
pub full_lem :
    (head tail : ℕ) → head < 256 → tail < 256 → (advance head == tail) ≡ leb 255 (count head tail)
full_lem head tail h t = ground (arith, h, t)

-- The oldest byte, and those behind it.
pub contents-pop :
    (fifo : List ℕ) (head tail : ℕ)
    → head < 256
    → tail < 256
    → (head == tail) ≡ false
    → contents fifo head tail ≡ get_or fifo tail 0 ∷ contents fifo head (advance tail)
contents-pop fifo head tail h t some_left =
    let n = count head (advance tail) in
    let e : count head tail ≡ suc n = ground (arith, h, t, some_left) in
    let at : (tail + 1) % 256 ≡ advance tail = omega (arith, t) in
    ap (window_in 256 0 fifo tail) e
    ∙ window_in_head uart-IsDepth 0 fifo tail n t
    ∙ ap (λ i. get_or fifo tail 0 ∷ window_in 256 0 fifo i n) at

pub contents_empty :
    (fifo : List ℕ) (head tail : ℕ)
    → head < 256
    → tail < 256
    → (head == tail) ≡ true
    → contents fifo head tail ≡ []
contents_empty fifo head tail h t e =
    let none_left : count head tail ≡ 0 = ground (arith, h, t, e) in
    ap (window_in 256 0 fifo tail) none_left
