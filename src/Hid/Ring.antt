-- ===== src/Hid/Ring.antt =====
-- sw/os/hid.c: the ring is a queue of at most 31 events that drops what does not fit.
use zeitlos.Prelude.{
  ℕ, suc, ◌+◌, ◌-◌, ◌%◌, ◌<◌, ◌≡◌, ◌∙◌, refl, ap, ap₂, Option, none, some, List, [], ◌∷◌, ◌++◌,
  arith, length, length-set, leb, ◌==◌, if◌then◌else◌, get_or, set, window_in, length-window_in,
  window_in_push, window_in_head, Bool-cases, inl, inr,
}
use zeitlos.Msg.Ring.{mailbox-IsDepth}
use zeitlos.Hid.{fifo_size, Fifo, hid_push, k_hid_read_key}

-- How many events are pending.
abbrev pub count : Fifo → ℕ
count f = (f.head + 32 - f.tail) % 32

-- The pending events, oldest first. The ring has as many slots as a mailbox.
abbrev pub contents : Fifo → List ℕ
contents f = window_in 32 0 f.slots f.tail (count f)

pub record IsValid (f : Fifo) : Type 0 where
  pub sized : length f.slots ≡ fifo_size
  pub head_in : f.head < fifo_size
  pub tail_in : f.tail < fifo_size

abbrev pub enqueue : ℕ → List ℕ → List ℕ
enqueue ev q = if leb 31 (length q) then q else q ++ (ev ∷ [])

abbrev pub dequeue : List ℕ → Option ℕ × List ℕ
dequeue [] = (none, [])
dequeue (x ∷ q) = (some x, q)

pub hid_push-IsValid : (ev : ℕ) (f : Fifo) → IsValid f → IsValid (hid_push ev f)
unfolding hid_push
hid_push-IsValid ev f v = ground (arith, v, length-set f.slots f.head ev)

full_lem :
    (f : Fifo) → IsValid f → ((f.head + 1) % fifo_size == f.tail) ≡ leb 31 (length (contents f))
full_lem f v = ground (arith, length-window_in 32 0 f.slots f.tail (count f), v)

pushed :
    (ev : ℕ) (f : Fifo)
    → IsValid f
    → count f < 31
    → window_in 32 0 (set f.slots f.head ev) f.tail ((((f.head + 1) % 32) + 32 - f.tail) % 32)
      ≡ contents f ++ (ev ∷ [])
pushed ev f v h =
    let n : (((f.head + 1) % 32) + 32 - f.tail) % 32 ≡ suc (count f) =
      omega (arith, h, v.head_in, v.tail_in) in
    let at : f.head ≡ (f.tail + count f) % 32 = omega (arith, v.head_in, v.tail_in) in
    ap₂ (λ i k. window_in 32 0 (set f.slots i ev) f.tail k) at n
    ∙ window_in_push mailbox-IsDepth 0 f.slots f.tail (count f) ev (omega (arith, h))
        (omega (arith, v.sized))

-- A push appends the event to the queue, or drops it when 31 are pending.
pub hid_push_refines :
    (ev : ℕ) (f : Fifo) → IsValid f → contents (hid_push ev f) ≡ enqueue ev (contents f)
unfolding hid_push
hid_push_refines ev f v = elim (Bool-cases ((f.head + 1) % fifo_size == f.tail)) [
  | inl e ↦ rw (← full_lem f v, e) refl
  | inr e ↦ rw (← full_lem f v, e) (pushed ev f v (ground (arith, e, v)))
]

popped :
    (f : Fifo) (n : ℕ)
    → IsValid f
    → count f ≡ suc n
    → contents f ≡ get_or f.slots f.tail 0 ∷ window_in 32 0 f.slots ((f.tail + 1) % 32) n
popped f n v e =
    ap (window_in 32 0 f.slots f.tail) e
    ∙ window_in_head mailbox-IsDepth 0 f.slots f.tail n v.tail_in

-- A read takes the oldest pending event, and returns nothing exactly when none is pending.
pub k_hid_read_key_refines :
    (f : Fifo)
    → IsValid f
    → let (r, f') = k_hid_read_key f in (r, contents f') ≡ dequeue (contents f)
unfolding k_hid_read_key
k_hid_read_key_refines f v = elim (Bool-cases (f.head == f.tail)) [
  | inl e ↦
      let none_left : count f ≡ 0 = ground (arith, e, v) in
      let empty : contents f ≡ [] = ap (window_in 32 0 f.slots f.tail) none_left in
      rw (e, empty) refl
  | inr e ↦
      let n = count f - 1 in
      let some_left : count f ≡ suc n = ground (arith, e, v) in
      let fewer : (f.head + 32 - (f.tail + 1) % 32) % 32 ≡ n = ground (arith, e, v) in
      rw (e, popped f n v some_left)
        (ap (λ k. (some (get_or f.slots f.tail 0), window_in 32 0 f.slots ((f.tail + 1) % 32) k))
          fewer)
]

pub k_hid_read_key-IsValid : (f : Fifo) → IsValid f → IsValid (k_hid_read_key f).1
unfolding k_hid_read_key
k_hid_read_key-IsValid f v = ground (arith, v)
