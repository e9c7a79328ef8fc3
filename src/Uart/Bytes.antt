-- ===== src/Uart/Bytes.antt =====
-- sw/os/uart.c: what one call or interrupt does to the bytes of both rings.
use zeitlos.Prelude.{
  ℕ, ◌≤◌, ◌<◌, ◌≡◌, ◌∙◌, refl, sym, ap, Bool, true, false, ◌&&◌, not, List, [], ◌∷◌, ◌++◌,
  append-nil, append_assoc, arith, length, length-set, set, leb, ◌==◌, if◌then◌else◌, Bool-cases,
  inl, inr,
}
use zeitlos.Uart.{
  Uart, advance, bit, send_next, drain_loop, quiet_if_empty, transmit, receive_byte, receive_loop,
  enable_if_pending, store_byte, k_uart_putc,
}
use zeitlos.Uart.Ring.{contents, length-contents, contents-push, full_lem, contents-pop}

pub record IsValid (u : Uart) : Type 0 where
  pub rx_sized : 256 ≤ length u.rx_fifo
  pub tx_sized : 256 ≤ length u.tx_fifo
  pub rx_head_in : u.rx_head < 256
  pub rx_tail_in : u.rx_tail < 256
  pub tx_head_in : u.tx_head < 256
  pub tx_tail_in : u.tx_tail < 256

-- The bytes that wait for the device, and those that wait for a reader.
abbrev pub outgoing : Uart → List ℕ
outgoing u = contents u.tx_fifo u.tx_head u.tx_tail

abbrev pub incoming : Uart → List ℕ
incoming u = contents u.rx_fifo u.rx_head u.rx_tail

-- All that was accepted for the device: what it has, and what waits.
abbrev pub stream : Uart → List ℕ
stream u = u.written ++ outgoing u

-- A step that may hand waiting bytes to the device, and does nothing else to the bytes.
pub record Sends (u v : Uart) : Type 0 where
  pub valid : IsValid v
  pub streams : stream v ≡ stream u
  pub incomes : incoming v ≡ incoming u

pub Sends-refl : (u : Uart) → IsValid u → Sends u u
Sends-refl u h = record { valid = h; streams = refl; incomes = refl }

pub Sends-trans : (u v w : Uart) → Sends u v → Sends v w → Sends u w
Sends-trans u v w h k = record {
  valid = k.valid;
  streams = k.streams ∙ h.streams;
  incomes = k.incomes ∙ h.incomes;
}

pub Sends-send_next :
    (u : Uart) → IsValid u → (u.tx_head == u.tx_tail) ≡ false → Sends u (send_next u)
unfolding send_next
Sends-send_next u h e =
    let rest = contents-pop u.tx_fifo u.tx_head u.tx_tail h.tx_head_in h.tx_tail_in e in
    record {
      valid = record {
        rx_sized = h.rx_sized;
        tx_sized = h.tx_sized;
        rx_head_in = h.rx_head_in;
        rx_tail_in = h.rx_tail_in;
        tx_head_in = h.tx_head_in;
        tx_tail_in = omega arith;
      };
      streams = append_assoc u.written _ _ ∙ ap (u.written ++◌) (sym rest);
      incomes = refl;
    }

pub Sends-ier : (u : Uart) (i : ℕ) → IsValid u → Sends u (record u { ier = i })
Sends-ier u i h = record { valid = omega (arith, h); streams = refl; incomes = refl }

pub Sends-drain_loop : (status : List ℕ) (u : Uart) → IsValid u → Sends u (drain_loop status u)
unfolding drain_loop
Sends-drain_loop [] u h = Sends-refl u h
Sends-drain_loop (lsr ∷ rest) u h = elim (Bool-cases (bit lsr 5)) [
  | inr e ↦ rw e (Sends-refl u h)
  | inl e ↦ elim (Bool-cases (u.tx_head == u.tx_tail)) [
    | inl f ↦ rw (e, f) (Sends-refl u h)
    | inr f ↦
        let s = Sends-send_next u h f in
        rw (e, f) (Sends-trans u (send_next u) _ s (Sends-drain_loop rest (send_next u) s.valid))
  ]
]

pub Sends-transmit : (status : List ℕ) (u : Uart) → IsValid u → Sends u (transmit status u)
unfolding transmit quiet_if_empty
Sends-transmit status u h = elim (Bool-cases (u.tx_head == u.tx_tail)) [
  | inl e ↦ rw e (Sends-ier u 1 h)
  | inr e ↦
      let v = drain_loop status u in
      let s = Sends-drain_loop status u h in
      elim (Bool-cases (v.tx_head == v.tx_tail)) [
        | inl f ↦ rw (e, f) (Sends-trans u v _ s (Sends-ier v 1 s.valid))
        | inr f ↦ rw (e, f) s
      ]
]

-- The queue's answer to a byte that comes: it joins unless 255 wait.
abbrev pub joins : List ℕ → ℕ → List ℕ
joins q c = if leb 255 (length q) then [] else c ∷ []

pub record Stores (c : ℕ) (u v : Uart) : Type 0 where
  pub valid : IsValid v
  pub streams : stream v ≡ stream u ++ joins (outgoing u) c
  pub incomes : incoming v ≡ incoming u

pub putc-Stores : (lsr c : ℕ) (u : Uart) → IsValid u → Stores c u (k_uart_putc lsr c u)
unfolding k_uart_putc store_byte enable_if_pending
putc-Stores lsr c u h =
    let full = full_lem u.tx_head u.tx_tail h.tx_head_in h.tx_tail_in in
    let len = length-contents u.tx_fifo u.tx_head u.tx_tail in
    let joined : Bool → List ℕ = λ b. stream u ++ (if b then [] else c ∷ []) in
    elim (Bool-cases (advance u.tx_head == u.tx_tail)) [
      | inl e ↦
          let f : leb 255 (length (outgoing u)) ≡ true = rw len (sym full ∙ e) in
          rw e (record {
            valid = h;
            streams = sym (append-nil (stream u)) ∙ ap joined (sym f);
            incomes = refl;
          })
      | inr e ↦
          let f : leb 255 (length (outgoing u)) ≡ false = rw len (sym full ∙ e) in
          let v : Uart = record u {
            tx_fifo = set u.tx_fifo u.tx_head c;
            tx_head = advance u.tx_head;
          } in
          let longer =
            contents-push u.tx_fifo u.tx_head u.tx_tail c h.tx_sized h.tx_head_in h.tx_tail_in e in
          let good : IsValid v = omega (arith, h, length-set u.tx_fifo u.tx_head c) in
          let some_left : (v.tx_head == v.tx_tail) ≡ false = e in
          let w = if u.tx_head == u.tx_tail && bit lsr 5 then send_next v else v in
          let s : Sends v w = elim (Bool-cases (u.tx_head == u.tx_tail && bit lsr 5)) [
            | inl g ↦ rw g (Sends-send_next v good some_left)
            | inr g ↦ rw g (Sends-refl v good)
          ] in
          let t : Sends v (if not (w.tx_head == w.tx_tail) then record w { ier = 3 } else w) =
            elim (Bool-cases (w.tx_head == w.tx_tail)) [
              | inl g ↦ rw g s
              | inr g ↦ rw g (Sends-trans v w _ s (Sends-ier w 3 s.valid))
            ] in
          rw e (record {
            valid = t.valid;
            streams =
                t.streams
                ∙ ap (u.written ++◌) longer
                ∙ sym (append_assoc u.written _ _)
                ∙ ap joined (sym f);
            incomes = t.incomes;
          })
    ]

-- A step on the receiving ring alone: what it holds afterwards.
pub record Receives (q : List ℕ) (u v : Uart) : Type 0 where
  pub valid : IsValid v
  pub streams : stream v ≡ stream u
  pub incomes : incoming v ≡ q

pub receive_byte-Receives :
    (c : ℕ) (u : Uart)
    → IsValid u
    → Receives (incoming u ++ joins (incoming u) c) u (receive_byte c u)
unfolding receive_byte
receive_byte-Receives c u h =
    let full = full_lem u.rx_head u.rx_tail h.rx_head_in h.rx_tail_in in
    let len = length-contents u.rx_fifo u.rx_head u.rx_tail in
    let joined : Bool → List ℕ = λ b. incoming u ++ (if b then [] else c ∷ []) in
    let f : leb 255 (length (incoming u)) ≡ (advance u.rx_head == u.rx_tail) = rw len (sym full) in
    elim (Bool-cases (advance u.rx_head == u.rx_tail)) [
      | inl e ↦ rw e (record {
        valid = h;
        streams = refl;
        incomes = sym (append-nil (incoming u)) ∙ ap joined (sym (f ∙ e));
      })
      | inr e ↦
          let longer =
            contents-push u.rx_fifo u.rx_head u.rx_tail c h.rx_sized h.rx_head_in h.rx_tail_in e in
          rw e (record {
            valid = omega (arith, h, length-set u.rx_fifo u.rx_head c);
            streams = refl;
            incomes = longer ∙ ap joined (sym (f ∙ e));
          })
    ]

-- Those of the arriving bytes that join a queue; the device ends the loop.
abbrev pub joining : List (ℕ × ℕ) → List ℕ → List ℕ
joining [] q = []
joining ((lsr, c) ∷ rest) q = if bit lsr 0 then joins q c ++ joining rest (q ++ joins q c) else []

pub receive_loop-Receives :
    (arrived : List (ℕ × ℕ)) (u : Uart)
    → IsValid u
    → Receives (incoming u ++ joining arrived (incoming u)) u (receive_loop arrived u)
unfolding receive_loop
receive_loop-Receives [] u h = record {
  valid = h;
  streams = refl;
  incomes = sym (append-nil (incoming u));
}
receive_loop-Receives ((lsr, c) ∷ rest) u h =
    let one = receive_byte-Receives c u h in
    let more = receive_loop-Receives rest (receive_byte c u) one.valid in
    elim (Bool-cases (bit lsr 0)) [
      | inr e ↦ rw e (record { valid = h; streams = refl; incomes = sym (append-nil (incoming u)) })
      | inl e ↦ rw e (record {
        valid = more.valid;
        streams = more.streams ∙ one.streams;
        incomes =
            more.incomes
            ∙ ap (λ q. q ++ joining rest q) one.incomes
            ∙ append_assoc (incoming u) _ _;
      })
    ]
