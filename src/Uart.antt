-- ===== src/Uart.antt =====
-- The serial driver (sw/os/uart.c): a ring of bytes in each direction, between the system calls and
-- the interrupt. A call masks every interrupt from its first line to its last and is one step. What
-- the device's registers answer is an argument, and the bytes written to its data register are a list.
pub mod Ring
pub mod Bytes
pub mod Order
mod Tests
use zeitlos.Prelude.{
  ℕ, ◌+◌, ◌%◌, ◌/◌, ◌^◌, Bool, true, false, ◌&&◌, ◌||◌, not, Option, none, some, List, [], ◌∷◌,
  ◌++◌, ◌==◌, if◌then◌else◌, get_or, set,
}

abbrev pub fifo_size : ℕ
fifo_size = 512

pub record Uart : Type 0 where
  pub rx_fifo : List ℕ
  pub tx_fifo : List ℕ
  pub rx_head : ℕ
  pub rx_tail : ℕ
  pub tx_head : ℕ
  pub tx_tail : ℕ
  pub ier : ℕ
  pub written : List ℕ

-- An index is of 8 bits.
abbrev pub advance : ℕ → ℕ
advance i = (i + 1) % fifo_size % 2 ^ 8

-- Is bit `n` of the word set?
abbrev pub bit : ℕ → ℕ → Bool
bit word n = word / 2 ^ n % 2 == 1

abbrev pub z_uart_init : Uart → Uart
z_uart_init u = record u { ier = 1 }

-- The oldest byte of the ring goes to the device.
pub send_next : Uart → Uart
send_next u = record u {
  written = u.written ++ (get_or u.tx_fifo u.tx_tail 0 ∷ []);
  tx_tail = advance u.tx_tail;
}

-- The draining loop, on what the line status register reads as in each round.
pub drain_loop : List ℕ → Uart → Uart
drain_loop [] u = u
drain_loop (lsr ∷ rest) u =
    let on = drain_loop rest (send_next u) in
    if bit lsr 5 && not (u.tx_head == u.tx_tail) then on else u

pub quiet_if_empty : Uart → Uart
quiet_if_empty u = if u.tx_head == u.tx_tail then record u { ier = 1 } else u

pub transmit : List ℕ → Uart → Uart
transmit status u =
    if u.tx_head == u.tx_tail then record u { ier = 1 } else quiet_if_empty (drain_loop status u)

pub receive_byte : ℕ → Uart → Uart
receive_byte c u =
    let next = advance u.rx_head in
    if next == u.rx_tail
    then u
    else record u { rx_fifo = set u.rx_fifo u.rx_head c; rx_head = next }

-- The receiving loop, on the readings of the line status and the data register.
pub receive_loop : List (ℕ × ℕ) → Uart → Uart
receive_loop [] u = u
receive_loop ((lsr, c) ∷ rest) u =
    let on = receive_loop rest (receive_byte c u) in if bit lsr 0 then on else u

pub z_uart_irq : ℕ → ℕ → List ℕ → List (ℕ × ℕ) → Uart → Uart
z_uart_irq iir lsr status arrived u =
    let int_id = iir / 2 % 8 in
    if bit iir 0 || bit lsr 7
    then u
    else if int_id == 1
    then transmit status u
    else if int_id == 2 || int_id == 6
    then receive_loop arrived u
    else u

abbrev pub k_uart_rx_empty : Uart → Bool
k_uart_rx_empty u = u.rx_head == u.rx_tail

pub k_uart_tx_full : Uart → Bool
k_uart_tx_full u = (u.tx_head + 1) % fifo_size == u.tx_tail

-- `none` is the result -1.
pub k_uart_getc : Uart → Option ℕ × Uart
k_uart_getc u =
    if u.rx_head == u.rx_tail
    then (none, u)
    else (some (get_or u.rx_fifo u.rx_tail 0), record u { rx_tail = advance u.rx_tail })

pub enable_if_pending : Uart → Uart
enable_if_pending u = if not (u.tx_head == u.tx_tail) then record u { ier = 3 } else u

-- The byte goes into the ring, and to the device at once if it was empty and the device is ready.
pub store_byte : ℕ → ℕ → Uart → Uart
store_byte lsr c u =
    let v : Uart = record u { tx_fifo = set u.tx_fifo u.tx_head c; tx_head = advance u.tx_head } in
    if u.tx_head == u.tx_tail && bit lsr 5 then send_next v else v

pub k_uart_putc : ℕ → ℕ → Uart → Uart
k_uart_putc lsr c u =
    if advance u.tx_head == u.tx_tail then u else enable_if_pending (store_byte lsr c u)
