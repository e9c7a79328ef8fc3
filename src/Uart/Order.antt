-- ===== src/Uart/Order.antt =====
-- sw/os/uart.c: bytes leave in the order in which they were written, and are read in the order in which
-- they came.
use zeitlos.Prelude.{
  ℕ, ◌%◌, ◌/◌, ◌≡◌, Bool, ◌&&◌, ◌||◌, not, Option, none, some, List, [], ◌∷◌, ◌++◌, arith, length,
  leb, ◌==◌, if◌then◌else◌,
}
use zeitlos.Uart.{Uart, bit, z_uart_irq, k_uart_getc, k_uart_putc, k_uart_tx_full}
use zeitlos.Uart.Ring.{length-contents}
use zeitlos.Uart.Bytes.{IsValid, outgoing, incoming, stream, joins, putc-Stores, joining}

-- What reaches the driver: a write, with the line status that it would read, a read, or an interrupt
-- with the readings of its registers.
pub data Event : Type 0 where
  putc : ℕ → ℕ → Event
  getc : Event
  irq : ℕ → ℕ → List ℕ → List (ℕ × ℕ) → Event

unfoldable pub step : Event → Uart → Uart
step (putc lsr c) u = k_uart_putc lsr c u
step getc u = (k_uart_getc u).1
step (irq iir lsr status arrived) u = z_uart_irq iir lsr status arrived u

unfoldable pub run : List Event → Uart → Uart
run [] u = u
run (e ∷ es) u = run es (step e u)

abbrev pub is_receiving : ℕ → ℕ → Bool
is_receiving iir lsr = not (bit iir 0 || bit lsr 7) && (iir / 2 % 8 == 2 || iir / 2 % 8 == 6)

-- What one event adds to the bytes for the device, to those that came, and to those that were read.
abbrev pub accepted : Event → Uart → List ℕ
accepted (putc lsr c) u = joins (outgoing u) c
accepted _ u = []

abbrev pub received : Event → Uart → List ℕ
received (irq iir lsr status arrived) u =
    if is_receiving iir lsr then joining arrived (incoming u) else []
received _ u = []

abbrev pub option_list : Option ℕ → List ℕ
option_list none = []
option_list (some c) = c ∷ []

abbrev pub obtained : Event → Uart → List ℕ
obtained getc u = option_list (k_uart_getc u).0
obtained _ u = []

-- The same over a sequence of events.
pub over : (Event → Uart → List ℕ) → List Event → Uart → List ℕ
over f [] u = []
over f (e ∷ es) u = f e u ++ over f es (step e u)

record Advances (e : Event) (u v : Uart) : Type 0 where
  valid : IsValid v
  streams : stream v ≡ stream u ++ accepted e u
  incomes : obtained e u ++ incoming v ≡ incoming u ++ received e u

-- The test for a full ring holds exactly when 255 bytes wait and the writing index is not 255, while a
-- write is dropped exactly by the first: at that index a writer that has waited for the test loses its
-- byte.
pub k_uart_tx_full_misses :
    (lsr c : ℕ) (u : Uart)
    → IsValid u
    → (k_uart_tx_full u ≡ (leb 255 (length (outgoing u)) && not (u.tx_head == 255)))
      × (stream (k_uart_putc lsr c u) ≡ stream u ++ joins (outgoing u) c)
unfolding k_uart_tx_full
k_uart_tx_full_misses lsr c u h =
    let len = length-contents u.tx_fifo u.tx_head u.tx_tail in
    (ground (arith, h, len), (putc-Stores lsr c u h).streams)
