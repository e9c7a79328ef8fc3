-- ===== src/Uart/Tests.antt =====
-- sw/os/uart.c: a few events, and the theorems there.
use zeitlos.Prelude.{
  ◌≤◌, ◌≡◌, refl, not, ◌&&◌, List, [], ◌∷◌, ◌++◌, arith, replicate, length, leb, ◌==◌,
}
use zeitlos.Uart.{
  Uart, send_next, drain_loop, quiet_if_empty, transmit, receive_byte, receive_loop, z_uart_irq,
  k_uart_getc, enable_if_pending, store_byte, k_uart_putc, k_uart_tx_full,
}
use zeitlos.Uart.Bytes.{IsValid, outgoing, incoming, stream, joins}
use zeitlos.Uart.Order.{Event, putc, getc, irq, run, step, k_uart_tx_full_misses}

abbrev cleared : Uart
cleared = record {
  rx_fifo = replicate 512 0;
  tx_fifo = replicate 512 0;
  rx_head = 0;
  rx_tail = 0;
  tx_head = 0;
  tx_tail = 0;
  ier = 1;
  written = [];
}

room : 256 ≤ length cleared.tx_fifo
room = omega arith

-- The first byte goes out at once, the next two when the device has room, of the two bytes that come
-- one is read.
abbrev events : List Event
events =
    putc 0x60 1
    ∷ putc 0 2
    ∷ putc 0 3
    ∷ irq 4 1 [] ((1, 65) ∷ (1, 66) ∷ [])
    ∷ irq 2 0x20 (0x20 ∷ 0x20 ∷ []) []
    ∷ getc
    ∷ []

went :
    let u = run events cleared in
    (u.written ≡ 1 ∷ 2 ∷ 3 ∷ []) × (incoming u ≡ 66 ∷ []) × (u.ier ≡ 1)
unfolding run step send_next drain_loop quiet_if_empty transmit receive_byte receive_loop z_uart_irq
    k_uart_getc enable_if_pending store_byte k_uart_putc
went = (refl, refl, refl)

-- 255 bytes wait, the last at the index 254.
abbrev full : Uart
full = record cleared { tx_head = 255 }

full-IsValid : IsValid full
full-IsValid = record {
  rx_sized = room;
  tx_sized = room;
  rx_head_in = omega arith;
  rx_tail_in = omega arith;
  tx_head_in = omega arith;
  tx_tail_in = omega arith;
}

k_uart_tx_full_misses_example :
    (k_uart_tx_full full ≡ (leb 255 (length (outgoing full)) && not (full.tx_head == 255)))
    × (stream (k_uart_putc 0 7 full) ≡ stream full ++ joins (outgoing full) 7)
k_uart_tx_full_misses_example = k_uart_tx_full_misses 0 7 full full-IsValid
