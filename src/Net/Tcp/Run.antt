-- ===== src/Net/Tcp/Run.antt =====
-- Runs of the TCP client (sw/apps/net/tcp.c): calls of its functions in any order, from boot on, and
-- what holds after every one.
use zeitlos.Prelude.{ℕ, some, List, [], ◌∷◌}
use zeitlos.Net.Tcp.{Tcp, tcp_init, tcp_connect, tcp_send, tcp_close, tcp_abort}
use zeitlos.Net.Tcp.Receive.{tcp_handle, tcp_poll}

-- A call, with the clock's readings in it. A connection names its handler.
pub data Call : Type 0 where
  init : ℕ → ℕ → Call
  connect : ℕ → ℕ → ℕ → ℕ → ℕ → Call
  send : ℕ → List ℕ → Call
  close : ℕ → Call
  abort : Call
  receive : ℕ → ℕ → List ℕ → ℕ → Call
  poll : ℕ → ℕ → Call

abbrev pub apply : Call → Tcp → Tcp
apply (init now ip) t = tcp_init now ip t
apply (connect now later ip port h) t = (tcp_connect now later ip port (some h) t).1
apply (send now octets) t = (tcp_send now octets t).1
apply (close now) t = (tcp_close now t).1
apply abort t = tcp_abort t
apply (receive now src_ip p len) t = tcp_handle now src_ip p len t
apply (poll now later) t = tcp_poll now later t

abbrev pub run : List Call → Tcp → Tcp
run [] t = t
run (c ∷ cs) t = run cs (apply c t)
