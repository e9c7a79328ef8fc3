-- ===== src/Net/Udp.antt =====
-- UDP (sw/apps/net/udp.c): four listeners, each a port and a handler. A handler is a number; a call of
-- one is a value.
pub mod Ports
pub mod Delivery
use zeitlos.Prelude.{
  ℕ, ◌+◌, ◌-◌, ◌*◌, ◌/◌, ◌%◌, ◌^◌, Bool, true, false, ◌&&◌, not, Option, none, some, List, [], ◌∷◌,
  ltb, ◌==◌, if◌then◌else◌, drop, length,
}
use zeitlos.Net.Octets.{get16, hi16, lo16}
use zeitlos.Net.Ip.{Ip, ip_send}

-- `udp_listener_t`.
pub record Listener : Type 0 where
  pub used : Bool
  pub port : ℕ
  pub handler : ℕ

abbrev pub listens : ℕ → Listener → Bool
listens port l = l.used && l.port == port

-- The first loop of `udp_listen`.
pub replace : ℕ → ℕ → List Listener → Option (List Listener)
replace port handler [] = none
replace port handler (l ∷ ls) =
    let rest = replace port handler ls in
    if listens port l
    then some (record l { handler = handler } ∷ ls)
    else elim rest [ none ↦ none | some ls' ↦ some (l ∷ ls') ]

-- The second.
pub claim : ℕ → ℕ → List Listener → Option (List Listener)
claim port handler [] = none
claim port handler (l ∷ ls) =
    let rest = claim port handler ls in
    if not l.used
    then some (record { used = true; port = port; handler = handler } ∷ ls)
    else elim rest [ none ↦ none | some ls' ↦ some (l ∷ ls') ]

pub udp_listen : ℕ → ℕ → List Listener → List Listener
udp_listen port handler ls = elim (replace port handler ls) [
  | some ls' ↦ ls'
  | none ↦ elim (claim port handler ls) [ some ls' ↦ ls' | none ↦ ls ]
]

pub udp_close : ℕ → List Listener → List Listener
udp_close port [] = []
udp_close port (l ∷ ls) =
    (if listens port l then record l { used = false } else l) ∷ udp_close port ls

abbrev pub udp_max_payload : ℕ
udp_max_payload = 1472

pub datagram : ℕ → ℕ → List ℕ → List ℕ
datagram dst_port src_port octets =
    let total_len = 8 + length octets in
    hi16 src_port
    ∷ lo16 src_port
    ∷ hi16 dst_port
    ∷ lo16 dst_port
    ∷ hi16 total_len
    ∷ lo16 total_len
    ∷ 0
    ∷ 0
    ∷ octets

pub udp_send : ℕ → ℕ → ℕ → List ℕ → Ip → Bool × Ip
udp_send dst_ip dst_port src_port octets t =
    if ltb udp_max_payload (length octets)
    then (false, t)
    else ip_send dst_ip 17 (datagram dst_port src_port octets) t

-- A call of a handler: the sender, its port, the payload from its first byte on and its length.
pub record Received : Type 0 where
  pub handler : ℕ
  pub src_ip : ℕ
  pub src_port : ℕ
  pub payload : List ℕ
  pub len : ℕ

unfoldable pub listener_of : ℕ → List Listener → Option ℕ
listener_of port [] = none
listener_of port (l ∷ ls) = if listens port l then some l.handler else listener_of port ls

pub udp_handle : ℕ → List ℕ → ℕ → List Listener → Option Received
udp_handle src_ip p len ls =
    if ltb len 8
    then none
    else if ltb len (get16 p 4)
    then none
    else elim (listener_of (get16 p 2) ls) [
      | none ↦ none
      | some h ↦ some (record {
        handler = h;
        src_ip = src_ip;
        src_port = get16 p 0;
        payload = drop 8 p;
        len = (get16 p 4 + 2 ^ 16 - 8) % 2 ^ 16;
      })
    ]
