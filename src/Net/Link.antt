-- ===== src/Net/Link.antt =====
-- Ethernet framing (sw/apps/net/eth.c). The driver is a function in the state: whether it takes a frame
-- (`phy_send`, a macro over one of two drivers). The frames handed to it are a list, in order.
use zeitlos.Prelude.{
  ℕ, ◌+◌, ◌-◌, ◌^◌, ◌<◌, ◌≡◌, Bool, false, List, [], ◌∷◌, ◌++◌, arith, ltb, if◌then◌else◌, length,
  drop, replicate, length-append, length-replicate, max, ◌≡◌,
}
use zeitlos.Net.Octets.{byte, get16, hi16, lo16}

-- `uint8_t mac[6]`.
pub record Mac : Type 0 where
  pub m0 : ℕ
  pub m1 : ℕ
  pub m2 : ℕ
  pub m3 : ℕ
  pub m4 : ℕ
  pub m5 : ℕ

abbrev pub octets : Mac → List ℕ
octets m = m.m0 ∷ m.m1 ∷ m.m2 ∷ m.m3 ∷ m.m4 ∷ m.m5 ∷ []

-- The six bytes from `p[i]` on.
abbrev pub mac_at : List ℕ → ℕ → Mac
mac_at p i = record {
  m0 = byte p i;
  m1 = byte p (i + 1);
  m2 = byte p (i + 2);
  m3 = byte p (i + 3);
  m4 = byte p (i + 4);
  m5 = byte p (i + 5);
}

pub record Link : Type 0 where
  pub our_mac : Mac
  pub phy_send : List ℕ → Bool
  pub sent : List (List ℕ)

abbrev pub eth_mtu : ℕ
eth_mtu = 1518

abbrev pub ethertype_ipv4 : ℕ
ethertype_ipv4 = 0x0800

abbrev pub ethertype_arp : ℕ
ethertype_arp = 0x0806

abbrev pub bcast_mac : Mac
bcast_mac = record { m0 = 0xff; m1 = 0xff; m2 = 0xff; m3 = 0xff; m4 = 0xff; m5 = 0xff }

pub eth_init : Mac → Link → Link
eth_init mac l = record l { our_mac = mac }

-- A frame, with zeros up to 60 bytes.
unfoldable pub frame : Mac → Mac → ℕ → List ℕ → List ℕ
frame dst_mac src_mac ethertype payload =
    octets dst_mac
    ++ (octets src_mac
        ++ (hi16 ethertype
            ∷ lo16 ethertype
            ∷ (payload ++ replicate (60 - (14 + length payload)) 0)))

unfoldable pub eth_send : Mac → ℕ → List ℕ → Link → Bool × Link
eth_send dst_mac ethertype payload l =
    if ltb eth_mtu (14 + length payload)
    then (false, l)
    else (let f = frame dst_mac l.our_mac ethertype payload in
        (l.phy_send f, record l { sent = l.sent ++ (f ∷ []) }))

-- What `eth_poll` reads of a frame of at least 14 bytes.
pub record Frame : Type 0 where
  pub ethertype : ℕ
  pub src_mac : Mac
  pub payload : List ℕ

unfoldable pub read_frame : List ℕ → Frame
read_frame f = record { ethertype = get16 f 12; src_mac = mac_at f 6; payload = drop 14 f }

-- What is read of a frame is what was framed, with zeros behind a short payload.
pub read_frame-frame :
    (dst src : Mac) (ethertype : ℕ) (payload : List ℕ)
    → ethertype < 2 ^ 16
    → read_frame (frame dst src ethertype payload) ≡ record {
      ethertype = ethertype;
      src_mac = src;
      payload = payload ++ replicate (46 - length payload) 0;
    }
unfolding read_frame frame
read_frame-frame dst src ethertype payload h = ground arith

-- No frame is shorter than 60 bytes.
pub length-frame :
    (dst src : Mac) (ethertype : ℕ) (payload : List ℕ)
    → length (frame dst src ethertype payload) ≡ 14 + max 46 (length payload)
unfolding frame
length-frame dst src ethertype payload = omega (
  arith,
  length-append payload (replicate (60 - (14 + length payload)) 0),
  length-replicate {A = ℕ} (60 - (14 + length payload)) 0,
)
