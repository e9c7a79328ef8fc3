-- ===== src/Net/Octets.antt =====
-- How the network code reads and writes big-endian fields of a packet (sw/apps/net): a packet is the
-- list of its bytes.
use zeitlos.Prelude.{ℕ, ◌+◌, ◌*◌, ◌/◌, ◌%◌, ◌^◌, ◌<◌, ◌≡◌, List, arith, get_or}

-- `p[i]`.
abbrev pub byte : List ℕ → ℕ → ℕ
byte p i = get_or p i 0

-- `(p[i] << 8) | p[i + 1]`.
abbrev pub get16 : List ℕ → ℕ → ℕ
get16 p i = byte p i * 2 ^ 8 + byte p (i + 1)

abbrev pub get32 : List ℕ → ℕ → ℕ
get32 p i = byte p i * 2 ^ 24 + byte p (i + 1) * 2 ^ 16 + byte p (i + 2) * 2 ^ 8 + byte p (i + 3)

-- The bytes of a field, the highest first.
abbrev pub hi16 : ℕ → ℕ
hi16 v = v / 2 ^ 8 % 2 ^ 8

abbrev pub lo16 : ℕ → ℕ
lo16 v = v % 2 ^ 8

-- A field that was written is read back.
pub get16_lem : (v : ℕ) → v < 2 ^ 16 → hi16 v * 2 ^ 8 + lo16 v ≡ v
get16_lem v h = omega arith

pub get32_lem :
    (v : ℕ)
    → v < 2 ^ 32
    → v / 2 ^ 24 % 2 ^ 8 * 2 ^ 24
        + v / 2 ^ 16 % 2 ^ 8 * 2 ^ 16
        + v / 2 ^ 8 % 2 ^ 8 * 2 ^ 8
        + v % 2 ^ 8
      ≡ v
get32_lem v h = omega arith
