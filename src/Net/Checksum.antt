-- ===== src/Net/Checksum.antt =====
-- The Internet checksum (`ip_checksum` of sw/apps/net/ip.c, and the same loop in `tcp_checksum` of
-- tcp.c), and why a packet that carries its own checksum sums to nothing.
use zeitlos.Prelude.{
  ℕ, zero, suc, ◌+◌, ◌-◌, ◌*◌, ◌/◌, ◌%◌, ◌^◌, ◌≤◌, ◌<◌, ◌≡◌, refl, List, [], ◌∷◌, arith, All, add32,
  length, ◌==◌, if◌then◌else◌,
}

-- The words of the packet added up in 32 bits; the last byte of an odd length is a high byte.
pub add_words : ℕ → List ℕ → ℕ
add_words sum [] = sum
add_words sum (a ∷ []) = add32 sum (a * 2 ^ 8)
add_words sum (a ∷ b ∷ rest) = add_words (add32 sum (a * 2 ^ 8 + b)) rest

-- `while (sum >> 16) sum = (sum & 0xFFFF) + (sum >> 16);`
pub fold_carries : ℕ → ℕ → ℕ
fold_carries zero sum = sum
fold_carries (suc fuel) sum =
    let rest = fold_carries fuel (sum % 2 ^ 16 + sum / 2 ^ 16) in
    if sum / 2 ^ 16 == 0 then sum else rest

-- Two rounds are enough for a 32-bit sum.
abbrev pub fold_fuel : ℕ
fold_fuel = 3

-- `(uint16_t)(~sum)` after the carries.
pub complement : ℕ → ℕ
complement sum = (2 ^ 32 - 1 - fold_carries fold_fuel sum) % 2 ^ 16

unfoldable pub ip_checksum : List ℕ → ℕ
ip_checksum p = complement (add_words 0 p)

-- The same sum with no bound on it.
abbrev pub words : List ℕ → ℕ
words [] = 0
words (a ∷ []) = a * 2 ^ 8
words (a ∷ b ∷ rest) = a * 2 ^ 8 + b + words rest

pub add_words-words :
    (sum : ℕ) (p : List ℕ) → sum + words p < 2 ^ 32 → add_words sum p ≡ sum + words p
unfolding add_words
add_words-words sum [] h = omega arith
add_words-words sum (a ∷ []) h = omega arith
add_words-words sum (a ∷ b ∷ rest) h =
    omega (arith, add_words-words (add32 sum (a * 2 ^ 8 + b)) rest)

-- The loop ends by its test: the fuel is not what stops it.
pub fold_carries_ends : (sum : ℕ) → sum < 2 ^ 32 → fold_carries fold_fuel sum < 2 ^ 16
unfolding fold_carries
fold_carries_ends sum h = ground arith

fold_carries_mod : (fuel sum : ℕ) → fold_carries fuel sum % 65535 ≡ sum % 65535
unfolding fold_carries
fold_carries_mod zero sum = refl
fold_carries_mod (suc fuel) sum =
    ground (arith, fold_carries_mod fuel (sum % 2 ^ 16 + sum / 2 ^ 16))

fold_carries_pos : (fuel sum : ℕ) → 0 < sum → 0 < fold_carries fuel sum
unfolding fold_carries
fold_carries_pos zero sum h = h
fold_carries_pos (suc fuel) sum h =
    ground (arith, fold_carries_pos fuel (sum % 2 ^ 16 + sum / 2 ^ 16))

fold_carries_le : (fuel sum : ℕ) → fold_carries fuel sum ≤ sum
unfolding fold_carries
fold_carries_le zero sum = omega arith
fold_carries_le (suc fuel) sum = ground (arith, fold_carries_le fuel (sum % 2 ^ 16 + sum / 2 ^ 16))

pub complement-lt : (sum : ℕ) → complement sum < 2 ^ 16
unfolding complement
complement-lt sum = omega arith

-- A sum to which its own complement was added has the complement 0.
pub complement_cancels :
    (sum : ℕ) → sum + complement sum < 2 ^ 32 → complement (sum + complement sum) ≡ 0
unfolding complement
complement_cancels sum h = omega (
  arith,
  fold_carries_le fold_fuel sum,
  fold_carries_ends sum,
  fold_carries_ends (sum + complement sum),
  fold_carries_mod fold_fuel sum,
  fold_carries_mod fold_fuel (sum + complement sum),
  fold_carries_pos fold_fuel (sum + complement sum),
)

abbrev pub IsByte : ℕ → Type 0
IsByte b = b < 256

-- A packet of bytes has room below 2 ^ 32.
pub words-le : (p : List ℕ) → All IsByte p → words p ≤ length p * 65535
words-le [] h = omega arith
words-le (a ∷ []) h = omega arith
words-le (a ∷ b ∷ rest) h = omega (arith, words-le rest h.1.1)
