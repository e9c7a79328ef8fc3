-- ===== src/Dns.antt =====
-- Host names and addresses (sw/common/zdns.c): the parser of dotted addresses. A C string is the list of its
-- bytes before the NUL.
pub mod Address
mod Tests
use zeitlos.Prelude.{
  ℕ, zero, suc, ◌+◌, ◌-◌, ◌*◌, ◌^◌, Bool, ◌&&◌, ◌||◌, not, Option, none, some, List, [], ◌∷◌, Bytes,
  ltb, leb, ◌==◌, if◌then◌else◌,
}

-- A step that fails ends the chain.
infixl 5 ◌>>=◌
abbrev pub ◌>>=◌ {ℓ κ} : {A : Type ℓ} {B : Type κ} → Option A → (A → Option B) → Option B
none >>= f = none
some a >>= f = f a

abbrev pub is_digit : ℕ → Bool
is_digit c = leb 0x30 c && leb c 0x39

-- The digits of one octet, with the value and the number of those before: the value, and what follows.
pub octet_loop : ℕ → ℕ → Bytes → Option (ℕ × Bytes)
octet_loop v digits [] = some (v, [])
octet_loop v digits (c ∷ s) =
    let v' = v * 10 + (c - 0x30) in
    let rest = octet_loop v' (digits + 1) s in
    if is_digit c
    then (if ltb 3 (digits + 1) || ltb 255 v' then none else rest)
    else some (v, c ∷ s)

pub octet : Bytes → Option (ℕ × Bytes)
octet [] = none
octet (c ∷ s) = if not (is_digit c) then none else octet_loop 0 0 (c ∷ s)

-- The dot before every octet but the first.
pub dot : Bytes → Option Bytes
dot [] = none
dot (c ∷ s) = if not (c == 0x2e) then none else some s

-- `n` more octets, each behind a dot, packed behind the value of those before.
pub octets : ℕ → ℕ → Bytes → Option ℕ
octets zero v [] = some v
octets zero v (c ∷ s) = none
octets (suc n) v s = do s' ← dot s; (o, rest) ← octet s'; octets n (v * 2 ^ 8 + o) rest

pub z_parse_ipv4 : Bytes → Option ℕ
z_parse_ipv4 s = do (o, rest) ← octet s; octets 3 o rest
