-- ===== src/Dns/Address.antt =====
-- sw/common/zdns.c: the parser reads back what a dotted address is written as, and what it accepts is a word.
use zeitlos.Prelude.{
  ℕ, zero, suc, ◌+◌, ◌-◌, ◌*◌, ◌/◌, ◌%◌, ◌^◌, ◌≤◌, ◌<◌, ◌≡◌, ◌∙◌, refl, sym, ap, true, false, ◌||◌,
  none, some, [], ◌∷◌, ◌++◌, append-nil, Bytes, arith, ltb, if◌then◌else◌, Bool-cases, Option-cases,
  inl, inr,
}
use zeitlos.Dns.{is_digit, octet_loop, octet, dot, octets, z_parse_ipv4}

-- An octet in decimal, without leading zeros.
abbrev pub decimal : ℕ → Bytes
decimal n =
    if ltb n 10
    then (48 + n) ∷ []
    else if ltb n 100
    then (48 + n / 10) ∷ (48 + n % 10) ∷ []
    else (48 + n / 100) ∷ (48 + n / 10 % 10) ∷ (48 + n % 10) ∷ []

abbrev pub dotted : ℕ → ℕ → ℕ → ℕ → Bytes
dotted a b c d = decimal a ++ (0x2e ∷ (decimal b ++ (0x2e ∷ (decimal c ++ (0x2e ∷ decimal d)))))

-- What may follow an octet.
abbrev Stops : Bytes → Type 0
Stops [] = Unit {0}
Stops (c ∷ s) = is_digit c ≡ false

Stops-loop : (v k : ℕ) (s : Bytes) → Stops s → octet_loop v k s ≡ some (v, s)
unfolding octet_loop
Stops-loop v k [] h = refl
Stops-loop v k (c ∷ s) h = rw h refl

-- One digit more.
digit_loop :
    (v k d : ℕ) (s : Bytes)
    → d < 10
    → k < 3
    → v * 10 + d ≤ 255
    → octet_loop v k ((48 + d) ∷ s) ≡ octet_loop (v * 10 + d) (k + 1) s
unfolding octet_loop
digit_loop v k d s hd hk hv =
    let same : 48 + d - 48 ≡ d = omega arith in
    let digit : is_digit (48 + d) ≡ true = ground (arith, hd) in
    let room : (ltb 3 (k + 1) || ltb 255 (v * 10 + d)) ≡ false = ground (arith, hk, hv) in
    rw (digit, same, room) refl

octet_starts : (d : ℕ) (s : Bytes) → d < 10 → octet ((48 + d) ∷ s) ≡ octet_loop 0 0 ((48 + d) ∷ s)
unfolding octet
octet_starts d s h = let digit : is_digit (48 + d) ≡ true = ground (arith, h) in rw digit refl

octet-decimal : (n : ℕ) (s : Bytes) → n < 256 → Stops s → octet (decimal n ++ s) ≡ some (n, s)
octet-decimal n s h stop = elim (Bool-cases (ltb n 10)) [
  | inl one ↦ rw one (
      octet_starts n s (ground (arith, one))
      ∙ digit_loop 0 0 n s (ground (arith, one)) (omega arith) (omega (arith, h))
      ∙ Stops-loop (0 * 10 + n) 1 s stop
      ∙ ap (λ v. some (v, s)) (omega arith))
  | inr more ↦ elim (Bool-cases (ltb n 100)) [
    | inl two ↦
        let x = n / 10 in
        let y = n % 10 in
        let hx : x < 10 = ground (arith, two) in
        rw (more, two)
          (octet_starts x _ hx
            ∙ digit_loop 0 0 x _ hx (omega arith) (omega (arith, hx))
            ∙ digit_loop (0 * 10 + x) 1 y s (omega arith) (omega arith) (omega (arith, h))
            ∙ Stops-loop ((0 * 10 + x) * 10 + y) 2 s stop
            ∙ ap (λ v. some (v, s)) (omega arith))
    | inr three ↦
        let x = n / 100 in
        let y = n / 10 % 10 in
        let z = n % 10 in
        let hx : x < 10 = omega (arith, h) in
        rw (more, three)
          (octet_starts x _ hx
            ∙ digit_loop 0 0 x _ hx (omega arith) (omega (arith, hx))
            ∙ digit_loop (0 * 10 + x) 1 y _ (omega arith) (omega arith) (omega (arith, h))
            ∙ digit_loop ((0 * 10 + x) * 10 + y) 2 z s (omega arith) (omega arith)
                (omega (arith, h))
            ∙ Stops-loop (((0 * 10 + x) * 10 + y) * 10 + z) 3 s stop
            ∙ ap (λ v. some (v, s)) (omega arith))
  ]
]

octets-decimal :
    (n v o : ℕ) (s : Bytes)
    → o < 256
    → Stops s
    → octets (suc n) v (0x2e ∷ (decimal o ++ s)) ≡ octets n (v * 2 ^ 8 + o) s
unfolding octets dot
octets-decimal n v o s h stop = rw (octet-decimal o s h stop) refl

-- A dotted address of four octets is read back as the word that they make, the first in the highest byte.
pub z_parse_ipv4-dotted :
    (a b c d : ℕ)
    → a < 256
    → b < 256
    → c < 256
    → d < 256
    → z_parse_ipv4 (dotted a b c d) ≡ some (a * 2 ^ 24 + b * 2 ^ 16 + c * 2 ^ 8 + d)
unfolding z_parse_ipv4 octets
z_parse_ipv4-dotted a b c d ha hb hc hd =
    let v = (a * 2 ^ 8 + b) * 2 ^ 8 + c in
    let last : octets 1 v (0x2e ∷ decimal d) ≡ some (v * 2 ^ 8 + d) =
      ap (λ l. octets 1 v (0x2e ∷ l)) (sym (append-nil (decimal d)))
      ∙ octets-decimal 0 v d [] hd tt in
    rw (octet-decimal a (0x2e ∷ (decimal b ++ (0x2e ∷ (decimal c ++ (0x2e ∷ decimal d))))) ha refl)
      (octets-decimal 2 a b (0x2e ∷ (decimal c ++ (0x2e ∷ decimal d))) hb refl
        ∙ octets-decimal 1 (a * 2 ^ 8 + b) c (0x2e ∷ decimal d) hc refl
        ∙ last
        ∙ ap some (omega arith))

octet_loop-le :
    (v k : ℕ) (s : Bytes) (o : ℕ) (rest : Bytes)
    → v ≤ 255
    → octet_loop v k s ≡ some (o, rest)
    → o ≤ 255
unfolding octet_loop
octet_loop-le v k [] o rest h e = ground (arith, h, e)
octet_loop-le v k (c ∷ s) o rest h e =
    ground (arith, h, e, octet_loop-le (v * 10 + (c - 0x30)) (k + 1) s o rest)

octet-le : (s : Bytes) (o : ℕ) (rest : Bytes) → octet s ≡ some (o, rest) → o ≤ 255
unfolding octet
octet-le [] o rest e = cc
octet-le (c ∷ s) o rest e = ground (arith, e, octet_loop-le 0 0 (c ∷ s) o rest (omega arith))

-- What `n` more octets make at most behind a value.
abbrev bound : ℕ → ℕ → ℕ
bound zero v = v
bound (suc n) v = bound n (v * 2 ^ 8 + 255)

some_lem : {A : Type 0} {a b : A} → some a ≡ some b → a ≡ b
some_lem e = cc

octets-le : (n v w : ℕ) (s : Bytes) (x : ℕ) → v ≤ w → octets n v s ≡ some x → x ≤ bound n w
unfolding octets
octets-le zero v w [] x h e = omega (arith, h, some_lem e)
octets-le zero v w (c ∷ s) x h e = cc
octets-le (suc n) v w s x h e = elim (Option-cases (dot s)) [
  | inl z ↦ (let bad : none ≡ some x = rw z at e in cc)
  | inr (s', z) ↦ elim (Option-cases (octet s')) [
    | inl y ↦ (let bad : none ≡ some x = rw (z, y) at e in cc)
    | inr ((o, rest), y) ↦
        let e' : octets n (v * 2 ^ 8 + o) rest ≡ some x = rw (z, y) at e in
        octets-le n (v * 2 ^ 8 + o) (w * 2 ^ 8 + 255) rest x
          (omega (arith, h, octet-le s' o rest y)) e'
  ]
]

-- Whatever the parser accepts is a 32-bit word: no octet runs into the next.
pub z_parse_ipv4-lt : (s : Bytes) (x : ℕ) → z_parse_ipv4 s ≡ some x → x < 2 ^ 32
unfolding z_parse_ipv4
z_parse_ipv4-lt s x e = elim (Option-cases (octet s)) [
  | inl z ↦ (let bad : none ≡ some x = rw z at e in cc)
  | inr ((o, rest), z) ↦
      let e' : octets 3 o rest ≡ some x = rw z at e in
      omega (arith, octets-le 3 o 255 rest x (octet-le s o rest z) e')
]
