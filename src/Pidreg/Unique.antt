-- ===== src/Pidreg/Unique.antt =====
-- sw/os/pidreg.c: no two active entries have the same name, and what a lookup finds.
use zeitlos.Prelude.{
  ℕ, zero, suc, ◌+◌, ◌≤◌, ◌<◌, ◌≡◌, refl, true, false, none, some, [], ◌∷◌, arith, length, set,
  if◌then◌else◌, All, Bytes, str_eq, str_eq-eq, str_eq_refl, Bool-cases, inl, inr, ℕ_discrete,
}
use zeitlos.Pidreg.{
  Entry, Registry, is_taken, candidate, find_number, free_slot, registry_max, find_name,
}

-- An active name does not stand again behind its entry.
abbrev pub Unique : Registry → Type 0
Unique [] = Unit {0}
Unique (e ∷ es) = (e.active ≡ true → is_taken es e.name ≡ false) × Unique es

pub record IsValid (reg : Registry) : Type 0 where
  pub sized : length reg ≡ registry_max
  pub unique : Unique reg

str_eq_comm : (xs ys : Bytes) → str_eq xs ys ≡ false → str_eq ys xs ≡ false
str_eq_comm xs ys h = elim (Bool-cases (str_eq ys xs)) [
  | inr e ↦ e
  | inl e ↦ ground (arith, str_eq-eq ys xs e, str_eq_refl xs)
]

-- A write at a slot takes its name only.
is_taken-set :
    (reg : Registry) (i : ℕ) (e : Entry) (name : Bytes)
    → str_eq e.name name ≡ false
    → is_taken reg name ≡ false
    → is_taken (set reg i e) name ≡ false
unfolding is_taken
is_taken-set [] i e name ne h = refl
is_taken-set (x ∷ xs) zero e name ne h = ground arith
is_taken-set (x ∷ xs) (suc i) e name ne h = ground (arith, is_taken-set xs i e name ne)

pub set-Unique :
    (reg : Registry) (i : ℕ) (e : Entry)
    → is_taken reg e.name ≡ false
    → Unique reg
    → Unique (set reg i e)
unfolding is_taken
set-Unique [] i e h u = tt
set-Unique (x ∷ xs) zero e h u = (λ _. ground arith, u.1)
set-Unique (x ∷ xs) (suc i) e h u = (
  λ a. is_taken-set xs i e x.name (str_eq_comm x.name e.name (ground arith)) (u.0 a),
  set-Unique xs i e (ground arith) u.1,
)

-- What a lookup finds after a write over an inactive slot.
abbrev pub Vacant : Registry → ℕ → Type 0
Vacant [] i = ⊥
Vacant (x ∷ xs) zero = x.active ≡ false
Vacant (x ∷ xs) (suc i) = Vacant xs i

pub find_name-set :
    (reg : Registry) (i : ℕ) (e : Entry) (name : Bytes)
    → Vacant reg i
    → e.active ≡ true
    → is_taken reg e.name ≡ false
    → find_name (set reg i e) name ≡ (if str_eq e.name name then some e.pid else find_name reg name)
unfolding is_taken find_name
find_name-set [] i e name v a h = elim v [ ]
find_name-set (x ∷ xs) zero e name v a h = ground arith
find_name-set (x ∷ xs) (suc i) e name v a h =
    ground (arith, find_name-set xs i e name v a, str_eq-eq e.name name)

-- The first free slot is inactive, and there is one unless all are active.
pub free_slot-Vacant :
    (reg : Registry) (i slot : ℕ)
    → free_slot i reg ≡ some slot
    → (j : ℕ) × (slot ≡ i + j) × Vacant reg j
unfolding free_slot
free_slot-Vacant [] i slot h = cc
free_slot-Vacant (x ∷ xs) i slot h = elim (Bool-cases x.active) [
  | inl a ↦
      let (j, e, v) = free_slot-Vacant xs (i + 1) slot (ground arith) in (suc j, omega arith, v)
  | inr f ↦ (0, ground arith, f)
]

pub free_slot-none :
    (reg : Registry) (i : ℕ) → free_slot i reg ≡ none → All (λ e. e.active ≡ true) reg
unfolding free_slot
free_slot-none [] i h = tt
free_slot-none (x ∷ xs) i h = ground (arith, free_slot-none xs (i + 1))

-- The number that a search returns is free, and every one before it is taken.
pub find_number_lem :
    (fuel : ℕ) (reg : Registry) (basename : Bytes) (n m : ℕ)
    → find_number fuel reg basename n ≡ some m
    → (n ≤ m)
      × (m < n + fuel)
      × (is_taken reg (candidate basename m) ≡ false)
      × ((i : ℕ) → n ≤ i → i < m → is_taken reg (candidate basename i) ≡ true)
unfolding find_number
find_number_lem zero reg basename n m h = cc
find_number_lem (suc fuel) reg basename n m h =
    elim (Bool-cases (is_taken reg (candidate basename n))) [
      | inl t ↦
          let (le, lt, free, taken) = find_number_lem fuel reg basename (n + 1) m (ground arith) in
          (
            omega arith,
            omega arith,
            free,
            λ i p q. elim (ℕ_discrete i n) [ yes e ↦ rw e t | no ne ↦ taken i (omega arith) q ],
          )
      | inr f ↦
          let e : n ≡ m = ground arith in
          (omega arith, omega arith, rw (← e) f, λ i p q. absurd (omega arith))
    ]
