-- ===== src/Pidreg/Search.antt =====
-- sw/os/pidreg.c: the search for a free number ends within one round more than there are slots.
use zeitlos.Prelude.{
  ℕ, zero, suc, ◌+◌, ◌-◌, ◌≤◌, ◌<◌, ◌≡◌, ◌≢◌, ◌∙◌, refl, sym, ap, Bool, true, false, ◌&&◌, ◌||◌,
  not, none, some, List, [], ◌∷◌, ◌++◌, arith, length, take, leb, ◌==◌, if◌then◌else◌, All, Bytes,
  str_eq, str_eq-eq, str_eq_refl, append_cancel, Bool-cases, Option-cases, inl, inr, ℕ_discrete,
  leb→le, subst,
}
use mathlib.Core.List.{reverse}
use zeitlos.Pidreg.{
  Entry, Registry, is_taken, candidate, find_number, search_fuel, registry_max, low_digits,
  append_decimal, basename_max,
}

-- No name stands twice in the list.
abbrev pub Distinct : List Bytes → Type 0
Distinct [] = Unit {0}
Distinct (x ∷ xs) = All (λ y. str_eq x y ≡ false) xs × Distinct xs

remove : Bytes → List Bytes → List Bytes
remove name [] = []
remove name (x ∷ xs) = if str_eq name x then xs else x ∷ remove name xs

length-remove : (name : Bytes) (xs : List Bytes) → length xs ≤ length (remove name xs) + 1
unfolding remove
length-remove name [] = omega arith
length-remove name (x ∷ xs) = ground (arith, length-remove name xs)

All-remove :
    (P : Bytes → Type 0) (name : Bytes) (xs : List Bytes) → All P xs → All P (remove name xs)
unfolding remove
All-remove P name [] h = tt
All-remove P name (x ∷ xs) h = ground (arith, All-remove P name xs h.1)

remove-Distinct : (name : Bytes) (xs : List Bytes) → Distinct xs → Distinct (remove name xs)
unfolding remove
remove-Distinct name [] d = tt
remove-Distinct name (x ∷ xs) d =
    ground (arith, remove-Distinct name xs d.1, All-remove (λ y. str_eq x y ≡ false) name xs d.0)

abbrev Taken : Registry → Bytes → Type 0
Taken reg name = is_taken reg name ≡ true

-- Without the name of the first entry, the names are those of the others.
others :
    (e : Entry) (es : Registry) (xs : List Bytes)
    → Distinct xs
    → All (Taken (e ∷ es)) xs
    → All (Taken es) (remove e.name xs)
unfolding remove is_taken
others e es [] d h = tt
others e es (x ∷ xs) d h = elim (Bool-cases (str_eq e.name x)) [
  | inl same ↦ rw same (rest same xs d.0 h.1)
  | inr new ↦ rw new ((ground arith, others e es xs d.1 h.1))
]
  where
    rest :
        str_eq e.name x ≡ true
        → (ys : List Bytes) → All (λ y. str_eq x y ≡ false) ys
        → All (Taken (e ∷ es)) ys
        → All (Taken es) ys
    rest same [] n t = tt
    rest same (y ∷ ys) n t =
        (ground (arith, n.0, t.0, str_eq-eq e.name x same), rest same ys n.1 t.1)

-- Distinct names that are all taken are no more than the entries.
pigeonhole :
    (reg : Registry) (xs : List Bytes) → Distinct xs → All (Taken reg) xs → length xs ≤ length reg
unfolding is_taken
pigeonhole [] [] d h = omega arith
pigeonhole [] (x ∷ xs) d h = cc
pigeonhole (e ∷ es) xs d h = omega (
  arith,
  length-remove e.name xs,
  pigeonhole es (remove e.name xs) (remove-Distinct e.name xs d) (others e es xs d h),
)

-- The candidates of `count` numbers from `n` on.
candidates : Bytes → ℕ → ℕ → List Bytes
candidates basename zero n = []
candidates basename (suc count) n = candidate basename n ∷ candidates basename count (n + 1)

length-candidates : (basename : Bytes) (count n : ℕ) → length (candidates basename count n) ≡ count
unfolding candidates
length-candidates basename zero n = refl
length-candidates basename (suc count) n = ap suc (length-candidates basename count (n + 1))

-- A search that runs out of fuel has found every candidate taken.
search_fails :
    (fuel : ℕ) (reg : Registry) (basename : Bytes) (n : ℕ)
    → find_number fuel reg basename n ≡ none
    → All (Taken reg) (candidates basename fuel n)
unfolding find_number candidates
search_fails zero reg basename n h = tt
search_fails (suc fuel) reg basename n h = ground (arith, search_fails fuel reg basename (n + 1))

-- The number as text, and its two properties below the fuel, read off a table.
abbrev pub suffix : ℕ → Bytes
suffix n = reverse (low_digits n)

all_below : ℕ → (ℕ → Bool) → Bool
all_below zero p = true
all_below (suc n) p = p n && all_below n p

all_below_at : (n : ℕ) (p : ℕ → Bool) (x : ℕ) → all_below n p ≡ true → x < n → p x ≡ true
unfolding all_below
all_below_at zero p x h lt = elim lt [ ]
all_below_at (suc n) p x h lt = elim (ℕ_discrete x n) [
  | yes e ↦ rw e (ground arith)
  | no ne ↦ all_below_at n p x (ground arith) (omega arith)
]

short_table : all_below search_fuel (λ x. leb (length (suffix x)) 2) ≡ true
unfolding all_below low_digits
short_table = refl

pub suffix_short : (n : ℕ) → n < search_fuel → length (suffix n) ≤ 2
suffix_short n h =
    leb→le _ _ (all_below_at search_fuel (λ x. leb (length (suffix x)) 2) n short_table h)

abbrev unlike : ℕ → ℕ → Bool
unlike x y = x == y || not (str_eq (suffix x) (suffix y))

unlike_table : all_below search_fuel (λ x. all_below search_fuel (unlike x)) ≡ true
unfolding all_below low_digits str_eq
unlike_table = refl

suffix_unlike : (x y : ℕ) → x < search_fuel → y < search_fuel → x ≢ y → suffix x ≢ suffix y
suffix_unlike x y hx hy ne e =
    let row = all_below_at search_fuel (λ x. all_below search_fuel (unlike x)) x unlike_table hx in
    let entry : unlike x y ≡ true = all_below_at search_fuel (unlike x) y row hy in
    let same : str_eq (suffix x) (suffix y) ≡ true =
      subst (λ t. str_eq (suffix x) t ≡ true) e (str_eq_refl (suffix x)) in
    absurd (ne (ground (arith, entry, same)))

pub take_all {ℓ} : {A : Type ℓ} (n : ℕ) (xs : List A) → length xs ≤ n → take n xs ≡ xs
take_all zero [] h = refl
take_all zero (x ∷ xs) h = elim h [ ]
take_all (suc n) [] h = refl
take_all (suc n) (x ∷ xs) h = ap (◌∷◌ x) (take_all n xs (omega arith))

-- For a base name that the registry accepts and a number that the search reaches, the candidate is
-- the base name and the number, uncut.
pub candidate_lem :
    (basename : Bytes) (n : ℕ)
    → length basename < basename_max
    → n < search_fuel
    → candidate basename n ≡ basename ++ suffix n
unfolding candidate append_decimal
candidate_lem basename n h lt =
    let t = take_all 23 basename (omega arith) in
    let s = suffix_short n lt in
    let u = take_all (23 - length basename) (suffix n) (omega (arith, s)) in ground (arith, t, u)

pub candidate_unlike :
    (basename : Bytes) (x y : ℕ)
    → length basename < basename_max
    → x < search_fuel
    → y < search_fuel
    → x ≢ y
    → str_eq (candidate basename x) (candidate basename y) ≡ false
candidate_unlike basename x y h hx hy ne =
    elim (Bool-cases (str_eq (candidate basename x) (candidate basename y))) [
      | inr e ↦ e
      | inl e ↦ absurd (
          suffix_unlike x y hx hy ne (
            append_cancel basename (suffix x) (suffix y) (
              sym (candidate_lem basename x h hx)
              ∙ str_eq-eq (candidate basename x) (candidate basename y) e
              ∙ candidate_lem basename y h hy)))
    ]

candidates-Distinct :
    (basename : Bytes) (count n : ℕ)
    → length basename < basename_max
    → n + count ≤ search_fuel
    → Distinct (candidates basename count n)
unfolding candidates
candidates-Distinct basename zero n h le = tt
candidates-Distinct basename (suc count) n h le = (
  later count (n + 1) (omega arith) (omega arith),
  candidates-Distinct basename count (n + 1) h (omega arith),
)
  where
    later :
        (k i : ℕ)
        → n < i
        → i + k ≤ search_fuel
        → All (λ y. str_eq (candidate basename n) y ≡ false) (candidates basename k i)
    later zero i lt le' = tt
    later (suc k) i lt le' = (
      candidate_unlike basename n i h (omega arith) (omega arith) (omega arith),
      later k (i + 1) (omega arith) (omega arith),
    )

-- With a base name that the registry accepts and its 32 slots the search finds a number.
pub find_number_ends :
    (reg : Registry) (basename : Bytes)
    → length reg ≡ registry_max
    → length basename < basename_max
    → (n : ℕ) × (find_number search_fuel reg basename 0 ≡ some n)
find_number_ends reg basename l h = elim (Option-cases (find_number search_fuel reg basename 0)) [
  | inl e ↦ absurd (
      omega (
        arith,
        l,
        length-candidates basename search_fuel 0,
        pigeonhole reg (candidates basename search_fuel 0)
            (candidates-Distinct basename search_fuel 0 h (omega arith))
            (search_fails search_fuel reg basename 0 e),
      ))
  | inr found ↦ found
]
