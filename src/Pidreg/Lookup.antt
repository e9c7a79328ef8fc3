-- ===== src/Pidreg/Lookup.antt =====
-- sw/os/pidreg.c: what `k_pid_register`, `k_pid_lookup` and `k_pidreg_release_all` do to each other.
use zeitlos.Prelude.{
  ℕ, zero, suc, ◌-◌, ◌<◌, ◌≡◌, ◌≢◌, ◌∙◌, refl, ap, true, false, Option, none, some, [], ◌∷◌, ◌++◌,
  arith, length, replicate, take, ◌==◌, if◌then◌else◌, Bytes, str_eq-eq,
}
use zeitlos.Pidreg.{
  Registry, vacant, is_taken, registry_max, name_max, basename_max, k_pidreg_init, k_pid_lookup,
  k_pidreg_release_all, find_name,
}
use zeitlos.Pidreg.Search.{suffix}
use zeitlos.Pidreg.Unique.{IsValid, Unique}

-- The base name as the registry takes it.
abbrev pub clipped : Bytes → Bytes
clipped arg = take (basename_max - 1) arg

vacant-Unique : (n : ℕ) → Unique (replicate n vacant)
vacant-Unique zero = tt
vacant-Unique (suc n) = (λ a. cc, vacant-Unique n)

-- A registry as `k_pidreg_init` leaves it is valid.
pub k_pidreg_init-IsValid : IsValid k_pidreg_init
unfolding k_pidreg_init
k_pidreg_init-IsValid = record { sized = refl; unique = vacant-Unique registry_max }

-- What a granted registration is: a stored name that is the clipped base name and the smallest number
-- which no active entry has behind it, that a lookup resolves to the caller, while every other name
-- resolves as before.
pub record Registered (pid : ℕ) (arg : Bytes) (reg : Registry) (name : Bytes) (reg' : Registry)
    : Type 0 where
  pub number : ℕ
  pub spelled : name ≡ clipped arg ++ suffix number
  pub fresh : is_taken reg name ≡ false
  pub smallest : (i : ℕ) → i < number → is_taken reg (clipped arg ++ suffix i) ≡ true
  pub resolves : k_pid_lookup (some name) reg' ≡ some pid
  pub others : (x : Bytes) → x ≢ name → find_name reg' x ≡ find_name reg x
  pub valid : IsValid reg'

not_taken : (reg : Registry) (name : Bytes) → is_taken reg name ≡ false → find_name reg name ≡ none
unfolding is_taken find_name
not_taken [] name h = refl
not_taken (e ∷ es) name h = ground (arith, not_taken es name)

release_not_taken :
    (pid : ℕ) (reg : Registry) (name : Bytes)
    → is_taken reg name ≡ false
    → is_taken (k_pidreg_release_all pid reg) name ≡ false
unfolding k_pidreg_release_all is_taken
release_not_taken pid [] name h = refl
release_not_taken pid (e ∷ es) name h = ground (arith, release_not_taken pid es name)

-- What is left of a lookup's answer when a process has been released.
abbrev pub unless : ℕ → Option ℕ → Option ℕ
unless pid none = none
unless pid (some p) = if p == pid then none else some p

find_name-release :
    (pid : ℕ) (reg : Registry) (name : Bytes)
    → Unique reg
    → find_name (k_pidreg_release_all pid reg) name ≡ unless pid (find_name reg name)
unfolding k_pidreg_release_all find_name
find_name-release pid [] name u = refl
find_name-release pid (e ∷ es) name u = ground (
  arith,
  u.0,
  str_eq-eq e.name name,
  find_name-release pid es name u.1,
  not_taken (k_pidreg_release_all pid es) name,
  release_not_taken pid es name,
)

release-Unique : (pid : ℕ) (reg : Registry) → Unique reg → Unique (k_pidreg_release_all pid reg)
unfolding k_pidreg_release_all
release-Unique pid [] u = tt
release-Unique pid (e ∷ es) u =
    (λ a. ground (arith, u.0, release_not_taken pid es e.name), release-Unique pid es u.1)

length-release : (pid : ℕ) (reg : Registry) → length (k_pidreg_release_all pid reg) ≡ length reg
unfolding k_pidreg_release_all
length-release pid [] = refl
length-release pid (e ∷ es) = ap suc (length-release pid es)

lookup-release :
    (pid : ℕ) (reg : Registry) (arg : Option Bytes)
    → Unique reg
    → k_pid_lookup arg (k_pidreg_release_all pid reg) ≡ unless pid (k_pid_lookup arg reg)
unfolding k_pid_lookup
lookup-release pid reg none u = refl
lookup-release pid reg (some arg) u = find_name-release pid reg (take (name_max - 1) arg) u

-- `k_pidreg_release_all` keeps the registry valid, and takes away the names of that process and no
-- others: a lookup that found it finds nothing, and every other lookup finds what it did.
pub k_pidreg_release_all_lem :
    (pid : ℕ) (reg : Registry)
    → IsValid reg
    → IsValid (k_pidreg_release_all pid reg)
      × ((arg : Option Bytes)
          → k_pid_lookup arg (k_pidreg_release_all pid reg) ≡ unless pid (k_pid_lookup arg reg))
k_pidreg_release_all_lem pid reg v = (
  record { sized = length-release pid reg ∙ v.sized; unique = release-Unique pid reg v.unique },
  λ arg. lookup-release pid reg arg v.unique,
)
