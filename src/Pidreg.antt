-- ===== src/Pidreg.antt =====
-- The registry of process names (sw/os/pidreg.c): a table of names, each the caller's base name with
-- the smallest number that no active entry has. A C string is the list of its bytes before the NUL.
pub mod Search
pub mod Unique
pub mod Lookup
mod Tests
use zeitlos.Prelude.{
  ℕ, zero, suc, ◌+◌, ◌-◌, ◌/◌, ◌%◌, Bool, true, false, ◌&&◌, not, Option, none, some, List, [], ◌∷◌,
  ◌++◌, ltb, leb, ◌==◌, if◌then◌else◌, length, take, set, replicate, Bytes, str_eq,
}
use mathlib.Core.List.{reverse}

abbrev pub registry_max : ℕ
registry_max = 32

abbrev pub basename_max : ℕ
basename_max = 16

abbrev pub name_max : ℕ
name_max = 24

-- `z_pidreg_entry_t`.
pub record Entry : Type 0 where
  pub name : Bytes
  pub pid : ℕ
  pub active : Bool

abbrev pub Registry : Type 0
Registry = List Entry

abbrev pub vacant : Entry
vacant = record { name = []; pid = 0; active = false }

-- The digits of a number, lowest first, at most `room` of them.
pub digits_from : ℕ → ℕ → Bytes
digits_from zero val = []
digits_from (suc room) val =
    let rest = digits_from room (val / 10) in if val == 0 then [] else (b'0' + val % 10) ∷ rest

pub low_digits : ℕ → Bytes
unfolding digits_from
low_digits val = if val == 0 then b'0' ∷ [] else digits_from 10 val

-- The digits go behind the string, as far as the buffer has room for them and the NUL.
pub append_decimal : Bytes → ℕ → ℕ → Bytes
unfolding low_digits
append_decimal buf bufsize val =
    let len = length buf in
    if leb (bufsize - 1) len
    then buf
    else buf ++ take (bufsize - 1 - len) (reverse (low_digits val))

pub k_pidreg_init : Registry
k_pidreg_init = replicate registry_max vacant

-- `strncpy` of the base name, then its number.
pub candidate : Bytes → ℕ → Bytes
unfolding append_decimal
candidate basename n = append_decimal (take (name_max - 1) basename) name_max n

pub is_taken : Registry → Bytes → Bool
is_taken [] name = false
is_taken (e ∷ es) name = if e.active && str_eq e.name name then true else is_taken es name

-- The search for a number, on fuel: `none` means that it ran out.
pub find_number : ℕ → Registry → Bytes → ℕ → Option ℕ
find_number zero reg basename n = none
find_number (suc fuel) reg basename n =
    let rest = find_number fuel reg basename (n + 1) in
    if is_taken reg (candidate basename n) then rest else some n

-- The first slot with no active entry.
pub free_slot : ℕ → Registry → Option ℕ
free_slot i [] = none
free_slot i (e ∷ es) = if not e.active then some i else free_slot (i + 1) es

-- One more round than there are slots: some number is free by then.
abbrev pub search_fuel : ℕ
search_fuel = 33

-- `k_pid_register` for the running process `pid`. The argument is `none` where it is no string; the
-- result is the stored name, `none` for a failure.
pub k_pid_register : ℕ → Option Bytes → Registry → Option Bytes × Registry
k_pid_register pid none reg = (none, reg)
k_pid_register pid (some arg) reg =
    let basename = take (basename_max - 1) arg in
    if length basename == 0 then (none, reg) else (elim (find_number search_fuel reg basename 0) [
      | none ↦ (none, reg)
      | some n ↦ elim (free_slot 0 reg) [
        | none ↦ (none, reg)
        | some slot ↦
            let name = take (name_max - 1) (candidate basename n) in
            (some name, set reg slot (record { name = name; pid = pid; active = true }))
      ]
    ])

pub find_name : Registry → Bytes → Option ℕ
find_name [] name = none
find_name (e ∷ es) name = if e.active && str_eq e.name name then some e.pid else find_name es name

pub k_pid_lookup : Option Bytes → Registry → Option ℕ
k_pid_lookup none reg = none
k_pid_lookup (some arg) reg = find_name reg (take (name_max - 1) arg)

pub k_pidreg_release_all : ℕ → Registry → Registry
k_pidreg_release_all pid [] = []
k_pidreg_release_all pid (e ∷ es) =
    (if e.active && e.pid == pid then vacant else e) ∷ k_pidreg_release_all pid es

-- The kernel-side wrappers: the name is cut to the caller's buffer.
pub z_pid_register : ℕ → Bytes → ℕ → Registry → Option Bytes × Registry
z_pid_register pid basename zero reg = (none, reg)
z_pid_register pid basename (suc outlen) reg =
    let (r, reg') = k_pid_register pid (some basename) reg in
    elim r [ none ↦ (none, reg') | some name ↦ (some (take outlen name), reg') ]

pub z_pid_lookup : Bytes → Registry → Option ℕ
z_pid_lookup name reg = k_pid_lookup (some name) reg
