-- ===== src/Pidreg/Tests.antt =====
-- sw/os/pidreg.c: two registrations under one base name, and the theorems there.
use zeitlos.Prelude.{true, ◌≡◌, refl, some, [], ◌∷◌, Bytes, str_eq, replicate}
use zeitlos.Pidreg.{
  Registry, vacant, candidate, append_decimal, is_taken, find_number, free_slot, k_pid_register,
}

-- "net".
abbrev net : Bytes
net = 110 ∷ 101 ∷ 116 ∷ []

-- A registry in which pid 3 has the name "net0".
abbrev taken_once : Registry
taken_once =
    record { name = 110 ∷ 101 ∷ 116 ∷ 48 ∷ []; pid = 3; active = true } ∷ replicate 31 vacant

-- A second registration under the same base name gets the next number.
net1 : (k_pid_register 5 (some net) taken_once).0 ≡ some (110 ∷ 101 ∷ 116 ∷ 49 ∷ [])
unfolding k_pid_register find_number candidate append_decimal is_taken free_slot str_eq
net1 = refl
