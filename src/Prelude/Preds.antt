-- ===== src/Prelude/Preds.antt =====
-- Predicates on lists by recursion, which the tactics read as tuples.
use mathlib.Core.List.{List, [], ◌∷◌}

abbrev pub All {ℓ κ} : {A : Type ℓ} → (A → Type κ) → List A → Type κ
All P [] = Unit
All P (x ∷ xs) = P x × All P xs
