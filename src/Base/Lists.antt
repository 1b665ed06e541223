-- ===== src/Base/Lists.antt =====
-- Statements about every element of a list.
use mathlib.Core.List.{List, [], ◌∷◌}

pub data AllOf {ℓ κ} {A : Type ℓ} (P : A → Type κ) : List A → Type (ℓ ⊔ κ) where
  nil : AllOf P []
  cons : {x : A} {xs : List A} → P x → AllOf P xs → AllOf P (x ∷ xs)

pub map_all {ℓ κ} :
    {A : Type ℓ} {P Q : A → Type κ} (f : (x : A) → P x → Q x) {xs : List A}
    → AllOf P xs
    → AllOf Q xs
map_all f nil = nil
map_all f (cons {x = x} p ps) = cons (f x p) (map_all f ps)
