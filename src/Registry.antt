-- ===== src/Registry.antt =====
-- source/core/dev/dev.c: the registry of block devices. A C string is the list of its bytes before
-- the terminator; a device is whatever the caller registers.
use xasmos.Base.{
  ℕ, zero, suc, ◌+◌, Bool, true, false, ◌&&◌, List, [], ◌∷◌, Option, none, some, ltb, leb, ◌==◌,
  if◌then◌else◌, update,
}

abbrev pub dev_max : ℕ
dev_max = 8

abbrev pub dev_name_max : ℕ
dev_name_max = 8

-- "|dev|"
abbrev pub dev_prefix : List ℕ
dev_prefix = b'|' ∷ b'd' ∷ b'e' ∷ b'v' ∷ b'|' ∷ []

-- A slot of `g_devs`: its name and its device, if it has one.
abbrev pub Slot {ℓ} : Type ℓ → Type ℓ
Slot D = Option (List ℕ × D)

-- `g_devs`
abbrev pub Devices {ℓ} : Type ℓ → Type ℓ
Devices D = ℕ → Slot D

unfoldable pub str_eq : List ℕ → List ℕ → Bool
str_eq [] [] = true
str_eq [] (y ∷ ys) = false
str_eq (x ∷ xs) [] = false
str_eq (x ∷ xs) (y ∷ ys) = (x == y) && str_eq xs ys

unfoldable pub str_len : List ℕ → ℕ
str_len [] = 0
str_len (x ∷ xs) = str_len xs + 1

unfoldable pub name_ok : List ℕ → Bool
name_ok name = ltb 0 (str_len name) && leb (str_len name) dev_name_max

-- DEV_OK with the new table, DEV_EEXIST, DEV_EFULL and DEV_EINVAL.
pub data Registered {ℓ} (D : Type ℓ) : Type ℓ where
  done : Devices D → Registered D
  exists_already table_full invalid_name : Registered D

unfoldable pub names {ℓ} : {D : Type ℓ} → Slot D → List ℕ → Bool
names none name = false
names (some (n, d)) name = str_eq n name

unfoldable pub is_free {ℓ} : {D : Type ℓ} → Slot D → Bool
is_free none = true
is_free (some x) = false

-- The loop of `dev_register`: rounds left, slot, and the first free slot so far. `none` is the
-- return of DEV_EEXIST.
unfoldable pub find_free {ℓ} :
    {D : Type ℓ} → ℕ → ℕ → Option ℕ → List ℕ → Devices D → Option (Option ℕ)
find_free zero i free name t = some free
find_free (suc n) i free name t =
    let free' : Option ℕ = elim free [ none ↦ some i | some f ↦ some f ] in
    let with_free = find_free n (i + 1) free' name t in
    let with_used = find_free n (i + 1) free name t in
    if is_free (t i) then with_free else if names (t i) name then none else with_used

unfoldable pub register_at {ℓ} :
    {D : Type ℓ} → Option (Option ℕ) → List ℕ → D → Devices D → Registered D
register_at none name d t = exists_already
register_at (some none) name d t = table_full
register_at (some (some f)) name d t = done (update t f (some (name, d)))

-- The null pointers are `none`.
unfoldable pub dev_register {ℓ} :
    {D : Type ℓ} → Option (List ℕ) → Option D → Devices D → Registered D
dev_register none d t = invalid_name
dev_register (some name) none t = invalid_name
dev_register (some name) (some d) t =
    if name_ok name then register_at (find_free dev_max 0 none name t) name d t else invalid_name

-- The path without the prefix, if it has it.
unfoldable pub drop_prefix : List ℕ → List ℕ → Option (List ℕ)
drop_prefix [] p = some p
drop_prefix (x ∷ xs) [] = none
drop_prefix (x ∷ xs) (y ∷ ys) = let rest = drop_prefix xs ys in if x == y then rest else none

unfoldable pub find_name {ℓ} : {D : Type ℓ} → ℕ → ℕ → List ℕ → Devices D → Option D
find_name zero i name t = none
find_name (suc n) i name t =
    let rest = find_name n (i + 1) name t in
    elim (t i) [ none ↦ rest | some x ↦ if str_eq x.0 name then some x.1 else rest ]

unfoldable pub dev_lookup {ℓ} : {D : Type ℓ} → List ℕ → Devices D → Option D
dev_lookup path t = elim (drop_prefix dev_prefix path) [
  | none ↦ none
  | some name ↦ find_name dev_max 0 name t
]

-- The calls that `dev_list` makes, in order.
unfoldable pub list_from {ℓ} : {D : Type ℓ} → ℕ → ℕ → Devices D → List (List ℕ × D)
list_from zero i t = []
list_from (suc n) i t =
    let rest = list_from n (i + 1) t in elim (t i) [ none ↦ rest | some x ↦ x ∷ rest ]

unfoldable pub dev_list {ℓ} : {D : Type ℓ} → Devices D → List (List ℕ × D)
dev_list t = list_from dev_max 0 t
