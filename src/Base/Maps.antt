-- ===== src/Base/Maps.antt =====
-- `std::unordered_map` with number keys, as an association list.
use Prim.Native.Nat.{ℕ}
use mathlib.Core.Path.{◌≡◌, refl}
use mathlib.Core.Bool.{Bool}
use mathlib.Core.List.{List, [], ◌∷◌}
use mathlib.Core.Option.{Option, none, some}
use native.Mathlib.Omega.{arith}
use hhctrl_mgmt.Base.Tests.{if◌then◌else◌, ◌==◌}
use hhctrl_mgmt.Base.Lists.{is_some}

module _ {ℓ} {V : Type ℓ} where
  unfoldable pub lookup : ℕ → List (ℕ × V) → Option V
  lookup key [] = none
  lookup key ((stored, val) ∷ entries) = if stored == key then some val else lookup key entries

  -- `map[key] = val`.
  unfoldable pub insert : ℕ → V → List (ℕ × V) → List (ℕ × V)
  insert key val [] = (key, val) ∷ []
  insert key val ((stored, other) ∷ entries) =
      let rest = insert key val entries in
      if stored == key then (key, val) ∷ entries else (stored, other) ∷ rest

  unfoldable pub erase : ℕ → List (ℕ × V) → List (ℕ × V)
  erase key [] = []
  erase key ((stored, other) ∷ entries) =
      let rest = erase key entries in if stored == key then rest else (stored, other) ∷ rest

  abbrev pub contains : ℕ → List (ℕ × V) → Bool
  contains key entries = is_some (lookup key entries)

  pub lookup-insert :
      (key stored : ℕ) (val : V) (entries : List (ℕ × V))
      → lookup stored (insert key val entries)
        ≡ (if key == stored then some val else lookup stored entries)
  unfolding lookup insert
  lookup-insert key stored val [] = refl
  lookup-insert key stored val ((again, other) ∷ entries) =
      ground (arith, lookup-insert key stored val entries)

  pub lookup-erase :
      (key stored : ℕ) (entries : List (ℕ × V))
      → lookup stored (erase key entries) ≡ (if key == stored then none else lookup stored entries)
  unfolding lookup erase
  lookup-erase key stored [] = ground arith
  lookup-erase key stored ((again, other) ∷ entries) =
      ground (arith, lookup-erase key stored entries)

  pub insert-lookup :
      (key : ℕ) (val : V) (entries : List (ℕ × V))
      → lookup key entries ≡ some val
      → insert key val entries ≡ entries
  unfolding lookup insert
  insert-lookup key val [] h = absurd (cc h)
  insert-lookup key val ((stored, other) ∷ entries) h =
      ground (arith, h, insert-lookup key val entries)
