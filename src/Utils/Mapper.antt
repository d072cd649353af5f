-- ===== src/Utils/Mapper.antt =====
-- src/common/utils/include/utils/mapper.hpp: a compile-time list of pairs, read in both directions.
-- Each level tests its own pair and hands on to the next; the last throws.
use hhctrl_mgmt.Base.{
  ◌≡◌, Bool, true, false, List, [], ◌∷◌, arith, if◌then◌else◌, All, Bool-cases, inl, inr,
}
use hhctrl_mgmt.Base.Outcome.{Outcome, done, thrown}

module _ {K V : Type 0} where
  unfoldable pub map_key : (K → K → Bool) → K → List (K × V) → Outcome V
  map_key eq key [] = thrown
  map_key eq key ((k, v) ∷ rest) =
      let next = map_key eq key rest in if eq key k then done v else next

  unfoldable pub map_value : (V → V → Bool) → V → List (K × V) → Outcome K
  map_value eq value [] = thrown
  map_value eq value ((k, v) ∷ rest) =
      let next = map_value eq value rest in if eq value v then done k else next

  -- No value stands in two pairs.
  abbrev pub Distinct : (V → V → Bool) → List (K × V) → Type 0
  Distinct eq [] = Unit {0}
  Distinct eq ((k, v) ∷ rest) = All (λ kv. eq kv.1 v ≡ false) rest × Distinct eq rest

  map_key_apart :
      (eqk : K → K → Bool) (eqv : V → V → Bool) (key : K) (v w : V) (pairs : List (K × V))
      → All (λ kv. eqv kv.1 v ≡ false) pairs
      → map_key eqk key pairs ≡ done w
      → eqv w v ≡ false
  unfolding map_key
  map_key_apart eqk eqv key v w [] a h = cc
  map_key_apart eqk eqv key v w ((k, x) ∷ rest) a h =
      ground (arith, a.0, map_key_apart eqk eqv key v w rest a.1)

  -- Where no two pairs share a value, a key that maps to a value is what the value maps back to.
  pub map_value-map_key :
      (eqk : K → K → Bool) (eqv : V → V → Bool) (key : K) (v : V) (pairs : List (K × V))
      → ((a b : K) → eqk a b ≡ true → a ≡ b)
      → ((a : V) → eqv a a ≡ true)
      → Distinct eqv pairs
      → map_key eqk key pairs ≡ done v
      → map_value eqv v pairs ≡ done key
  unfolding map_key map_value
  map_value-map_key eqk eqv key v [] sound reflexive d h = cc
  map_value-map_key eqk eqv key v ((k, x) ∷ rest) sound reflexive d h =
      elim (Bool-cases (eqk key k)) [
        | inl e ↦ ground (arith, e, sound key k, reflexive x)
        | inr e ↦ ground (
          arith,
          e,
          map_key_apart eqk eqv key x v rest d.0,
          map_value-map_key eqk eqv key v rest sound reflexive d.1,
        )
      ]
