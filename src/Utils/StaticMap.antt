-- ===== src/Utils/StaticMap.antt =====
-- src/common/utils/include/utils/static_map.hpp: a constant array of pairs, searched from the
-- front by key or by value, or indexed. `size` is the number of pairs; an index is a `size_t`.
use hhctrl_mgmt.Base.{
  ℕ, ◌+◌, ◌-◌, ◌%◌, ◌^◌, Bool, Option, none, some, List, [], ◌∷◌, ltb, if◌then◌else◌, find_if,
  is_some, length,
}
use hhctrl_mgmt.Base.Outcome.{Outcome, done, thrown, after}

abbrev pub or_throw {ℓ} : {A : Type ℓ} → Option A → Outcome A
or_throw none = thrown
or_throw (some a) = done a

module _ {K V : Type 0} where
  abbrev pub get_elem? : List (K × V) → ℕ → Option (K × V)
  get_elem? [] i = none
  get_elem? (x ∷ xs) ℕ.zero = some x
  get_elem? (x ∷ xs) (ℕ.suc i) = get_elem? xs i

  -- `size - 1` is taken modulo 2 ^ 64.
  unfoldable pub at_index : ℕ → List (K × V) → Outcome V
  at_index index pairs =
      if ltb ((length pairs + (2 ^ 64 - 1)) % 2 ^ 64) index
      then thrown
      else after (or_throw (get_elem? pairs index)) (λ kv. done kv.1)

  unfoldable pub at_key : (K → K → Bool) → K → List (K × V) → Outcome V
  at_key eq key pairs = after (or_throw (find_if (λ kv. eq key kv.0) pairs)) (λ kv. done kv.1)

  unfoldable pub at_value : (V → V → Bool) → V → List (K × V) → Outcome K
  at_value eq value pairs = after (or_throw (find_if (λ kv. eq value kv.1) pairs)) (λ kv. done kv.0)

  unfoldable pub contains : (K → K → Bool) → K → List (K × V) → Bool
  contains eq key pairs = is_some (find_if (λ kv. eq key kv.0) pairs)
