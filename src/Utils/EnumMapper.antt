-- ===== src/Utils/EnumMapper.antt =====
-- src/common/utils/include/utils/enum_mapper.hpp: a list of ties, each of a value of one enumeration and
-- one of another, read in either direction. An enumerator is a number.
use hhctrl_mgmt.Base.{
  ℕ, ◌≡◌, Bool, true, false, Option, none, some, List, [], ◌∷◌, ◌==◌, if◌then◌else◌, arith, All,
  ◌≢◌,
}
use hhctrl_mgmt.Base.Outcome.{Outcome, done, thrown}

pub record Tie : Type 0 where
  pub t1 : ℕ
  pub t2 : ℕ

-- Which of the tie's two types is the source: its first, or else its second.
pub data Direction : Type 0 where
  forward backward : Direction

-- `tryToMap`: the destination after it, and its result.
unfoldable pub try_to_map : Direction → Tie → ℕ → Option ℕ → Option ℕ × Bool
try_to_map forward tie src ret_val = if tie.t1 == src then (some tie.t2, true) else (ret_val, false)
try_to_map backward tie src ret_val =
    if tie.t2 == src then (some tie.t1, true) else (ret_val, false)

-- The fold over `||` of `mape_types`, which stops at the first tie that maps.
unfoldable pub map_types : Direction → List Tie → ℕ → Option ℕ → Option ℕ
unfolding try_to_map
map_types d [] source destination = destination
map_types d (tie ∷ ties) source destination =
    let (destination', mapped) = try_to_map d tie source destination in
    let rest = map_types d ties source destination' in if mapped then destination' else rest

unfoldable pub map_enum : Direction → List Tie → ℕ → Option ℕ
unfolding map_types
map_enum d config source = map_types d config source none

unfoldable pub map_safe : Direction → List Tie → ℕ → Outcome ℕ
unfolding map_enum
map_safe d config source = elim (map_enum d config source) [ none ↦ thrown | some v ↦ done v ]

-- No value of the second type stands in two ties.
abbrev pub IsDistinct : List Tie → Type 0
IsDistinct [] = Unit {0}
IsDistinct (tie ∷ ties) = All (λ t. t.t2 ≢ tie.t2) ties × IsDistinct ties

apart :
    (ties : List Tie) (tie : Tie) (a : ℕ)
    → All (λ t. t.t2 ≢ tie.t2) ties
    → map_types forward ties a none ≢ some tie.t2
unfolding map_types try_to_map
apart [] tie a h = λ e. cc e
apart (t ∷ ties) tie a h = ground (arith, h.0, apart ties tie a h.1)

-- Where no two ties share a value of the second type: what a value of the first maps to maps back to
-- it, in either form of the call.
map_safe-forward :
    (ties : List Tie) (a b : ℕ)
    → IsDistinct ties
    → map_safe forward ties a ≡ done b
    → map_safe backward ties b ≡ done a
unfolding map_safe map_enum map_types try_to_map
map_safe-forward [] a b d h = cc h
map_safe-forward (tie ∷ ties) a b d h =
    ground (arith, apart ties tie a d.0, map_safe-forward ties a b d.1)
