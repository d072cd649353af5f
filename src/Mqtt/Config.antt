-- ===== src/Mqtt/Config.antt =====
-- `EntityConfig` of src/home_assistant_v2/include/home_assistant/mqtt/entity_config.hpp: a JSON
-- object as an association list, in the order in which its keys came in.
use hhctrl_mgmt.Base.{
  ◌≡◌, refl, Bool, true, false, not, ◌&&◌, Option, none, some, List, [], ◌∷◌, arith, String, str_eq,
  eq_iff, if◌then◌else◌, is_some,
}
use hhctrl_mgmt.Base.Outcome.{Outcome, done, thrown}

-- The values that the entities put in.
pub data Json : Type 0 where
  null : Json
  text : String → Json
  device : (identifiers : List String) (manufacturer model name sw_version : String) → Json

abbrev pub Config : Type 0
Config = List (String × Json)

unfoldable pub lookup : String → Config → Option Json
lookup k [] = none
lookup k ((j, v) ∷ m) = if str_eq j k then some v else lookup k m

-- `object[key] = value`.
unfoldable pub set_override : String → Json → Config → Config
set_override k v [] = (k, v) ∷ []
set_override k v ((j, w) ∷ m) =
    let rest = set_override k v m in if str_eq j k then (k, v) ∷ m else (j, w) ∷ rest

abbrev pub contains : String → Config → Bool
contains k config = is_some (lookup k config)

unfoldable pub set : String → Json → Config → Config
unfolding set_override
set k v config = if contains k config then config else set_override k v config

abbrev pub is_null : Option Json → Bool
is_null (some null) = true
is_null _ = false

unfoldable pub set_override_if_not_null : String → Json → Config → Config
unfolding set_override
set_override_if_not_null k v config =
    if is_null (lookup k config) then config else set_override k v config

-- `value_to<std::string>` throws for a value that is no string.
unfoldable pub get : String → Config → Outcome (Option String)
unfolding lookup
get k config = elim (lookup k config) [
  | none ↦ done none
  | some v ↦ elim v [ text s ↦ done (some s) | null ↦ thrown | device _ _ _ _ _ ↦ thrown ]
]

pub lookup-set_override :
    (key other : String) (val : Json) (rest : Config)
    → lookup other (set_override key val rest)
      ≡ (if str_eq key other then some val else lookup other rest)
unfolding lookup set_override
lookup-set_override key other val [] = refl
lookup-set_override key other val ((name, held) ∷ rest) = ground (
  arith,
  eq_iff key other,
  eq_iff name key,
  eq_iff name other,
  lookup-set_override key other val rest,
)

pub lookup-set :
    (k j : String) (v : Json) (m : Config)
    → lookup j (set k v m) ≡ (if str_eq k j && not (contains k m) then some v else lookup j m)
unfolding set
lookup-set k j v m = ground (arith, eq_iff k j, lookup-set_override k j v m)

pub lookup-set_override_if_not_null :
    (k j : String) (v : Json) (m : Config)
    → lookup j (set_override_if_not_null k v m)
      ≡ (if str_eq k j && not (is_null (lookup k m)) then some v else lookup j m)
unfolding set_override_if_not_null
lookup-set_override_if_not_null k j v m = ground (arith, eq_iff k j, lookup-set_override k j v m)

pub ruleset config_laws = (lookup-set_override, lookup-set, lookup-set_override_if_not_null)
