-- ===== src/Bus/Ids.antt =====
-- src/common/event/include/event/event_id_generator.hpp, command_id_generator.hpp and
-- src/common/utils/include/utils/type_id.hpp: a type gets the counter's value on its first use,
-- and keeps it. A type is a number here; the counter is a `size_t`.
use hhctrl_mgmt.Base.{ℕ, ◌+◌, ◌%◌, ◌^◌, ◌<◌, ◌≡◌, none, some, List, [], arith, ◌==◌, if◌then◌else◌}
use hhctrl_mgmt.Base.Maps.{lookup, insert, lookup-insert}

pub record Ids : Type 0 where
  pub counter : ℕ
  pub assigned : List (ℕ × ℕ)

-- The id of the type, and the state after the call.
unfoldable pub id_of : ℕ → Ids → ℕ × Ids
id_of type ids = elim (lookup type ids.assigned) [
  | some id ↦ (id, ids)
  | none ↦ (
    ids.counter,
    record {
      counter = (ids.counter + 1) % 2 ^ 64;
      assigned = insert type ids.counter ids.assigned;
    },
  )
]

-- `EventIdGenerator` counts from 1, the other two from 0.
abbrev pub event_ids : Ids
event_ids = record { counter = 1; assigned = [] }

abbrev pub command_ids : Ids
command_ids = record { counter = 0; assigned = [] }

abbrev pub type_ids : Ids
type_ids = record { counter = 0; assigned = [] }

-- Every id handed out is below the counter, and no two types share one.
pub record IsInjective (ids : Ids) : Type 0 where
  pub below : (t i : ℕ) → lookup t ids.assigned ≡ some i → i < ids.counter
  pub distinct :
      (t u i : ℕ) → lookup t ids.assigned ≡ some i → lookup u ids.assigned ≡ some i → t ≡ u

-- Where ids are distinct and below the counter, and the counter does not wrap, a call keeps them
-- so: the type has the returned id afterwards, and every other type has the id that it had.
pub id_of-IsInjective :
    (type u : ℕ) (ids : Ids)
    → IsInjective ids
    → ids.counter + 1 < 2 ^ 64
    → let (id, ids') = id_of type ids in
      IsInjective ids'
      × (lookup type ids'.assigned ≡ some id)
      × (lookup u ids'.assigned ≡ (if u == type then some id else lookup u ids.assigned))
unfolding id_of
id_of-IsInjective type u ids v h = (
  record {
    below = λ t i e. grind (arith, lookup-insert type t ids.counter ids.assigned, v.below t i);
    distinct = λ t w i e k. ground (
      arith,
      lookup-insert type t ids.counter ids.assigned,
      lookup-insert type w ids.counter ids.assigned,
      v.below t i,
      v.below w i,
      v.distinct t w i,
    );
  },
  ground (arith, lookup-insert type type ids.counter ids.assigned),
  ground (arith, lookup-insert type u ids.counter ids.assigned),
)
