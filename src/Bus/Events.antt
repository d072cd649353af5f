-- ===== src/Bus/Events.antt =====
-- src/common/event/include/event/event_bus.hpp. A handler is a number. A slot keeps the handler that
-- `capture_fwd` captured: a reference to it, or the object itself, which the slot moves into the
-- coroutine that it spawns. A later call moves, and invokes, an object that was moved from; what that
-- does is up to the handler's type: a std::function throws then, a lambda without captures runs.
pub mod Laws
use hhctrl_mgmt.Base.{
  ℕ, suc, ◌+◌, ◌≡◌, refl, Bool, true, false, Option, none, some, List, [], ◌∷◌, ◌++◌, map, arith,
  ◌==◌, if◌then◌else◌, length,
}
use hhctrl_mgmt.Base.Maps.{lookup, insert, lookup-insert}
use hhctrl_mgmt.Base.Outcome.{Outcome, done, thrown, stuck, after}

pub record Event : Type 0 where
  pub event_id : ℕ
  pub device_id : ℕ

-- A handler as it was passed, or an object of its type that was moved from.
pub data Captured : Type 0 where
  whole moved_from : ℕ → Captured

-- What is left where an object is moved out.
abbrev pub moved_out : Captured → Captured
moved_out (whole handler) = moved_from handler
moved_out (moved_from handler) = moved_from handler

-- The handler that it is, or was.
abbrev pub original : Captured → ℕ
original (whole handler) = handler
original (moved_from handler) = handler

pub record Slot : Type 0 where
  pub event_id : ℕ
  pub by_reference : Bool
  pub handler : Captured

-- A spawned coroutine: the handler that it holds, and its copy of the event.
pub record Spawned : Type 0 where
  pub handler : Captured
  pub event : Event

-- `handlers_`: the slots of each event id, in the order of their connection.
abbrev pub Bus : Type 0
Bus = List (ℕ × List Slot)

unfoldable pub slots : ℕ → Bus → List Slot
slots id bus = elim (lookup id bus) [ none ↦ [] | some ss ↦ ss ]

pub slots-insert :
    (id j : ℕ) (ss : List Slot) (bus : Bus)
    → slots j (insert id ss bus) ≡ (if id == j then ss else slots j bus)
unfolding slots
slots-insert id j ss bus = ground (arith, lookup-insert id j ss bus)

unfoldable pub subscribe : ℕ → Bool → ℕ → Bus → Bus
subscribe event_id by_reference handler bus =
    insert event_id
      (slots event_id bus
        ++ record { event_id = event_id; by_reference = by_reference; handler = whole handler }
          ∷ [])
      bus

-- A call of a slot: its state afterwards, and what it spawns.
unfoldable pub call_slot : Event → Slot → Outcome (Slot × Spawned)
call_slot event slot =
    if slot.event_id == event.event_id
    then done (
      record slot { handler = if slot.by_reference then slot.handler else moved_out slot.handler },
      record { handler = slot.handler; event = event },
    )
    else thrown

-- A signal calls its slots in order; an exception ends the emission.
unfoldable pub emit : Event → List Slot → Outcome (List Slot × List Spawned)
unfolding call_slot
emit event [] = done ([], [])
emit event (s ∷ ss) =
    after (call_slot event s) λ r. after (emit event ss) λ rest. done (r.0 ∷ rest.0, r.1 ∷ rest.1)

unfoldable pub publish : Event → Bus → Outcome (Bus × List Spawned)
unfolding emit
publish event bus =
    after (emit event (slots event.event_id bus)) λ r. done (insert event.event_id r.0 bus, r.1)
