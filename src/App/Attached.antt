-- ===== src/App/Attached.antt =====
-- A hatch or a temperature sensor in the running program: its poller, the event bus, the handler of its
-- events and the adapters that it holds, as src/app/home_assistant.cpp and platform_builder.hpp join
-- them. A coroutine that the bus spawns runs before the device is polled again.
pub mod Hearing
pub mod Laws
pub mod Hatches
pub mod Sensors
use hhctrl_mgmt.Base.{ℕ, Bool, Option, none, some, List, [], ◌∷◌, ◌==◌, if◌then◌else◌, drop, length}
use hhctrl_mgmt.Base.Outcome.{Outcome, done, after}
use hhctrl_mgmt.Bus.Events.{whole, moved_from, Bus, Event, Spawned, publish}
use hhctrl_mgmt.Platform.{DeviceType, hatch_type, temp_sensor_type}
use hhctrl_mgmt.Poller.Devices.{Poller, poll}
use hhctrl_mgmt.Adapter.Handlers.{
  Handler, hatch_created, hatch_removed, hatch_state_changed, sensor_created, sensor_removed,
  sensor_state_changed,
}
use hhctrl_mgmt.App.HomeAssistant.{EventType, created, removed, state_changed, handler_of}

-- The devices that have a list of adapters in their handler.
pub data Kind : Type 0 where
  hatches sensors : Kind

abbrev pub type_of : Kind → DeviceType
type_of hatches = hatch_type
type_of sensors = temp_sensor_type

-- `create` is the device's `async_create`, and `sync` its `async_sync_state`, by the device id. `moved` is
-- what a coroutine does whose handler has been moved from.
module _ {A : Type 0} (kind : Kind) (ids : EventType → DeviceType → ℕ)
    (create : ℕ → Outcome (Option A)) (moved : Outcome (Handler A)) where
  pub record Attached : Type 0 where
    pub bus : Bus
    pub handler : Handler A

  abbrev pub on_created : ℕ → Handler A → Outcome (Handler A)
  on_created device_id h = elim kind [
    | hatches ↦ hatch_created create device_id h
    | sensors ↦ sensor_created create device_id h
  ]

  abbrev pub on_removed : ℕ → Handler A → Outcome (Handler A)
  on_removed device_id h = elim kind [
    | hatches ↦ hatch_removed device_id h
    | sensors ↦ sensor_removed device_id h
  ]

  abbrev pub on_state_changed : (A → Outcome A) → ℕ → Handler A → Outcome (Handler A)
  on_state_changed sync device_id h = elim kind [
    | hatches ↦ hatch_state_changed sync device_id h
    | sensors ↦ sensor_state_changed sync device_id h
  ]

  -- The `operator()` of the handler for the type of the event.
  unfoldable pub handle : (ℕ → A → Outcome A) → Event → Handler A → Outcome (Handler A)
  handle sync event h =
      if event.event_id == ids created (type_of kind)
      then on_created event.device_id h
      else if event.event_id == ids removed (type_of kind)
      then on_removed event.device_id h
      else on_state_changed (sync event.device_id) event.device_id h

  -- The coroutines run in the order in which they were spawned. The handlers of other devices have a
  -- state of their own.
  unfoldable pub deliver : (ℕ → A → Outcome A) → List Spawned → Handler A → Outcome (Handler A)
  unfolding handle
  deliver sync [] h = done h
  deliver sync (c ∷ cs) h = elim c.handler [
    | moved_from k ↦ moved
    | whole k ↦
        after (if k == handler_of (type_of kind) then handle sync c.event h else done h)
          (deliver sync cs)
  ]

  unfoldable pub send : (ℕ → A → Outcome A) → EventType → ℕ → Attached → Outcome Attached
  unfolding deliver
  send sync event_type device_id t =
      after
        (publish (record { event_id = ids event_type (type_of kind); device_id = device_id }) t.bus)
        λ r. after (deliver sync r.1 t.handler) λ h. done (record { bus = r.0; handler = h })

  abbrev pub send_all : (ℕ → A → Outcome A) → List ℕ → Attached → Outcome Attached
  send_all sync [] t = done t
  send_all sync (device_id ∷ later) t =
      after (send sync state_changed device_id t) (send_all sync later)

  -- One poll on the inventory as it is, and the events that the poller has published by it.
  unfoldable pub poll_round :
      {D K : Type 0}
      → (D → Outcome K)
      → (K → K → Bool)
      → (List (ℕ × D) → ℕ → A → Outcome A)
      → List (ℕ × D)
      → Poller K × Attached
      → Outcome (Poller K × Attached)
  unfolding send
  poll_round current differs sync devices (p, t) = after (poll current differs devices p) λ p'.
      after (send_all (sync devices) (drop (length p.published) p'.published) t) λ t'. done (p', t')

  -- One poll after another, on the inventory as it is at each.
  abbrev pub poll_rounds :
      {D K : Type 0}
      → (D → Outcome K)
      → (K → K → Bool)
      → (List (ℕ × D) → ℕ → A → Outcome A)
      → List (List (ℕ × D))
      → Poller K × Attached
      → Outcome (Poller K × Attached)
  poll_rounds current differs sync [] s = done s
  poll_rounds current differs sync (devices ∷ later) s =
      after (poll_round current differs sync devices s) (poll_rounds current differs sync later)
