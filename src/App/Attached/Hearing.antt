-- ===== src/App/Attached/Hearing.antt =====
-- Who is called on an event about a hatch or a sensor.
use hhctrl_mgmt.Base.{
  ℕ, ◌≡◌, refl, Option, some, [], ◌∷◌, ◌++◌, ==_refl, arith, Option-cases, inl, inr,
}
use hhctrl_mgmt.Base.Maps.{lookup, insert-lookup}
use hhctrl_mgmt.Base.Outcome.{Outcome, done, thrown, stuck, after}
use hhctrl_mgmt.Bus.Events.{whole, Bus, Event, Slot, slots, publish}
use hhctrl_mgmt.Bus.Events.Laws.{IsWired, publish_lem}
use hhctrl_mgmt.Platform.{DeviceType}
use hhctrl_mgmt.Adapter.Handlers.{
  Handler, sync_first, hatch_created, hatch_state_changed, sensor_created, sensor_state_changed,
}
use hhctrl_mgmt.App.HomeAssistant.{
  EventType, created, removed, state_changed, handler_of, home_assistant_init,
}
use hhctrl_mgmt.App.HomeAssistant.Laws.{AreDistinct, slot, init-IsWired, home_assistant_init-slots}
use hhctrl_mgmt.App.Attached.{
  Kind, hatches, sensors, type_of, Attached, handle, deliver, send, on_created, on_state_changed,
}

after-done_lem : {A : Type 0} (o : Outcome A) → after o (λ a. done a) ≡ o
after-done_lem (done a) = refl
after-done_lem thrown = refl
after-done_lem stuck = refl

-- The handler of this kind of devices alone hears their events.
pub record IsHeard (kind : Kind) (ids : EventType → DeviceType → ℕ) (bus : Bus) : Type 0 where
  pub wired : IsWired bus
  pub heard :
      (k : EventType)
      → slots (ids k (type_of kind)) bus
        ≡ slot (ids k (type_of kind)) (handler_of (type_of kind)) ∷ []

pub init-IsHeard :
    (kind : Kind) (ids : EventType → DeviceType → ℕ)
    → AreDistinct ids
    → IsHeard kind ids (home_assistant_init ids [])
unfolding slots lookup
init-IsHeard kind ids d = record {
  wired = init-IsWired ids [] (λ id. tt);
  heard = λ k. home_assistant_init-slots ids k (type_of kind) d;
}

lookup-slots :
    (id : ℕ) (s : Slot) (bus : Bus) → slots id bus ≡ s ∷ [] → lookup id bus ≡ some (s ∷ [])
unfolding slots
lookup-slots id s bus h = elim (Option-cases (lookup id bus)) [
  | inl e ↦ absurd (ground (arith, e, h))
  | inr (ss, e) ↦ ground (arith, e, h)
]

-- An event about such a device leaves the bus as it was.
publish-heard :
    (kind : Kind) (ids : EventType → DeviceType → ℕ) (k : EventType) (device_id : ℕ) (bus : Bus)
    → IsHeard kind ids bus
    → publish (record { event_id = ids k (type_of kind); device_id = device_id }) bus
      ≡ done (
        bus,
        record {
          handler = whole (handler_of (type_of kind));
          event = record { event_id = ids k (type_of kind); device_id = device_id };
        }
            ∷ [],
      )
publish-heard kind ids k device_id bus h =
    let event : Event = record { event_id = ids k (type_of kind); device_id = device_id } in
    let id = ids k (type_of kind) in
    simp
      (
        (publish_lem event bus 0 h.wired).0,
        h.heard k,
        insert-lookup id (slot id (handler_of (type_of kind)) ∷ []) bus
            (lookup-slots id (slot id (handler_of (type_of kind))) bus (h.heard k)),
      )
      refl

on_created_lem :
    {A : Type 0} (kind : Kind) (ids : EventType → DeviceType → ℕ) (create : ℕ → Outcome (Option A))
    (moved : Outcome (Handler A)) (device_id : ℕ) (h : Handler A) (a : A)
    → create device_id ≡ done (some a)
    → on_created kind ids create moved device_id h
      ≡ done (record {
        devices = h.devices ++ record { device_id = device_id; adapter = a } ∷ [];
        running = h.running ++ device_id ∷ [];
      })
unfolding hatch_created sensor_created
on_created_lem hatches ids create moved device_id h a c = simp (c) refl
on_created_lem sensors ids create moved device_id h a c = simp (c) refl

on_state_changed_lem :
    {A : Type 0} (kind : Kind) (ids : EventType → DeviceType → ℕ) (create : ℕ → Outcome (Option A))
    (moved : Outcome (Handler A)) (sync : A → Outcome A) (device_id : ℕ) (h : Handler A)
    → on_state_changed kind ids create moved sync device_id h
      ≡ after (sync_first sync device_id h.devices) (λ ds. done (record h { devices = ds }))
unfolding hatch_state_changed sensor_state_changed
on_state_changed_lem hatches ids create moved sync device_id h = refl
on_state_changed_lem sensors ids create moved sync device_id h = refl

module _ {A : Type 0} (kind : Kind) (ids : EventType → DeviceType → ℕ)
    (create : ℕ → Outcome (Option A)) (moved : Outcome (Handler A))
    (distinct : AreDistinct ids) where
  pub send-heard :
      (sync : ℕ → A → Outcome A) (k : EventType) (device_id : ℕ)
      (t : Attached kind ids create moved)
      → IsHeard kind ids t.bus
      → send kind ids create moved sync k device_id t
        ≡ after
            (handle kind ids create moved sync
              (record { event_id = ids k (type_of kind); device_id = device_id })
              t.handler)
            (λ h. done (record t { handler = h }))
  unfolding send deliver
  send-heard sync k device_id t h =
      simp (publish-heard kind ids k device_id t.bus h, ==_refl, after-done_lem) refl

  pub handle-created :
      (sync : ℕ → A → Outcome A) (device_id : ℕ) (h : Handler A) (a : A)
      → create device_id ≡ done (some a)
      → handle kind ids create moved sync
          (record { event_id = ids created (type_of kind); device_id = device_id })
          h
        ≡ done (record {
          devices = h.devices ++ record { device_id = device_id; adapter = a } ∷ [];
          running = h.running ++ device_id ∷ [];
        })
  unfolding handle
  handle-created sync device_id h a c =
      let its_own = ==_refl (handler_of (type_of kind)) in
      simp (distinct created created (type_of kind) (type_of kind), its_own)
        (on_created_lem kind ids create moved device_id h a c)

  pub handle-state_changed :
      (sync : ℕ → A → Outcome A) (device_id : ℕ) (h : Handler A)
      → handle kind ids create moved sync
          (record { event_id = ids state_changed (type_of kind); device_id = device_id })
          h
        ≡ after
            (sync_first (sync device_id) device_id h.devices)
            (λ ds. done (record h { devices = ds }))
  unfolding handle
  handle-state_changed sync device_id h =
      simp
        (
          distinct state_changed created (type_of kind) (type_of kind),
          distinct state_changed removed (type_of kind) (type_of kind),
        )
        (on_state_changed_lem kind ids create moved (sync device_id) device_id h)
