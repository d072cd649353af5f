-- ===== src/App/HomeAssistant/Laws.antt =====
-- Who handles which event, once the handlers are subscribed.
use hhctrl_mgmt.Base.{ℕ, ◌≡◌, true, [], ◌∷◌, ◌++◌, ◌==◌, ◌&&◌, if◌then◌else◌, arith}
use hhctrl_mgmt.Base.Maps.{lookup}
use hhctrl_mgmt.Bus.Events.{whole, Bus, Slot, slots, slots-insert, subscribe}
use hhctrl_mgmt.Bus.Events.Laws.{IsWired, subscribe-IsWired}
use hhctrl_mgmt.Platform.{DeviceType}
use hhctrl_mgmt.App.HomeAssistant.{
  EventType, created, removed, state_changed, handler_of, home_assistant_init,
}

abbrev pub kind_code : EventType → ℕ
kind_code created = 0
kind_code removed = 1
kind_code state_changed = 2

-- No two event types share an id, as `EventIdGenerator` gives them.
abbrev pub AreDistinct : (EventType → DeviceType → ℕ) → Type 0
AreDistinct ids =
    (j k : EventType) (t u : DeviceType)
    → (ids j t == ids k u) ≡ (kind_code j == kind_code k && handler_of t == handler_of u)

abbrev pub slot : ℕ → ℕ → Slot
slot event_id handler = record { event_id = event_id; by_reference = true; handler = whole handler }

subscribe-slots :
    (id j handler : ℕ) (bus : Bus)
    → slots j (subscribe id true handler bus)
      ≡ (if id == j then slots id bus ++ (slot id handler ∷ []) else slots j bus)
unfolding subscribe
subscribe-slots id j handler bus = slots-insert id j (slots id bus ++ (slot id handler ∷ [])) bus

pub init-IsWired :
    (ids : EventType → DeviceType → ℕ) (bus : Bus)
    → IsWired bus
    → IsWired (home_assistant_init ids bus)
unfolding home_assistant_init
init-IsWired ids bus w = subscribe-IsWired _ true _ _ (
    subscribe-IsWired _ true _ _ (
      subscribe-IsWired _ true _ _ (
        subscribe-IsWired _ true _ _ (
          subscribe-IsWired _ true _ _ (
            subscribe-IsWired _ true _ _ (
              subscribe-IsWired _ true _ _
                (subscribe-IsWired _ true _ _ (subscribe-IsWired _ true _ bus w))))))))

-- Where no two event types share an id: after the start, an event of any of the three types about any
-- of the three device types has one subscriber, by reference, the handler of that device type.
pub home_assistant_init-slots :
    (ids : EventType → DeviceType → ℕ) (k : EventType) (t : DeviceType)
    → AreDistinct ids
    → slots (ids k t) (home_assistant_init ids []) ≡ slot (ids k t) (handler_of t) ∷ []
unfolding home_assistant_init slots lookup
home_assistant_init-slots ids k t d = simp (home_assistant_init, subscribe-slots, d) (ground arith)
