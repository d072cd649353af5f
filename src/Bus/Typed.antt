-- ===== src/Bus/Typed.antt =====
-- The bus with the types of its events: `subscribe<E>` and `publish<E>` of event_bus.hpp, on events that
-- `GenericEvent` of base_event.hpp makes. A slot casts the event that it is given to the type that it
-- was subscribed for. A type is a number, and `handler_type` tells which type a handler takes.
pub mod Laws
use hhctrl_mgmt.Base.{ℕ, suc, ◌≡◌, Bool, List, [], ◌∷◌, ◌++◌, map}
use hhctrl_mgmt.Base.Outcome.{Outcome, done, after}
use hhctrl_mgmt.Bus.Ids.{Ids, id_of}
use hhctrl_mgmt.Bus.Events.{Bus, Event, Spawned, subscribe, publish}

-- The ids that types have, the bus, the events that were made, and the coroutines that were spawned, with
-- the event's type.
pub record TypedBus : Type 0 where
  pub ids : Ids
  pub bus : Bus
  pub events : List (ℕ × Event)
  pub delivered : List (ℕ × Spawned)

-- `GenericEvent<E>()`, on a device.
unfoldable pub make_event : ℕ → ℕ → TypedBus → TypedBus
make_event type device_id t =
    let (id, ids) = id_of type t.ids in
    record t {
      ids = ids;
      events = t.events ++ ((type, record { event_id = id; device_id = device_id }) ∷ []);
    }

unfoldable pub subscribe_type : ℕ → Bool → ℕ → TypedBus → TypedBus
subscribe_type type by_reference handler t =
    let (id, ids) = id_of type t.ids in
    record t { ids = ids; bus = subscribe id by_reference handler t.bus }

unfoldable pub publish_type : ℕ × Event → TypedBus → Outcome TypedBus
publish_type (type, event) t = after (publish event t.bus) λ r.
    done (record t { bus = r.0; delivered = t.delivered ++ map (λ (c : Spawned). (type, c)) r.1 })

module _ (handler_type : ℕ → ℕ) where
  -- From the first state to the second, with this many uses of the id generator on the way: a handler is
  -- subscribed for the type that it takes, and an event is published that was made before.
  pub data Uses (t : TypedBus) : ℕ → TypedBus → Type 0 where
    start : Uses t 0 t
    subscribed :
        {n : ℕ} {t₁ : TypedBus} (by_reference : Bool) (handler : ℕ)
        → Uses t n t₁
        → Uses t (suc n) (subscribe_type (handler_type handler) by_reference handler t₁)
    made :
        {n : ℕ} {t₁ : TypedBus} (type device_id : ℕ)
        → Uses t n t₁
        → Uses t (suc n) (make_event type device_id t₁)
    published :
        {n : ℕ} {t₁ t₂ : TypedBus} (event : ℕ × Event) (before later : List (ℕ × Event))
        → Uses t n t₁
        → t₁.events ≡ before ++ (event ∷ later)
        → publish_type event t₁ ≡ done t₂
        → Uses t n t₂
