-- ===== src/Examples/Messages.antt =====
-- The event bus and the command dispatcher at concrete inputs.
use hhctrl_mgmt.Bus.Typed.{
  TypedBus, Uses, start, subscribed, made, published as publishing, subscribe_type, make_event,
  publish_type,
}
use hhctrl_mgmt.Bus.Typed.Laws.{IsTyped, Uses-IsTyped}
use hhctrl_mgmt.Base.{ℕ, ◌≤◌, ◌≡◌, ◌≢◌, ◌⊎◌, refl, true, false, none, [], ◌∷◌, arith}
use hhctrl_mgmt.Base.Maps.{lookup, insert}
use hhctrl_mgmt.Base.Outcome.{done, thrown}
use hhctrl_mgmt.Bus.Ids.{id_of, event_ids, IsInjective}
use hhctrl_mgmt.Bus.Events.{
  whole, moved_from, Event, Bus, slots, subscribe, publish, emit, call_slot,
}
use hhctrl_mgmt.Bus.Events.Laws.{
  IsWired, published, subscribe-IsWired, publish_lem, subscribe_owned, intact_call, moved_call,
  publish_all, publish_owned,
}
use hhctrl_mgmt.Bus.Commands.{Handlers, IsRegistry, add_handler, async_dispatch, add_handler_lem}

abbrev references : Bus
references = subscribe 1 true 11 (subscribe 1 true 10 [])

abbrev created : ℕ → Event
created device = record { event_id = 1; device_id = device }

no_slots-IsWired : IsWired []
unfolding slots lookup
no_slots-IsWired id = tt

abbrev references-IsWired : IsWired references
references-IsWired =
    subscribe-IsWired 1 true 11 (subscribe 1 true 10 [])
      (subscribe-IsWired 1 true 10 [] no_slots-IsWired)

publish_lem_example :
    (publish (created 7) references
      ≡ done (
        published (created 7) references,
        record { handler = whole 10; event = created 7 }
            ∷ record { handler = whole 11; event = created 7 }
            ∷ [],
      ))
    × IsWired (published (created 7) references)
    × (slots 1 (published (created 7) references) ≡ slots 1 references)
unfolding subscribe slots lookup insert
publish_lem_example = publish_lem (created 7) references 1 references-IsWired

publish_owned_example :
    (bus₁ : Bus) × (bus₂ : Bus) × (publish (created 7) (subscribe_owned 1 (10 ∷ 11 ∷ []) [])
      ≡ done (bus₁, intact_call (created 7) 10 ∷ intact_call (created 7) 11 ∷ []))
    × (publish_all (created 8 ∷ created 9 ∷ []) bus₁
        ≡ done (
          bus₂,
          moved_call (created 8) 10
              ∷ moved_call (created 8) 11
              ∷ moved_call (created 9) 10
              ∷ moved_call (created 9) 11
              ∷ [],
        ))
unfolding slots lookup
publish_owned_example =
    publish_owned 1 (10 ∷ 11 ∷ []) [] (created 7) (created 8 ∷ created 9 ∷ []) no_slots-IsWired refl
      refl (refl, (refl, tt))

no_ids-IsInjective : IsInjective event_ids
unfolding lookup
no_ids-IsInjective = record {
  below = λ t i e. ground (arith, e);
  distinct = λ t u i e f. ground (arith, e);
}

abbrev no_handlers : Handlers
no_handlers = []

add_handler_lem_example :
    ((lookup 5 no_handlers ≢ none) × (add_handler 5 100 no_handlers ≡ thrown))
    ⊎ ((hs' : Handlers) × (add_handler 5 100 no_handlers ≡ done hs')
        × IsRegistry hs'
        × (async_dispatch (5, 1) hs' ≡ done (100, 1))
        × (async_dispatch (6, 1) hs' ≡ async_dispatch (6, 1) no_handlers))
unfolding lookup
add_handler_lem_example = add_handler_lem 5 6 100 1 no_handlers (λ id w e. ground (arith, e))

abbrev first_use : TypedBus
first_use = record { ids = event_ids; bus = []; events = []; delivered = [] }

-- A handler of type 4 that is kept by value, and an event of that type about device 9.
abbrev last_use : TypedBus
last_use = record {
  ids = record { counter = 2; assigned = (4, 1) ∷ [] };
  bus = (1, record { event_id = 1; by_reference = false; handler = moved_from 4 } ∷ []) ∷ [];
  events = (4, record { event_id = 1; device_id = 9 }) ∷ [];
  delivered =
      (4, record { handler = whole 4; event = record { event_id = 1; device_id = 9 } }) ∷ [];
}

uses : Uses (λ handler. handler) first_use 2 last_use
unfolding subscribe_type make_event publish_type id_of lookup insert subscribe slots publish emit
    call_slot
uses =
    publishing (4, record { event_id = 1; device_id = 9 }) [] []
      (made 4 9 (subscribed false 4 start)) refl refl

Uses-IsTyped_example : IsTyped (λ handler. handler) last_use × (last_use.ids.counter ≤ 3)
unfolding lookup slots
Uses-IsTyped_example =
    Uses-IsTyped (λ handler. handler) uses
      (record {
        injective = record {
          below = λ t i e. absurd (cc e);
          distinct = λ t u i e k. absurd (cc e);
        };
        wired = λ id. tt;
        typed = λ id. tt;
        made_events = tt;
        castable = tt;
      })
      (omega arith)
