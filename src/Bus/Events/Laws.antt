-- ===== src/Bus/Events/Laws.antt =====
-- Who hears an event, and with which handler.
use hhctrl_mgmt.Base.{
  append_assoc, append-nil, ℕ, ◌≡◌, refl, sym, ap, ◌∙◌, Bool, true, false, List, [], ◌∷◌, ◌++◌, map,
  arith, ◌==◌, if◌then◌else◌, All,
}
use hhctrl_mgmt.Base.Maps.{insert}
use hhctrl_mgmt.Base.Outcome.{Outcome, done, after}
use hhctrl_mgmt.Bus.Events.{
  whole, moved_from, moved_out, Event, Slot, Spawned, Bus, slots, slots-insert, subscribe, emit,
  publish,
}

abbrev pub HasId : ℕ → List Slot → Type 0
HasId id = All (λ s. s.event_id ≡ id)

-- Each slot hangs under the id that it expects.
abbrev pub IsWired : Bus → Type 0
IsWired bus = (id : ℕ) → HasId id (slots id bus)

-- What a call of the slot spawns, and what it leaves behind.
abbrev pub spawn : Event → Slot → Spawned
spawn event s = record { handler = s.handler; event = event }

abbrev pub used : Slot → Slot
used s = record s { handler = if s.by_reference then s.handler else moved_out s.handler }

append-HasId :
    (id : ℕ) (ss : List Slot) (s : Slot) → HasId id ss → s.event_id ≡ id → HasId id (ss ++ s ∷ [])
append-HasId id [] s h e = (e, tt)
append-HasId id (x ∷ ss) s h e = (h.0, append-HasId id ss s h.1 e)

-- A subscription keeps the bus wired.
pub subscribe-IsWired :
    (id : ℕ) (by_reference : Bool) (handler : ℕ) (bus : Bus)
    → IsWired bus
    → IsWired (subscribe id by_reference handler bus)
unfolding subscribe
subscribe-IsWired id by_reference handler bus w j =
    rw (slots-insert id j _ bus) (ground (arith, w j, append-HasId id (slots id bus) s (w id) refl))
  where
    s : Slot
    s = record { event_id = id; by_reference = by_reference; handler = whole handler }

emit-done :
    (event : Event) (ss : List Slot)
    → HasId event.event_id ss
    → emit event ss ≡ done (map used ss, map (spawn event) ss)
unfolding emit
emit-done event [] h = refl
emit-done event (s ∷ ss) h = rw (emit-done event ss h.1) (ground (arith, h.0))

map-used-HasId : (id : ℕ) (ss : List Slot) → HasId id ss → HasId id (map used ss)
map-used-HasId id [] h = tt
map-used-HasId id (s ∷ ss) h = (h.0, map-used-HasId id ss h.1)

abbrev pub published : Event → Bus → Bus
published event bus = insert event.event_id (map used (slots event.event_id bus)) bus

-- On a wired bus `publish` does not throw: it calls each subscriber of the event's id once, in the
-- order of their subscriptions, each with its own copy of the event, and no subscriber of another
-- id. The bus stays wired.
pub publish_lem :
    (event : Event) (bus : Bus) (j : ℕ)
    → IsWired bus
    → (publish event bus ≡ done (published event bus, map (spawn event) (slots event.event_id bus)))
      × IsWired (published event bus)
      × (slots j (published event bus)
          ≡ (if event.event_id == j then map used (slots j bus) else slots j bus))
unfolding publish
publish_lem event bus j w = (
  rw (emit-done event (slots event.event_id bus) (w event.event_id)),
  λ i. rw (slots-insert event.event_id i _ bus) (
      ground
        (arith, w i, map-used-HasId event.event_id (slots event.event_id bus) (w event.event_id))),
  rw (slots-insert event.event_id j _ bus) (ground arith),
)

slots_published :
    (event : Event) (bus : Bus)
    → slots event.event_id (published event bus) ≡ map used (slots event.event_id bus)
slots_published event bus = rw (slots-insert event.event_id event.event_id _ bus) (ground arith)

map-used_refs : (ss : List Slot) → All (λ s. s.by_reference ≡ true) ss → map used ss ≡ ss
map-used_refs [] h = refl
map-used_refs (s ∷ ss) h = rw (map-used_refs ss h.1) (ground (arith, h.0))

-- On a wired bus whose subscribers of an event are all held by reference, a second `publish` of an
-- event of that id calls them again, each with its own handler.
publish_refs :
    (event later : Event) (bus : Bus)
    → IsWired bus
    → later.event_id ≡ event.event_id
    → All (λ s. s.by_reference ≡ true) (slots event.event_id bus)
    → (bus' : Bus) × (publish later (published event bus)
        ≡ done (bus', map (spawn later) (slots event.event_id bus)))
publish_refs event later bus w e h = (
  published later (published event bus),
  (publish_lem later (published event bus) 0 (publish_lem event bus 0 w).1).0
      ∙ ap (λ ss. done (published later (published event bus), map (spawn later) ss))
          (rw e (slots_published event bus ∙ map-used_refs (slots event.event_id bus) h)),
)

-- A handler that is held by value, as it was subscribed and once it was called, and what is spawned.
abbrev pub owned : ℕ → ℕ → Slot
owned id handler = record { event_id = id; by_reference = false; handler = whole handler }

abbrev spent : ℕ → ℕ → Slot
spent id handler = record { event_id = id; by_reference = false; handler = moved_from handler }

abbrev pub intact_call : Event → ℕ → Spawned
intact_call event handler = record { handler = whole handler; event = event }

abbrev pub moved_call : Event → ℕ → Spawned
moved_call event handler = record { handler = moved_from handler; event = event }

abbrev pub subscribe_owned : ℕ → List ℕ → Bus → Bus
subscribe_owned id [] bus = bus
subscribe_owned id (h ∷ hs) bus = subscribe_owned id hs (subscribe id false h bus)

-- One publication after another, with all that they spawn.
abbrev pub publish_all : List Event → Bus → Outcome (Bus × List Spawned)
publish_all [] bus = done (bus, [])
publish_all (event ∷ later) bus =
    after (publish event bus) λ r. after (publish_all later r.0) λ q. done (q.0, r.1 ++ q.1)

abbrev pub moved_calls : List Event → List ℕ → List Spawned
moved_calls [] hs = []
moved_calls (event ∷ later) hs = map (moved_call event) hs ++ moved_calls later hs

subscribe_owned-slots :
    (id : ℕ) (hs : List ℕ) (bus : Bus)
    → IsWired bus
    → IsWired (subscribe_owned id hs bus)
      × (slots id (subscribe_owned id hs bus) ≡ slots id bus ++ map (owned id) hs)
unfolding subscribe
subscribe_owned-slots id [] bus w = (w, sym (append-nil (slots id bus)))
subscribe_owned-slots id (h ∷ hs) bus w =
    let (wired, all) =
      subscribe_owned-slots id hs (subscribe id false h bus) (subscribe-IsWired id false h bus w) in
    let one : (slots id (subscribe id false h bus) ≡ slots id bus ++ owned id h ∷ []) =
      slots-insert id id _ bus ∙ ground arith in
    (wired, all ∙ simp (one) (append_assoc (slots id bus) (owned id h ∷ []) (map (owned id) hs)))

map-owned :
    (event : Event) (id : ℕ) (hs : List ℕ)
    → (map (spawn event) (map (owned id) hs) ≡ map (intact_call event) hs)
      × (map used (map (owned id) hs) ≡ map (spent id) hs)
      × (map (spawn event) (map (spent id) hs) ≡ map (moved_call event) hs)
      × (map used (map (spent id) hs) ≡ map (spent id) hs)
map-owned event id [] = (refl, refl, refl, refl)
map-owned event id (h ∷ hs) =
    let (a, b, c, d) = map-owned event id hs in
    (simp (a) refl, simp (b) refl, simp (c) refl, simp (d) refl)

-- Of an event whose slots are these: what a publication spawns, and what is left.
publish-slots :
    (event : Event) (bus : Bus) (ss : List Slot)
    → IsWired bus
    → slots event.event_id bus ≡ ss
    → (publish event bus ≡ done (published event bus, map (spawn event) ss))
      × IsWired (published event bus)
      × (slots event.event_id (published event bus) ≡ map used ss)
publish-slots event bus ss w e =
    let (sent, wired, later) = publish_lem event bus 0 w in
    (sent ∙ simp (e) refl, wired, slots_published event bus ∙ ap (map used) e)

publish_all-spent :
    (later : List Event) (id : ℕ) (hs : List ℕ) (bus : Bus)
    → IsWired bus
    → slots id bus ≡ map (spent id) hs
    → All (λ event. event.event_id ≡ id) later
    → (bus' : Bus) × (publish_all later bus ≡ done (bus', moved_calls later hs))
publish_all-spent [] id hs bus w e h = (bus, refl)
publish_all-spent (event ∷ later) id hs bus w e h =
    let (a, b, moved, left) = map-owned event id hs in
    let here : (slots event.event_id bus ≡ map (spent id) hs) = ap (λ i. slots i bus) h.0 ∙ e in
    let (sent, wired, slots') = publish-slots event bus (map (spent id) hs) w here in
    let there : (slots id (published event bus) ≡ map (spent id) hs) =
      ap (λ i. slots i (published event bus)) (sym h.0) ∙ slots' ∙ left in
    let (bus', rest) = publish_all-spent later id hs (published event bus) wired there h.1 in
    (bus', simp (sent, moved, rest) refl)

-- On a wired bus, handlers are subscribed by value for an event id that has no subscriber: the first
-- `publish` of that id calls each of them as it was subscribed, in order, and every later one of that
-- id, however many there are, calls each of them moved from, in the same order.
pub publish_owned :
    (id : ℕ) (hs : List ℕ) (bus : Bus) (first : Event) (later : List Event)
    → IsWired bus
    → slots id bus ≡ []
    → first.event_id ≡ id
    → All (λ event. event.event_id ≡ id) later
    → (bus₁ : Bus) × (bus₂ : Bus) × (publish first (subscribe_owned id hs bus)
        ≡ done (bus₁, map (intact_call first) hs))
      × (publish_all later bus₁ ≡ done (bus₂, moved_calls later hs))
publish_owned id hs bus first later w free e h =
    let (wired, subscribed) = subscribe_owned-slots id hs bus w in
    let (intact, left, c, d) = map-owned first id hs in
    let bus₀ = subscribe_owned id hs bus in
    let here : (slots first.event_id bus₀ ≡ map (owned id) hs) =
      ap (λ i. slots i bus₀) e ∙ subscribed ∙ simp (free) refl in
    let (sent, wired', slots') = publish-slots first bus₀ (map (owned id) hs) wired here in
    let there : (slots id (published first bus₀) ≡ map (spent id) hs) =
      ap (λ i. slots i (published first bus₀)) (sym e) ∙ slots' ∙ left in
    let (bus₂, rest) = publish_all-spent later id hs (published first bus₀) wired' there h in
    (published first bus₀, bus₂, sent ∙ simp (intact) refl, rest)
