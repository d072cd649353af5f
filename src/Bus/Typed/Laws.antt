-- ===== src/Bus/Typed/Laws.antt =====
-- A handler is only given events of the type that it takes.
use hhctrl_mgmt.Base.{
  ℕ, ◌+◌, ◌<◌, ◌≤◌, ◌^◌, ◌≡◌, refl, ap, Bool, true, false, some, List, [], ◌∷◌, ◌++◌, map, arith,
  ◌==◌, ==_iff, if◌then◌else◌, All, Option-cases, inl, inr,
}
use mathlib.Core.Path.{subst}
use hhctrl_mgmt.Base.Maps.{lookup, lookup-insert}
use hhctrl_mgmt.Base.Outcome.{done, done-injective}
use hhctrl_mgmt.Bus.Ids.{Ids, id_of, IsInjective, id_of-IsInjective}
use hhctrl_mgmt.Bus.Events.{original, Event, Slot, Spawned, slots, slots-insert, subscribe}
use hhctrl_mgmt.Bus.Events.Laws.{
  HasId, IsWired, subscribe-IsWired, publish_lem, published, spawn, used,
}
use hhctrl_mgmt.Bus.Typed.{
  TypedBus, make_event, subscribe_type, publish_type, Uses, start, subscribed, made,
  published as published_event,
}

All-imp {ℓ κ} :
    {A : Type ℓ} (P Q : A → Type κ) (xs : List A) → ((a : A) → P a → Q a) → All P xs → All Q xs
All-imp P Q [] f h = tt
All-imp P Q (x ∷ xs) f h = (f x h.0, All-imp P Q xs f h.1)

All-append {ℓ κ} :
    {A : Type ℓ} (P : A → Type κ) (xs ys : List A) → All P xs → All P ys → All P (xs ++ ys)
All-append P [] ys h k = k
All-append P (x ∷ xs) ys h k = (h.0, All-append P xs ys h.1 k)

All-middle {ℓ κ} :
    {A : Type ℓ} (P : A → Type κ) (xs ys : List A) (a : A) → All P (xs ++ (a ∷ ys)) → P a
All-middle P [] ys a h = h.0
All-middle P (x ∷ xs) ys a h = All-middle P xs ys a h.1

if-All {ℓ κ} :
    {A : Type ℓ} (P : A → Type κ) (b : Bool) (xs ys : List A)
    → All P xs
    → All P ys
    → All P (if b then xs else ys)
if-All P true xs ys h k = h
if-All P false xs ys h k = k

-- A type keeps its id.
id_of-kept :
    (type u i : ℕ) (ids : Ids)
    → lookup u ids.assigned ≡ some i
    → lookup u (id_of type ids).1.assigned ≡ some i
unfolding id_of
id_of-kept type u i ids h = elim (Option-cases (lookup type ids.assigned)) [
  | inr (k, e) ↦ ground (arith, e, h)
  | inl e ↦ ground (arith, e, h, ==_iff u type, lookup-insert type u ids.counter ids.assigned)
]

id_of-counter :
    (type : ℕ) (ids : Ids) → ids.counter + 1 < 2 ^ 64 → (id_of type ids).1.counter ≤ ids.counter + 1
unfolding id_of
id_of-counter type ids h = ground arith

module _ (handler_type : ℕ → ℕ) where
  -- A slot expects the id of the type that its handler takes, moved from or not.
  abbrev pub HasType : Ids → Slot → Type 0
  HasType ids s = lookup (handler_type (original s.handler)) ids.assigned ≡ some s.event_id

  -- The event was made with the id of its type.
  abbrev pub IsMade : Ids → ℕ × Event → Type 0
  IsMade ids e = lookup e.0 ids.assigned ≡ some e.1.event_id

  -- The handler takes the type of the event that it was given.
  abbrev pub IsCastable : ℕ × Spawned → Type 0
  IsCastable d = handler_type (original d.1.handler) ≡ d.0

  pub record IsTyped (t : TypedBus) : Type 0 where
    pub injective : IsInjective t.ids
    pub wired : IsWired t.bus
    pub typed : (id : ℕ) → All (HasType t.ids) (slots id t.bus)
    pub made_events : All (IsMade t.ids) t.events
    pub castable : All IsCastable t.delivered

  subscribe_type-IsTyped :
      (by_reference : Bool) (handler : ℕ) (t : TypedBus)
      → IsTyped t
      → t.ids.counter + 1 < 2 ^ 64
      → IsTyped (subscribe_type (handler_type handler) by_reference handler t)
  unfolding subscribe_type subscribe
  subscribe_type-IsTyped by_reference handler t v h =
      let type = handler_type handler in
      let (injective, known, others) = id_of-IsInjective type 0 t.ids v.injective h in
      let id = (id_of type t.ids).0 in
      let kept = λ (j : ℕ).
        All-imp (HasType t.ids) (HasType (id_of type t.ids).1) (slots j t.bus)
          (λ s k. id_of-kept type (handler_type (original s.handler)) s.event_id t.ids k)
          (v.typed j) in
      record {
        injective = injective;
        wired = subscribe-IsWired id by_reference handler t.bus v.wired;
        typed = λ j. rw (slots-insert id j _ t.bus) (
            if-All (HasType (id_of type t.ids).1) (id == j) _ _
              (All-append (HasType (id_of type t.ids).1) (slots id t.bus) _ (kept id) (known, tt))
              (kept j));
        made_events =
            All-imp (IsMade t.ids) (IsMade (id_of type t.ids).1) t.events
              (λ e k. id_of-kept type e.0 e.1.event_id t.ids k) v.made_events;
        castable = v.castable;
      }

  make_event-IsTyped :
      (type device_id : ℕ) (t : TypedBus)
      → IsTyped t
      → t.ids.counter + 1 < 2 ^ 64
      → IsTyped (make_event type device_id t)
  unfolding make_event
  make_event-IsTyped type device_id t v h =
      let (injective, known, others) = id_of-IsInjective type 0 t.ids v.injective h in
      record {
        injective = injective;
        wired = v.wired;
        typed = λ j.
            All-imp (HasType t.ids) (HasType (id_of type t.ids).1) (slots j t.bus)
              (λ s k. id_of-kept type (handler_type (original s.handler)) s.event_id t.ids k)
              (v.typed j);
        made_events =
            All-append (IsMade (id_of type t.ids).1) t.events _
              (All-imp (IsMade t.ids) (IsMade (id_of type t.ids).1) t.events
                (λ e k. id_of-kept type e.0 e.1.event_id t.ids k) v.made_events)
              (known, tt);
        castable = v.castable;
      }

  original-used : (s : Slot) → original (used s).handler ≡ original s.handler
  original-used s = ground arith

  used-HasType :
      (ids : Ids) (ss : List Slot) → All (HasType ids) ss → All (HasType ids) (map used ss)
  used-HasType ids [] h = tt
  used-HasType ids (s ∷ ss) h = (rw (original-used s) h.0, used-HasType ids ss h.1)

  spawn-IsCastable :
      (ids : Ids) (e : ℕ × Event) (ss : List Slot)
      → IsInjective ids
      → IsMade ids e
      → HasId e.1.event_id ss
      → All (HasType ids) ss
      → All IsCastable (map (λ (c : Spawned). (e.0, c)) (map (spawn e.1) ss))
  spawn-IsCastable ids e [] v m i h = tt
  spawn-IsCastable ids e (s ∷ ss) v m i h = (
    v.distinct (handler_type (original s.handler)) e.0 e.1.event_id (cc (h.0, i.0)) m,
    spawn-IsCastable ids e ss v m i.1 h.1,
  )

  publish_type-IsTyped :
      (e : ℕ × Event) (t t' : TypedBus)
      → IsTyped t
      → IsMade t.ids e
      → publish_type e t ≡ done t'
      → IsTyped t' × (t'.ids ≡ t.ids)
  unfolding publish_type
  publish_type-IsTyped e t t' v m ran =
      let (sent, wired, others) = publish_lem e.1 t.bus 0 v.wired in
      let after_it : TypedBus = record t {
        bus = published e.1 t.bus;
        delivered =
            t.delivered
            ++ map (λ (c : Spawned). (e.0, c)) (map (spawn e.1) (slots e.1.event_id t.bus));
      } in
      let same : (publish_type e t ≡ done after_it) = simp sent refl in
      let reached : (after_it ≡ t') = done-injective (cc (ran, same)) in
      let ss = slots e.1.event_id t.bus in
      (
        subst IsTyped reached (record {
          injective = v.injective;
          wired = wired;
          typed = λ j. rw (slots-insert e.1.event_id j _ t.bus) (
              if-All (HasType t.ids) (e.1.event_id == j) _ _
                (used-HasType t.ids ss (v.typed e.1.event_id)) (v.typed j));
          made_events = v.made_events;
          castable = All-append IsCastable t.delivered _ v.castable (
              spawn-IsCastable t.ids e ss v.injective m (v.wired e.1.event_id)
                (v.typed e.1.event_id));
        }),
        subst (λ x. x.ids ≡ t.ids) reached refl,
      )

  -- Where ids are distinct and do not run out, each slot is under the id that it expects, and each
  -- holds a handler, moved from or not, that takes the type of that id, and events have the ids of their types:
  -- this is so in every state that is reached by subscribing handlers for the types that they take and
  -- by making and publishing events, in any order, as long as the calls return. In each of them every
  -- handler has only been given events of the type that it takes.
  pub Uses-IsTyped :
      {t : TypedBus} {n : ℕ} {t' : TypedBus}
      → Uses handler_type t n t'
      → IsTyped t
      → t.ids.counter + n < 2 ^ 64
      → IsTyped t' × (t'.ids.counter ≤ t.ids.counter + n)
  unfolding subscribe_type make_event
  Uses-IsTyped start v h = (v, omega arith)
  Uses-IsTyped (subscribed {n} {t₁} by_reference handler u) v h =
      let (before, below) = Uses-IsTyped u v (omega (arith, h)) in
      (
        subscribe_type-IsTyped by_reference handler t₁ before (omega (arith, below, h)),
        omega (arith, below, h, id_of-counter (handler_type handler) t₁.ids),
      )
  Uses-IsTyped (made {n} {t₁} type device_id u) v h =
      let (before, below) = Uses-IsTyped u v (omega (arith, h)) in
      (
        make_event-IsTyped type device_id t₁ before (omega (arith, below, h)),
        omega (arith, below, h, id_of-counter type t₁.ids),
      )
  Uses-IsTyped (published_event {n} {t₁} e before later u at ran) v h =
      let (v', below) = Uses-IsTyped u v h in
      let is_made =
        All-middle (IsMade t₁.ids) before later e (subst (All (IsMade t₁.ids)) at v'.made_events) in
      let (v'', same) = publish_type-IsTyped e t₁ _ v' is_made ran in
      (v'', omega (arith, below, ap (λ (i : Ids). i.counter) same))
