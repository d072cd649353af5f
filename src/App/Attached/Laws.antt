-- ===== src/App/Attached/Laws.antt =====
-- What a hatch or a sensor that was created shows from then on, whatever its adapter shows of a state.
use hhctrl_mgmt.Base.{
  ℕ, ◌≡◌, refl, Bool, false, Option, some, List, [], ◌∷◌, ◌++◌, if◌then◌else◌, All, drop, length,
  Bool-cases, inl, inr,
}
use hhctrl_mgmt.Base.Outcome.{Outcome, done, after, after-after}
use hhctrl_mgmt.Bus.Events.{Bus}
use hhctrl_mgmt.Platform.{DeviceType}
use hhctrl_mgmt.Device.Registry.{get}
use hhctrl_mgmt.Poller.Devices.{Poller, update, poll}
use hhctrl_mgmt.Adapter.Handlers.{Held, Handler, is_device}
use hhctrl_mgmt.Adapter.Handlers.Laws.{sync_first-found}
use hhctrl_mgmt.App.HomeAssistant.{EventType, created, state_changed, home_assistant_init}
use hhctrl_mgmt.App.HomeAssistant.Laws.{AreDistinct}
use hhctrl_mgmt.App.Attached.{Kind, Attached, send, poll_round, poll_rounds}
use hhctrl_mgmt.App.Attached.Hearing.{
  IsHeard, init-IsHeard, send-heard, handle-created, handle-state_changed,
}

drop-length {ℓ} : {A : Type ℓ} (xs ys : List A) → drop (length xs) (xs ++ ys) ≡ ys
drop-length [] ys = refl
drop-length (x ∷ xs) ys = drop-length xs ys

drop-length_self {ℓ} : {A : Type ℓ} (xs : List A) → drop (length xs) xs ≡ []
drop-length_self [] = refl
drop-length_self (x ∷ xs) = drop-length_self xs

-- The `async_sync_state` of a device's adapter, on the inventory of its type as it is.
abbrev pub sync_at : {A D : Type 0} → (D → A → Outcome A) → List (ℕ × D) → ℕ → A → Outcome A
sync_at sync devices device_id a = after (get device_id devices) (λ device. sync device a)

-- At each reading the device is in the inventory, in this state.
abbrev pub Reads : {D S : Type 0} → (D → Outcome S) → ℕ → List (List (ℕ × D)) → List S → Type 0
Reads read id [] [] = Unit
Reads read id [] (s ∷ ss) = ⊥
Reads read id (devices ∷ later) [] = ⊥
Reads {D} read id (devices ∷ later) (s ∷ ss) =
    ((device : D) × (get id devices ≡ done device) × (read device ≡ done s))
    × Reads read id later ss

-- The states at which what the poller remembers of them differs from the last such are shown, in order.
abbrev pub shown_changes :
    {A S K : Type 0} → (S → K) → (K → K → Bool) → (S → A → Outcome A) → K → List S → A → Outcome A
shown_changes key differs shown cached [] a = done a
shown_changes key differs shown cached (s ∷ ss) a =
    let changed = after (shown s a) (shown_changes key differs shown (key s) ss) in
    let same = shown_changes key differs shown cached ss a in
    if differs (key s) cached then changed else same

-- The poller after these states.
abbrev pub seen : {S K : Type 0} → (S → K) → (K → K → Bool) → List S → Poller K → Poller K
seen key differs [] p = p
seen key differs (s ∷ ss) p =
    seen key differs ss (if differs (key s) p.cached then update (key s) p else p)

module _ {A D S K : Type 0} (kind : Kind) (ids : EventType → DeviceType → ℕ)
    (create : ℕ → Outcome (Option A)) (moved : Outcome (Handler A)) (read : D → Outcome S)
    (key : S → K) (current : D → Outcome K) (differs : K → K → Bool) (sync : D → A → Outcome A)
    (shown : S → A → Outcome A)
    (currents : (device : D) (s : S) → read device ≡ done s → current device ≡ done (key s))
    (syncs : (device : D) (s : S) (a : A) → read device ≡ done s → sync device a ≡ shown s a) where
  module _ (distinct : AreDistinct ids) (bus : Bus) (heard : IsHeard kind ids bus)
      (before : List (Held A)) (running : List ℕ) (id : ℕ)
      (others : All (λ x. is_device id x ≡ false) before) where
    -- The device's adapter stands behind the others.
    abbrev with_adapter : A → Attached kind ids create moved
    with_adapter a = record {
      bus = bus;
      handler = record {
        devices = before ++ record { device_id = id; adapter = a } ∷ [];
        running = running;
      };
    }

    send-shown :
        (devices : List (ℕ × D)) (device : D) (s : S) (a : A)
        → get id devices ≡ done device
        → read device ≡ done s
        → send kind ids create moved (sync_at sync devices) state_changed id (with_adapter a)
          ≡ after (shown s a) (λ b. done (with_adapter b))
    send-shown devices device s a g known =
        simp
          (
            send-heard kind ids create moved distinct (sync_at sync devices) state_changed id
                (with_adapter a) heard,
            handle-state_changed kind ids create moved distinct (sync_at sync devices) id,
            sync_first-found (sync_at sync devices id) id before []
                (record { device_id = id; adapter = a }) others refl,
            g,
            syncs device s a known,
            after-after,
          )
          refl

    round_lem :
        (devices : List (ℕ × D)) (device : D) (s : S) (a : A) (p : Poller K)
        → p.device_id ≡ id
        → get id devices ≡ done device
        → read device ≡ done s
        → poll_round kind ids create moved current differs
            (sync_at sync)
            devices
            (p, with_adapter a)
          ≡ (if differs (key s) p.cached
              then after (shown s a) (λ b. done (update (key s) p, with_adapter b))
              else done (p, with_adapter a))
    unfolding poll_round poll update
    round_lem devices device s a p e g known = elim (Bool-cases (differs (key s) p.cached)) [
      | inl changed ↦
          simp
            (
              poll_round,
              poll,
              e,
              g,
              currents device s known,
              changed,
              drop-length p.published (id ∷ []),
              send-shown devices device s a g known,
              after-after,
            )
            refl
      | inr same ↦
          simp (poll_round, poll, e, g, currents device s known, same, drop-length_self p.published)
            refl
    ]

    rounds-shown :
        (readings : List (List (ℕ × D))) (ss : List S) (a : A) (p : Poller K)
        → p.device_id ≡ id
        → Reads read id readings ss
        → poll_rounds kind ids create moved current differs
            (sync_at sync)
            readings
            (p, with_adapter a)
          ≡ after
              (shown_changes key differs shown p.cached ss a)
              (λ b. done (seen key differs ss p, with_adapter b))
    unfolding update
    rounds-shown [] [] a p e r = refl
    rounds-shown [] (s ∷ ss) a p e r = absurd r
    rounds-shown (devices ∷ later) [] a p e r = absurd r
    rounds-shown (devices ∷ later) (s ∷ ss) a p e ((device, g, known), r) =
        elim (Bool-cases (differs (key s) p.cached)) [
          | inl changed ↦
              simp
                (
                  round_lem devices device s a p e g known,
                  changed,
                  after-after,
                  λ (b : A). rounds-shown later ss b (update (key s) p) e r,
                )
                refl
          | inr same ↦
              simp (round_lem devices device s a p e g known, same, rounds-shown later ss a p e r)
                refl
        ]

  pub device_life :
      (h : Handler A) (id : ℕ) (a : A) (devices : List (ℕ × D)) (readings : List (List (ℕ × D)))
      (ss : List S) (p : Poller K)
      → AreDistinct ids
      → All (λ x. is_device id x ≡ false) h.devices
      → create id ≡ done (some a)
      → p.device_id ≡ id
      → Reads read id readings ss
      → after
          (send kind ids create moved
            (sync_at sync devices)
            created
            id
            (record { bus = home_assistant_init ids []; handler = h }))
          (λ t. poll_rounds kind ids create moved current differs (sync_at sync) readings (p, t))
        ≡ after (shown_changes key differs shown p.cached ss a) (λ b. done (
          seen key differs ss p,
          record {
            bus = home_assistant_init ids [];
            handler = record {
              devices = h.devices ++ record { device_id = id; adapter = b } ∷ [];
              running = h.running ++ id ∷ [];
            };
          },
        ))
  device_life h id a devices readings ss p distinct others c e r =
      let heard = init-IsHeard kind ids distinct in
      simp
        (
          send-heard kind ids create moved distinct (sync_at sync devices) created id
              (record { bus = home_assistant_init ids []; handler = h }) heard,
          handle-created kind ids create moved distinct (sync_at sync devices) id h a c,
          rounds-shown distinct (home_assistant_init ids []) heard h.devices (h.running ++ id ∷ [])
              id others readings ss a p e r,
        )
        refl
