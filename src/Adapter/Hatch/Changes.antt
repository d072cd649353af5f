-- ===== src/Adapter/Hatch/Changes.antt =====
-- A change of the hatch on its way to Home Assistant: the poller, the event handler, the adapter and the
-- cover.
use hhctrl_mgmt.Base.{
  ℕ, ◌≡◌, refl, Bool, true, false, none, some, List, [], ◌∷◌, ◌++◌, String, All, Option-cases, inl,
  inr,
}
use hhctrl_mgmt.Base.Outcome.{Outcome, done, after, after-after}
use hhctrl_mgmt.Mqtt.Config.{Config}
use hhctrl_mgmt.Mqtt.Entity.{EntityClient, topic, async_publish}
use hhctrl_mgmt.Device.Registry.{get}
use hhctrl_mgmt.Poller.Devices.{Poller, update, poll, hatch_current}
use hhctrl_mgmt.Adapter.Lifecycle.{Adapter, default_pubopts, async_sync_state}
use hhctrl_mgmt.Adapter.Handlers.Laws.{sync_first-found}
use hhctrl_mgmt.Adapter.Handlers.{Held, is_device, hatch_state_changed}
use hhctrl_mgmt.Adapter.Hatch.{HatchState, SysfsHatch, status, hatch_state}
use hhctrl_mgmt.Adapter.Hatch.Commands.{published_text, hatch_state_published}
use hhctrl_mgmt.Adapter.Hatch.Rounds.{cover_ops}

module _ (C : EntityClient) (rounds : ℕ) (serialize : Config → String) where
  abbrev pub HatchAdapter : Type 0
  HatchAdapter = Adapter (cover_ops C rounds serialize)

  -- `async_sync_state` of the adapter of a hatch, as the handler calls it.
  abbrev pub sync_hatch : Config → SysfsHatch → HatchAdapter → Outcome HatchAdapter
  sync_hatch config hatch a =
      after
        (async_sync_state (cover_ops C rounds serialize)
          (record { config = config; state = some (hatch_state hatch) }) a)
        (λ r. done r.1)

  -- What the cover is given for this state, and the adapter afterwards.
  abbrev pub shown : HatchState → HatchAdapter → Outcome HatchAdapter
  shown s a = elim (published_text s) [
    | none ↦ done a
    | some t ↦
        after (async_publish C (topic a.entity "state") t default_pubopts a.entity)
          (λ r. done (record a { entity = r.1 }))
  ]

  pub sync_hatch-shown :
      (config : Config) (hatch : SysfsHatch) (s : HatchState) (a : HatchAdapter)
      → status hatch ≡ done s
      → sync_hatch config hatch a ≡ shown s a
  unfolding async_sync_state hatch_state
  sync_hatch-shown config hatch s a known =
      simp
        (
          async_sync_state,
          hatch_state,
          known,
          hatch_state_published C a.entity s default_pubopts,
          after-after,
        )
        (elim (Option-cases (published_text s)) [
          | inl silent ↦ simp (shown, silent) refl
          | inr said ↦ simp (shown, said.1) refl
        ])

  -- Where a poller remembers another hash than that of the hatch's state now, and the handler has an
  -- adapter for the hatch: a poll publishes one event about the hatch, and on that event the
  -- handler has the state's text published on the topic of the hatch's cover, retained, or leaves
  -- the adapter as it is if the source has no text for the state. The other adapters stay as they are.
  hatch_change-shown :
      (config : Config) (hash : HatchState → ℕ) (differs : ℕ → ℕ → Bool)
      (devices : List (ℕ × SysfsHatch)) (p : Poller ℕ) (hatch : SysfsHatch) (s : HatchState)
      (before later : List (Held HatchAdapter)) (held : Held HatchAdapter) (running : List ℕ)
      → get p.device_id devices ≡ done hatch
      → status hatch ≡ done s
      → differs (hash s) p.cached ≡ true
      → All (λ x. is_device p.device_id x ≡ false) before
      → held.device_id ≡ p.device_id
      → (poll (hatch_current status hash) differs devices p
          ≡ done (record p { cached = hash s; published = p.published ++ p.device_id ∷ [] }))
        × (hatch_state_changed
              (sync_hatch config hatch)
              p.device_id
              (record { devices = before ++ held ∷ later; running = running })
            ≡ after (shown s held.adapter) (λ a. done (record {
              devices = before ++ record held { adapter = a } ∷ later;
              running = running;
            })))
  unfolding poll update hatch_current hatch_state_changed
  hatch_change-shown config hash differs devices p hatch s before later held running g known new
        others e =
      (
        simp (poll, g, known, new) refl,
        simp
            (
              hatch_state_changed,
              sync_first-found (sync_hatch config hatch) p.device_id before later held others e,
              sync_hatch-shown config hatch s held.adapter known,
              after-after,
            )
            refl,
      )
