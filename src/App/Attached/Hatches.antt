-- ===== src/App/Attached/Hatches.antt =====
-- What a hatch that was created shows from then on.
use hhctrl_mgmt.Base.{ℕ, ◌≡◌, refl, Bool, false, Option, some, List, [], ◌∷◌, ◌++◌, All, String}
use hhctrl_mgmt.Base.Outcome.{Outcome, done, after}
use hhctrl_mgmt.Platform.{DeviceType}
use hhctrl_mgmt.Mqtt.Config.{Config}
use hhctrl_mgmt.Mqtt.Entity.{EntityClient}
use hhctrl_mgmt.Poller.Devices.{Poller, hatch_current}
use hhctrl_mgmt.Adapter.Handlers.{Handler, is_device}
use hhctrl_mgmt.Adapter.Hatch.{HatchState, SysfsHatch, status}
use hhctrl_mgmt.Adapter.Hatch.Changes.{HatchAdapter, sync_hatch, shown, sync_hatch-shown}
use hhctrl_mgmt.App.HomeAssistant.{EventType, created, home_assistant_init}
use hhctrl_mgmt.App.HomeAssistant.Laws.{AreDistinct}
use hhctrl_mgmt.App.Attached.{hatches, send, poll_rounds}
use hhctrl_mgmt.App.Attached.Laws.{sync_at, Reads, shown_changes, seen, device_life}

module _ (C : EntityClient) (rounds : ℕ) (serialize : Config → String) (config : Config)
    (ids : EventType → DeviceType → ℕ)
    (create : ℕ → Outcome (Option (HatchAdapter C rounds serialize)))
    (moved : Outcome (Handler (HatchAdapter C rounds serialize))) (hash : HatchState → ℕ)
    (differs : ℕ → ℕ → Bool) where
  -- The `async_sync_state` of a hatch's adapter, on the inventory of hatches as it is.
  abbrev pub sync_hatch_at :
      List (ℕ × SysfsHatch)
      → ℕ
      → HatchAdapter C rounds serialize
      → Outcome (HatchAdapter C rounds serialize)
  sync_hatch_at = sync_at (sync_hatch C rounds serialize config)

  -- Event ids are distinct, the handler of hatch events, subscribed as at the start, holds no adapter for
  -- the hatch, and one can be created: on the event that the hatch was created and the polls that
  -- follow, at each of which it is in the inventory and its state can be read, the states at which
  -- the hash differs from the last one that the poller remembers are shown in order by the hatch's
  -- adapter, each before the next poll, and no other. If that returns, the adapter is held behind the
  -- others, which stay as they are, its run loop is started, and the bus is as it was.
  pub hatch_life :
      (h : Handler (HatchAdapter C rounds serialize)) (id : ℕ) (a : HatchAdapter C rounds serialize)
      (devices : List (ℕ × SysfsHatch)) (readings : List (List (ℕ × SysfsHatch)))
      (ss : List HatchState) (p : Poller ℕ)
      → AreDistinct ids
      → All (λ x. is_device id x ≡ false) h.devices
      → create id ≡ done (some a)
      → p.device_id ≡ id
      → Reads status id readings ss
      → after
          (send hatches ids create moved
            (sync_hatch_at devices)
            created
            id
            (record { bus = home_assistant_init ids []; handler = h }))
          (λ t.
            poll_rounds hatches ids create moved
              (hatch_current status hash)
              differs
              sync_hatch_at
              readings
              (p, t))
        ≡ after (shown_changes hash differs (shown C rounds serialize) p.cached ss a) (λ b. done (
          seen hash differs ss p,
          record {
            bus = home_assistant_init ids [];
            handler = record {
              devices = h.devices ++ record { device_id = id; adapter = b } ∷ [];
              running = h.running ++ id ∷ [];
            };
          },
        ))
  unfolding hatch_current
  hatch_life =
      device_life hatches ids create moved status hash (hatch_current status hash) differs
        (sync_hatch C rounds serialize config) (shown C rounds serialize)
        (λ hatch s known. simp (hatch_current, known) refl)
        (λ hatch s a known. sync_hatch-shown C rounds serialize config hatch s a known)
