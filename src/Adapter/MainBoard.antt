-- ===== src/Adapter/MainBoard.antt =====
-- The main board in Home Assistant: src/home_assistant_adapter/device/main_board.cpp. Each indicator is
-- a binary sensor of its own, and the restart a button.
pub mod Indicators
pub mod Running
use Prim.Native.String.{◌++◌}
use hhctrl_mgmt.Base.{
  ℕ, Bool, true, false, Option, none, some, List, [], ◌∷◌, String, if◌then◌else◌,
}
use hhctrl_mgmt.Base.Outcome.{Outcome, done, thrown, after}
use hhctrl_mgmt.Mqtt.Config.{Config, Json, text, set}
use hhctrl_mgmt.Mqtt.BinarySensor.{BinarySensorState, off as off_state, on as on_state}
use hhctrl_mgmt.Board.{
  IndicatorState, not_available, on, off, blinking, IndicatorType, fault, status, warning,
  maintenance, type_code, Indicator, indicator_state,
}
use hhctrl_mgmt.Board.Leds.{Files}
use hhctrl_mgmt.Adapter.Lifecycle.{EntityOps, Adapter, Impl}
use hhctrl_mgmt.Adapter.Identity.{DeviceIdentity, get_unique_id}
use hhctrl_mgmt.Adapter.Hatch.{basic_device}
use hhctrl_mgmt.Adapter.Creation.{create_adapter}

-- `to_string` of an indicator's type.
abbrev pub type_text : IndicatorType → String
type_text status = "Status"
type_text warning = "Warning"
type_text fault = "Fault"
type_text maintenance = "Maintenance"

-- `Indicator::config`.
unfoldable pub indicator_config : IndicatorType → DeviceIdentity → Config
unfolding set
indicator_config t i =
    set "device" (basic_device i) (set "name" (text (type_text t ++ " Indicator")) [])

abbrev pub binary_state : IndicatorState → BinarySensorState
binary_state on = on_state
binary_state _ = off_state

-- `Indicator::state`, with the LED attributes as they are.
unfoldable pub indicator_binary_state :
    IndicatorType → List Indicator → Files → Outcome BinarySensorState
unfolding indicator_state
indicator_binary_state t board files =
    after (indicator_state t board files) (λ r. done (binary_state r.0))

-- `RestartButton::config`.
unfoldable pub restart_config : DeviceIdentity → Config
unfolding set
restart_config i =
    set "device" (basic_device i)
      (set "device_class" (text "restart") (set "name" (text "Restart board") []))

abbrev is_not_available : IndicatorState → Bool
is_not_available not_available = true
is_not_available _ = false

-- `I` are the operations of a binary sensor, and `state` that of each type when it is synchronised; `B`
-- are those of a button.
module _ (I : EntityOps) (create_sensor : String → I.State)
    (state : IndicatorType → Outcome (I.EntityState)) (B : EntityOps)
    (create_button : String → B.State) (format : ℕ → String) where
  -- `Indicator::async_create`.
  unfoldable pub indicator_create :
      ℕ → DeviceIdentity → List Indicator → Files → IndicatorType → Outcome (Option (Adapter I))
  unfolding indicator_state create_adapter indicator_config get_unique_id
  indicator_create device_id i board files t = after (indicator_state t board files) λ current.
      if is_not_available current.0
      then done none
      else create_adapter I create_sensor
          (record { config = indicator_config t i; state = some (state t) })
          (get_unique_id format device_id i ++ "_i_" ++ format (type_code t))

  -- `RestartButton::async_create`.
  unfoldable pub restart_create : ℕ → DeviceIdentity → Outcome (Option (Adapter B))
  unfolding create_adapter restart_config get_unique_id
  restart_create device_id i =
      create_adapter B create_button (record { config = restart_config i; state = none })
        (get_unique_id format device_id i ++ "_restart_btn")

  pub record BoardAdapter : Type 0 where
    pub indicators : List (IndicatorType × Adapter I)
    pub restart_button : Adapter B

  abbrev all_four :
      Option (Adapter I)
      → Option (Adapter I)
      → Option (Adapter I)
      → Option (Adapter I)
      → Option (List (IndicatorType × Adapter I))
  all_four (some f) (some s) (some w) (some m) =
      some ((fault, f) ∷ (status, s) ∷ (warning, w) ∷ (maintenance, m) ∷ [])
  all_four _ _ _ _ = none

  -- `MainBoard::async_create`, with the identity of its device. The LED attributes are as they were
  -- at the start of the call.
  unfoldable pub board_create :
      ℕ → DeviceIdentity → List Indicator → Files → Outcome (Option BoardAdapter)
  unfolding indicator_create restart_create
  board_create device_id i board files = after (indicator_create device_id i board files fault) λ f.
      after (indicator_create device_id i board files status) λ s.
        after (indicator_create device_id i board files warning) λ w.
          after (indicator_create device_id i board files maintenance) λ m.
            elim (all_four f s w m) [
              | none ↦ done none
              | some indicators ↦ after (restart_create device_id i) λ button. elim button [
                | none ↦ done none
                | some b ↦ done (some (record { indicators = indicators; restart_button = b }))
              ]
            ]
