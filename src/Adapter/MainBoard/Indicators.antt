-- ===== src/Adapter/MainBoard/Indicators.antt =====
-- What a board's indicators become in Home Assistant.
use hhctrl_mgmt.Base.{
  ℕ, ◌≡◌, refl, Bool, true, false, none, some, List, [], ◌∷◌, String, if◌then◌else◌, ◌==◌, All, ap,
  Bool-cases, inl, inr,
}
use hhctrl_mgmt.Base.Outcome.{Outcome, done, thrown}
use hhctrl_mgmt.Mqtt.BinarySensor.{off as off_state, on as on_state}
use hhctrl_mgmt.Board.{
  not_available, on, off, IndicatorType, fault, status, warning, maintenance, type_eq, Indicator,
  led_indicator, rgb_indicator, indicator_state, state_of, set_indicator_state, rgb_indicators,
}
use hhctrl_mgmt.Board.Leds.{Files}
use hhctrl_mgmt.Board.Exclusive.{set_indicator_state_on}
use hhctrl_mgmt.Adapter.Lifecycle.{EntityOps}
use hhctrl_mgmt.Adapter.Identity.{DeviceIdentity}
use hhctrl_mgmt.Adapter.Handlers.{board_created}
use hhctrl_mgmt.Adapter.MainBoard.{
  binary_state, indicator_binary_state, indicator_create, board_create,
}

abbrev pub is_led : Indicator → Bool
is_led (led_indicator t led) = true
is_led (rgb_indicator t r g b) = false

led_unavailable :
    (t : IndicatorType) (board : List Indicator) (files : Files)
    → All (λ i. is_led i ≡ true) board
    → indicator_state t board files ≡ done (not_available, files)
unfolding indicator_state state_of
led_unavailable t [] files leds = refl
led_unavailable t (led_indicator u led ∷ board) files leds = elim (Bool-cases (type_eq u t)) [
  | inl e ↦ simp (indicator_state, e) refl
  | inr e ↦ simp (indicator_state, e) (led_unavailable t board files leds.1)
]
led_unavailable t (rgb_indicator u r g b ∷ board) files leds = cc (leds.0)

module _ (I : EntityOps) (create_sensor : String → I.State)
    (state : IndicatorType → Outcome (I.EntityState)) (B : EntityOps)
    (create_button : String → B.State) (format : ℕ → String) where
  no_indicator :
      (device_id : ℕ) (i : DeviceIdentity) (board : List Indicator) (files : Files)
      (t : IndicatorType)
      → All (λ x. is_led x ≡ true) board
      → indicator_create I create_sensor state B create_button format device_id i board files t
        ≡ done none
  unfolding indicator_create
  no_indicator device_id i board files t leds =
      simp (indicator_create, led_unavailable t board files leds) refl

  pub board_create_leds :
      (device_id : ℕ) (i : DeviceIdentity) (board : List Indicator) (files : Files)
      → All (λ x. is_led x ≡ true) board
      → board_create I create_sensor state B create_button format device_id i board files
        ≡ done none
  unfolding board_create
  board_create_leds device_id i board files leds =
      simp
        (
          board_create,
          no_indicator device_id i board files fault leds,
          no_indicator device_id i board files status leds,
          no_indicator device_id i board files warning leds,
          no_indicator device_id i board files maintenance leds,
        )
        refl

  -- A board whose indicators are all on a single LED, or that has none, is never created: its states
  -- read as not available, so that no indicator is made, and the handler of its event throws.
  pub board_created_leds :
      (device_id : ℕ) (i : DeviceIdentity) (board : List Indicator) (files : Files)
      → All (λ x. is_led x ≡ true) board
      → board_created
          (λ id. board_create I create_sensor state B create_button format id i board files)
          device_id
          none
        ≡ thrown
  unfolding board_created
  board_created_leds device_id i board files leds =
      simp (board_create_leds device_id i board files leds) refl

binary_state-if :
    (c : Bool) → binary_state (if c then on else off) ≡ (if c then on_state else off_state)
binary_state-if true = refl
binary_state-if false = refl

-- On a board with three LEDs of its own, which can be read, switching one indicator on makes its
-- binary sensor's state on, and that of the three others off.
indicator_binary_state_on :
    (r g b : ℕ) (files : Files) (x y z : ℕ) (t u : IndicatorType)
    → files r ≡ some x
    → files g ≡ some y
    → files b ≡ some z
    → (r == g) ≡ false
    → (r == b) ≡ false
    → (g == b) ≡ false
    → (files' : Files) × (set_indicator_state t on (rgb_indicators r g b) files ≡ done (tt, files'))
      × (indicator_binary_state u (rgb_indicators r g b) files'
          ≡ done (if type_eq u t then on_state else off_state))
unfolding indicator_binary_state
indicator_binary_state_on r g b files x y z t u red green blue rg rb gb =
    let (files', set, read) =
      set_indicator_state_on r g b files x y z red green blue rg rb gb t u in
    (files', set, simp (read) (ap done (binary_state-if (type_eq u t))))
