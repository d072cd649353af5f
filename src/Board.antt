-- ===== src/Board.antt =====
-- The main board and its indicators: src/device (indicator.hpp, led_indicator.hpp,
-- rgb_indicator.cpp, indicator_t.hpp) and src/main_board (main_board.cpp, sysfs_led.cpp,
-- sysfs_rgbled.cpp). A LED is the path of its `brightness` attribute, a number here; the attributes
-- are the shared state, so that indicators on one LED alias. Reading or writing an attribute that
-- does not exist throws, and an attribute gives back the number that was written last.
pub mod Leds
pub mod Exclusive
pub mod Hardware
pub mod Sensors
use hhctrl_mgmt.Base.{
  ℕ, ◌≡◌, refl, Bool, true, false, ◌&&◌, Option, none, some, List, [], ◌∷◌, ◌==◌, if◌then◌else◌,
  find_if,
}
use hhctrl_mgmt.Base.Outcome.{Outcome, done, thrown, M, ◌>>=◌, ◌>>◌, pure, throw, after}
use hhctrl_mgmt.Utils.StaticMap.{at_key}
use Leds.{Files, Rgb, brightness, set_brightness, rgb_brightness, set_rgb_brightness}

pub data IndicatorState : Type 0 where
  not_available off on blinking : IndicatorState

pub data IndicatorType : Type 0 where
  status warning fault maintenance : IndicatorType

-- The enumerator's underlying value.
abbrev pub type_code : IndicatorType → ℕ
type_code status = 0
type_code warning = 1
type_code fault = 2
type_code maintenance = 3

abbrev pub type_eq : IndicatorType → IndicatorType → Bool
type_eq a b = type_code a == type_code b

-- `IndicatorMapping`.
abbrev pub indicator_mapping : List (IndicatorType × Rgb)
indicator_mapping =
    (status, record { red = 0; green = 255; blue = 0 })
    ∷ (warning, record { red = 255; green = 255; blue = 0 })
    ∷ (maintenance, record { red = 0; green = 0; blue = 255 })
    ∷ (fault, record { red = 255; green = 0; blue = 0 })
    ∷ []

-- The `std::variant` of `IndicatorProxy`: an indicator on one LED, or on the three of an RGB LED.
pub data Indicator : Type 0 where
  led_indicator : IndicatorType → ℕ → Indicator
  rgb_indicator : IndicatorType → ℕ → ℕ → ℕ → Indicator

abbrev pub type_of : Indicator → IndicatorType
type_of (led_indicator t led) = t
type_of (rgb_indicator t r g b) = t

-- `RGBIndicator::state`.
unfoldable pub rgb_state : IndicatorType → ℕ → ℕ → ℕ → M Files IndicatorState
unfolding at_key rgb_brightness
rgb_state t r g b = do
  value ← rgb_brightness r g b
  config ← λ fs. after (at_key type_eq t indicator_mapping) (λ c. done (c, fs))
  pure (
      if config.red == value.red && config.green == value.green && config.blue == value.blue
      then on
      else off)

-- `RGBIndicator::set_state`.
unfoldable pub rgb_set_state : IndicatorType → ℕ → ℕ → ℕ → IndicatorState → M Files (Unit {0})
unfolding at_key set_rgb_brightness
rgb_set_state t r g b state = do
  config ← λ fs. after (at_key type_eq t indicator_mapping) (λ c. done (c, fs))
  elim state [
    | on ↦ set_rgb_brightness r g b config
    | off ↦ set_rgb_brightness r g b (record { red = 0; green = 0; blue = 0 })
    | not_available ↦ pure tt
    | blinking ↦ pure tt
  ]

-- `LedIndicator::set_state`.
unfoldable pub led_set_state : ℕ → IndicatorState → M Files (Unit {0})
unfolding set_brightness
led_set_state led off = set_brightness led 0
led_set_state led on = set_brightness led 255
led_set_state led blinking = pure tt
led_set_state led not_available = pure tt

-- `LedIndicator::state` is not implemented and gives `not_available`.
unfoldable pub state_of : Indicator → M Files IndicatorState
unfolding rgb_state
state_of (led_indicator t led) = pure not_available
state_of (rgb_indicator t r g b) = rgb_state t r g b

unfoldable pub set_state : Indicator → IndicatorState → M Files (Unit {0})
unfolding rgb_set_state led_set_state
set_state (led_indicator t led) s = led_set_state led s
set_state (rgb_indicator t r g b) s = rgb_set_state t r g b s

abbrev pub find_indicator : IndicatorType → List Indicator → Option Indicator
find_indicator t = find_if (λ i. type_eq (type_of i) t)

unfoldable pub indicator_state : IndicatorType → List Indicator → M Files IndicatorState
unfolding state_of
indicator_state t indicators = elim (find_indicator t indicators) [
  | none ↦ pure not_available
  | some i ↦ state_of i
]

unfoldable pub set_indicator_state :
    IndicatorType → IndicatorState → List Indicator → M Files (Unit {0})
unfolding set_state
set_indicator_state t s indicators = elim (find_indicator t indicators) [
  | none ↦ pure tt
  | some i ↦ set_state i s
]

-- The constructor: a board is its list of indicators.
unfoldable pub main_board : List Indicator → M Files (List Indicator)
unfolding set_indicator_state
main_board indicators = do
  set_indicator_state status off indicators
  set_indicator_state status on indicators
  pure indicators

-- What `RGBIndicatorProvider::load` gives the builder for one RGB LED.
abbrev pub rgb_indicators : ℕ → ℕ → ℕ → List Indicator
rgb_indicators r g b =
    rgb_indicator fault r g b
    ∷ rgb_indicator maintenance r g b
    ∷ rgb_indicator status r g b
    ∷ rgb_indicator warning r g b
    ∷ []
