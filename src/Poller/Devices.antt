-- ===== src/Poller/Devices.antt =====
-- `HatchPoller`, `TempSensorPoller` and `MainBoardPoller` of src/poller/include/poller. They differ in
-- what they read of a device and remember of it: a hash of its state, or its temperature. The hashes
-- of the standard library and of boost and the comparison of floating-point numbers are parameters.
pub mod Changes
use hhctrl_mgmt.Base.{
  ℕ, ◌≡◌, Bool, true, false, not, Option, none, some, List, [], ◌∷◌, ◌++◌, if◌then◌else◌,
}
use hhctrl_mgmt.Base.Outcome.{Outcome, done, thrown, M, after}
use hhctrl_mgmt.Board.Leds.{Files}
use hhctrl_mgmt.Device.Registry.{get}
use hhctrl_mgmt.Board.{
  IndicatorState, IndicatorType, Indicator, indicator_state, fault, maintenance, warning, status,
}

-- A poller of one device, and the device ids of the events that it has given to the bus, in order.
pub record Poller (K : Type 0) : Type 0 where
  pub device_id : ℕ
  pub cached : K
  pub published : List ℕ

unfoldable pub update : {K : Type 0} → K → Poller K → Poller K
update new_value p = record p { cached = new_value; published = p.published ++ (p.device_id ∷ []) }

-- `operator()`, on the inventory of its device type. `differs` is the `!=` of what it remembers.
unfoldable pub poll :
    {D K : Type 0} → (D → Outcome K) → (K → K → Bool) → List (ℕ × D) → Poller K → Outcome (Poller K)
unfolding get update
poll current differs devices p = after (get p.device_id devices) λ device.
    after (current device) λ value. done (if differs value p.cached then update value p else p)

-- The `current_hash` of the hatch's poller, from the hatch's `status`.
unfoldable pub hatch_current : {D S : Type 0} → (D → Outcome S) → (S → ℕ) → D → Outcome ℕ
hatch_current hatch_status hash hatch = after (hatch_status hatch) (λ s. done (hash s))

-- The `current_temp` of the sensor's poller, from the sensor's `value`.
unfoldable pub temp_current : {D V : Type 0} → (D → Outcome V) → D → Outcome V
temp_current sensor_value sensor = sensor_value sensor

-- The `current_hash` of the main board's poller, on the LED attributes as they are.
unfoldable pub board_current : (ℕ → IndicatorState → ℕ) → Files → List Indicator → Outcome ℕ
unfolding indicator_state
board_current hash_combine files board = after (indicator_state fault board files) λ f.
    after (indicator_state maintenance board f.1) λ m.
      after (indicator_state warning board m.1) λ w.
        after (indicator_state status board w.1)
          λ s. done (hash_combine (hash_combine (hash_combine (hash_combine 0 f.0) m.0) w.0) s.0)

-- One poll after another, on the inventory as it is at each.
abbrev pub poll_all :
    {D K : Type 0}
    → (D → Outcome K)
    → (K → K → Bool)
    → List (List (ℕ × D))
    → Poller K
    → Outcome (Poller K)
poll_all current differs [] p = done p
poll_all current differs (devices ∷ later) p =
    after (poll current differs devices p) (poll_all current differs later)
