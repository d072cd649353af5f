-- ===== src/App/HomeAssistant.antt =====
-- src/app/home_assistant.cpp: the event handlers and what they subscribe to. The three handlers are
-- static objects, which the bus refers to; a handler is the device type that it handles.
pub mod Laws
use hhctrl_mgmt.Base.{ℕ, List, [], ◌∷◌, true}
use hhctrl_mgmt.Bus.Events.{Bus, subscribe}
use hhctrl_mgmt.Platform.{DeviceType, board_type, hatch_type, temp_sensor_type}

-- `DeviceCreated`, `DeviceRemoved` and `DeviceStateChanged`.
pub data EventType : Type 0 where
  created removed state_changed : EventType

abbrev pub handler_of : DeviceType → ℕ
handler_of board_type = 0
handler_of hatch_type = 1
handler_of temp_sensor_type = 2

-- `ids` are the event ids of `EventIdGenerator`.
unfoldable pub home_assistant_init : (EventType → DeviceType → ℕ) → Bus → Bus
home_assistant_init ids bus =
    let main_board = handler_of board_type in
    let b₁ = subscribe (ids created board_type) true main_board bus in
    let b₂ = subscribe (ids removed board_type) true main_board b₁ in
    let b₃ = subscribe (ids state_changed board_type) true main_board b₂ in
    let hatch = handler_of hatch_type in
    let b₄ = subscribe (ids created hatch_type) true hatch b₃ in
    let b₅ = subscribe (ids removed hatch_type) true hatch b₄ in
    let b₆ = subscribe (ids state_changed hatch_type) true hatch b₅ in
    let temp_sensor = handler_of temp_sensor_type in
    let b₇ = subscribe (ids created temp_sensor_type) true temp_sensor b₆ in
    let b₈ = subscribe (ids removed temp_sensor_type) true temp_sensor b₇ in
    subscribe (ids state_changed temp_sensor_type) true temp_sensor b₈
