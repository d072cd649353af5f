-- ===== src/App/Serving.antt =====
-- The event handlers at work on the coroutines that the bus has spawned: what src/app/home_assistant.cpp
-- sets up, once the loop of the executor in src/app/main.cpp runs. The coroutines run one after
-- another, each to its end, and an exception of one, which `rethrow` passes on, leaves the loop.
pub mod Laws
use hhctrl_mgmt.Base.{ℕ, Option, none, List, [], ◌∷◌, String, ◌==◌, if◌then◌else◌}
use hhctrl_mgmt.Base.Outcome.{Outcome, done, after}
use hhctrl_mgmt.Bus.Events.{whole, moved_from, Event, Spawned}
use hhctrl_mgmt.Platform.{System, DeviceType, board_type, hatch_type, temp_sensor_type}
use hhctrl_mgmt.Board.{IndicatorType}
use hhctrl_mgmt.Device.Registry.{get}
use hhctrl_mgmt.Adapter.Lifecycle.{EntityOps}
use hhctrl_mgmt.Adapter.Identity.{identity}
use hhctrl_mgmt.Adapter.MainBoard.{BoardAdapter, board_create}
use hhctrl_mgmt.Adapter.Handlers.{
  Handler, hatch_created, hatch_removed, hatch_state_changed, sensor_created, sensor_removed,
  sensor_state_changed, board_created, board_state_changed,
}
use hhctrl_mgmt.App.HomeAssistant.{EventType, created, removed, handler_of}

-- The three handlers, with the adapters that they hold.
pub record EventHandlers (B H S : Type 0) : Type 0 where
  pub board : Option B
  pub hatches : Handler H
  pub temp_sensors : Handler S

-- The adapters: their `async_create` and `async_sync_state` for a device, on the program's tables, and
-- what a call of a handler does that was moved from.
pub record Adapters : Type 1 where
  pub Board : Type 0
  pub Hatch : Type 0
  pub Sensor : Type 0
  pub create_board : System → ℕ → Outcome (Option Board)
  pub create_hatch : System → ℕ → Outcome (Option Hatch)
  pub create_sensor : System → ℕ → Outcome (Option Sensor)
  pub sync_board : System → ℕ → Board → Outcome Board
  pub sync_hatch : System → ℕ → Hatch → Outcome Hatch
  pub sync_sensor : System → ℕ → Sensor → Outcome Sensor
  pub call_moved : ℕ → EventHandlers Board Hatch Sensor → Outcome (EventHandlers Board Hatch Sensor)

-- `MainBoard::async_create`, on the program's tables; the other parameters are those of `board_create`.
module _ (I : EntityOps) (create_sensor : String → I.State)
    (state : IndicatorType → Outcome I.EntityState) (B : EntityOps)
    (create_button : String → B.State) (format : ℕ → String) where
  unfoldable pub create_main_board :
      System → ℕ → Outcome (Option (BoardAdapter I create_sensor state B create_button format))
  unfolding identity board_create
  create_main_board s device_id = after (identity s.hw_identity_store s.dtree device_id) λ i.
      after (get device_id s.boards)
        λ board. board_create I create_sensor state B create_button format device_id i board s.files

module _ (A : Adapters) where
  abbrev pub Served : Type 0
  Served = EventHandlers A.Board A.Hatch A.Sensor

  -- As the handlers are when they are made.
  abbrev pub idle : Served
  idle = record {
    board = none;
    hatches = record { devices = []; running = [] };
    temp_sensors = record { devices = []; running = [] };
  }

module _ (A : Adapters) (ids : EventType → DeviceType → ℕ) (s : System) where
  unfoldable pub board_event : Event → Served A → Outcome (Served A)
  unfolding board_created board_state_changed
  board_event e h =
      if e.event_id == ids created board_type
      then after (board_created (A.create_board s) e.device_id h.board)
          (λ b. done (record h { board = b }))
      else if e.event_id == ids removed board_type
      then done h
      else after (board_state_changed (A.sync_board s e.device_id) h.board)
          (λ b. done (record h { board = b }))

  unfoldable pub hatch_event : Event → Served A → Outcome (Served A)
  hatch_event e h =
      let run = λ (o : Outcome (Handler A.Hatch)). after o (λ d. done (record h { hatches = d })) in
      if e.event_id == ids created hatch_type
      then run (hatch_created (A.create_hatch s) e.device_id h.hatches)
      else if e.event_id == ids removed hatch_type
      then run (hatch_removed e.device_id h.hatches)
      else run (hatch_state_changed (A.sync_hatch s e.device_id) e.device_id h.hatches)

  unfoldable pub sensor_event : Event → Served A → Outcome (Served A)
  sensor_event e h =
      let run =
        λ (o : Outcome (Handler A.Sensor)). after o (λ d. done (record h { temp_sensors = d })) in
      if e.event_id == ids created temp_sensor_type
      then run (sensor_created (A.create_sensor s) e.device_id h.temp_sensors)
      else if e.event_id == ids removed temp_sensor_type
      then run (sensor_removed e.device_id h.temp_sensors)
      else run (sensor_state_changed (A.sync_sensor s e.device_id) e.device_id h.temp_sensors)

  unfoldable pub call : Spawned → Served A → Outcome (Served A)
  unfolding board_event hatch_event sensor_event
  call c h = elim c.handler [
    | moved_from k ↦ A.call_moved k h
    | whole k ↦
        if k == handler_of board_type
        then board_event c.event h
        else if k == handler_of hatch_type
        then hatch_event c.event h
        else sensor_event c.event h
  ]

  unfoldable pub serve : List Spawned → Served A → Outcome (Served A)
  unfolding call
  serve [] h = done h
  serve (c ∷ cs) h = after (call c h) (serve cs)
