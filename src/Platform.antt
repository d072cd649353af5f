-- ===== src/Platform.antt =====
-- src/main_board/include/main_board/platform and src/main_board/pdtree.cpp: the devices that the
-- platform's description names, and how they are loaded. The program's state that loading changes:
-- the inventories, the device tree, the pollers, the identities, the event bus and the LED attributes.
pub mod Pdtree
pub mod Builder
pub mod Providers
pub mod Discovery
pub mod Loading
use hhctrl_mgmt.Base.{ℕ, List, ◌++◌, String}
use hhctrl_mgmt.Base.Outcome.{Outcome, done, M, after}
use hhctrl_mgmt.Board.{Indicator, main_board}
use hhctrl_mgmt.Board.Leds.{Files}
use hhctrl_mgmt.Device.Tree.{Node, add_child}
use hhctrl_mgmt.Device.Registry.{register_device}
use hhctrl_mgmt.Poller.Service.{PollingService, add_poller}
use hhctrl_mgmt.Board.Hardware.{HardwareIdentity}
use hhctrl_mgmt.Bus.Events.{Bus, Event, Spawned, publish}

-- `TempSensor_t`: a sensor of one of two types, with its directory.
pub data TempSensor : Type 0 where
  ds18b20 cpu_temp_sensor : String → TempSensor

-- The device types that events are about.
pub data DeviceType : Type 0 where
  board_type hatch_type temp_sensor_type : DeviceType

-- `spawned` are the coroutines that the bus has spawned, in order. A hatch is its directory.
pub record System : Type 0 where
  pub counter : ℕ
  pub boards : List (ℕ × List Indicator)
  pub hatches : List (ℕ × String)
  pub temp_sensors : List (ℕ × TempSensor)
  pub dtree : List Node
  pub hw_identity_store : List (ℕ × HardwareIdentity)
  pub polling_service : PollingService
  pub bus : Bus
  pub spawned : List Spawned
  pub files : Files

unfoldable pub register_board : List Indicator → M System ℕ
unfolding register_device main_board
register_board indicators s = after (main_board indicators s.files) λ b.
    after (register_device b.0 s.counter s.boards)
      λ r. done (r.0, record s { boards = r.1; counter = r.2; files = b.1 })

unfoldable pub register_hatch : String → M System ℕ
unfolding register_device
register_hatch hatch s =
    after (register_device hatch s.counter s.hatches)
      λ r. done (r.0, record s { hatches = r.1; counter = r.2 })

unfoldable pub register_temp_sensor : TempSensor → M System ℕ
unfolding register_device
register_temp_sensor sensor s =
    after (register_device sensor s.counter s.temp_sensors)
      λ r. done (r.0, record s { temp_sensors = r.1; counter = r.2 })

-- The interval is in milliseconds.
unfoldable pub poll_device : ℕ → ℕ → M System (Unit {0})
unfolding add_poller
poll_device device_id interval s =
    after (add_poller device_id interval s.polling_service)
      λ service. done (tt, record s { polling_service = service })

unfoldable pub publish_event : Event → M System (Unit {0})
publish_event event s =
    after (publish event s.bus) λ r. done (tt, record s { bus = r.0; spawned = s.spawned ++ r.1 })
