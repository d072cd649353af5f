-- ===== src/App/Main.antt =====
-- src/app/main.cpp. The loop of the executor runs what the start has spawned; what the pollers find later
-- comes after it, and the run loops of the entities go on for ever.
pub mod Laws
pub mod Start
pub mod Runs
pub mod Dark
use hhctrl_mgmt.Base.{ℕ, Bool, not, Option, none, some, List, [], String, ◌==◌, if◌then◌else◌}
use hhctrl_mgmt.Base.Outcome.{Outcome, done, thrown, stuck, after}
use hhctrl_mgmt.Utils.Streams.{Stream, StreamParser, open_file}
use hhctrl_mgmt.Board.Leds.{Files}
use hhctrl_mgmt.Board.Hardware.{HardwareIdentity}
use hhctrl_mgmt.Platform.{System}
use hhctrl_mgmt.Platform.Pdtree.{PdTreeValue, pdtree_load}
use hhctrl_mgmt.Platform.Builder.{PlatformBuilder}
use hhctrl_mgmt.Platform.{DeviceType}
use hhctrl_mgmt.App.Logger.{Logging, start_loggers}
use hhctrl_mgmt.App.Config.{AppConfig, load_config}
use hhctrl_mgmt.App.HomeAssistant.{EventType, created, home_assistant_init}
use hhctrl_mgmt.App.MainBoardInit.{main_board_init}
use hhctrl_mgmt.App.Serving.{Adapters, Served, idle, serve}

-- `main` returns `EXIT_FAILURE`, calls `std::abort`, or is still in the loop of the executor when the
-- coroutines of the start have run: then with this system, and with the handlers as they are.
pub data Exit (A : Adapters) : Type 0 where
  failure aborted : Exit A
  running : AppConfig → System → Served A → Exit A

-- The inventories and services as they start: the first id is 1.
abbrev pub initial : Files → (EventType → DeviceType → ℕ) → System
initial leds ids = record {
  counter = 1;
  boards = [];
  hatches = [];
  temp_sensors = [];
  dtree = [];
  hw_identity_store = [];
  polling_service = record { pollers = []; started = [] };
  bus = home_assistant_init ids [];
  spawned = [];
  files = leds;
}

-- The program's own message at the start goes to the logger "mgmt"; `null_info` is what the call does
-- on a null pointer, where there is none. What the machine gives: the files by their paths, the LEDs'
-- attributes, and what `setup` reads with. Each file that is read gets the same fuel. `A` are the
-- adapters that the handlers make.
module _ (P : StreamParser PdTreeValue) (fuel : ℕ) (exists : String → Bool)
    (content : String → Option (List ℕ)) (ids : EventType → DeviceType → ℕ) (leds : Files)
    (extract : String → Option String) (led_at : String → Option ℕ)
    (null_call : PlatformBuilder → Outcome (Bool × PlatformBuilder))
    (hardware_identity : HardwareIdentity) (logging : Logging) (A : Adapters)
    (null_info : Outcome (Exit A)) where
  -- The body of the `try` block, from the configuration on.
  unfoldable pub run : String → Outcome (Exit A)
  run config_path = after (load_config P fuel (open_file (content config_path))) λ config.
      after (start_loggers logging config.log_dir) λ loggers.
        elim (logging.spdlog.get "mgmt" loggers.1) [
          | none ↦ null_info
          | some log ↦
              after
                (main_board_init exists (ids created)
                  (λ path. pdtree_load P fuel (open_file (content path))) extract led_at null_call
                  hardware_identity config.dtree_file (initial leds ids))
                λ r.
                  after (serve A ids r.1 r.1.spawned (idle A))
                    λ handlers. done (running config r.1 handlers)
        ]

  unfoldable pub main : ℕ → String → Outcome (Exit A)
  main argc argument =
      if not (argc == 2)
      then done failure
      else elim (run argument) [ done exit ↦ done exit | thrown ↦ done aborted | stuck ↦ stuck ]
