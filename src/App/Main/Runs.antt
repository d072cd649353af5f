-- ===== src/App/Main/Runs.antt =====
-- What `main` does on the files that it is given.
use hhctrl_mgmt.Base.{
  ℕ, ◌≡◌, refl, Bool, Option, none, List, String, if◌then◌else◌, Bool-cases, inl, inr,
}
use hhctrl_mgmt.Base.Outcome.{Outcome, done, thrown, stuck}
use hhctrl_mgmt.Utils.Streams.{StreamParser, open_file}
use hhctrl_mgmt.Utils.Streams.Laws.{read_json-unopened}
use hhctrl_mgmt.Board.Leds.{Files}
use hhctrl_mgmt.Board.Hardware.{HardwareIdentity}
use hhctrl_mgmt.Platform.{DeviceType}
use hhctrl_mgmt.Platform.Pdtree.{PdTreeValue, as_array, pdtree_load}
use hhctrl_mgmt.Platform.Builder.{PlatformBuilder}
use hhctrl_mgmt.Platform.Discovery.{setup}
use hhctrl_mgmt.App.Config.{AppConfig, load_config}
use hhctrl_mgmt.App.HomeAssistant.{EventType}
use hhctrl_mgmt.App.MainBoardInit.{main_board_init}
use hhctrl_mgmt.App.Logger.{Logging}
use hhctrl_mgmt.App.Logger.Laws.{CanLog, mgmt-found}
use hhctrl_mgmt.App.Serving.{Adapters}
use hhctrl_mgmt.App.Main.{Exit, aborted, run, main}

module _ (P : StreamParser PdTreeValue) (fuel : ℕ) (exists : String → Bool)
    (content : String → Option (List ℕ)) (ids : EventType → DeviceType → ℕ) (leds : Files)
    (extract : String → Option String) (led_at : String → Option ℕ)
    (null_call : PlatformBuilder → Outcome (Bool × PlatformBuilder)) (hw : HardwareIdentity)
    (logging : Logging) (A : Adapters) (null_info : Outcome (Exit A)) (path : String)
    (config : AppConfig) (can_log : CanLog logging config.log_dir) where
  -- Where the loggers can be started and the configuration can be read, and the file of the platform's
  -- description that it names cannot be opened: `main` aborts if there is no such file, and never
  -- ends, whatever the fuel, if there is one.
  pub main-unopened :
      load_config P fuel (open_file (content path)) ≡ done config
      → content config.dtree_file ≡ none
      → main P fuel exists content ids leds extract led_at null_call hw logging A null_info 2 path
        ≡ (if exists config.dtree_file then stuck else done aborted)
  unfolding main run main_board_init pdtree_load
  main-unopened c e =
      let (r, log, logs, mgmt) = mgmt-found logging config.log_dir can_log in
      elim (Bool-cases (exists config.dtree_file)) [
        | inl found ↦
            simp
              (
                main,
                run,
                main_board_init,
                pdtree_load,
                c,
                logs,
                mgmt,
                e,
                found,
                read_json-unopened P fuel,
              )
              refl
        | inr missing ↦ simp (main, run, main_board_init, c, logs, mgmt, missing) refl
      ]

  -- Where the loggers can be started and the configuration can be read, and the file that it names has
  -- no JSON array in it, `main` aborts.
  pub main-malformed :
      (val : PdTreeValue)
      → load_config P fuel (open_file (content path)) ≡ done config
      → pdtree_load P fuel (open_file (content config.dtree_file)) ≡ done val
      → as_array val ≡ thrown
      → main P fuel exists content ids leds extract led_at null_call hw logging A null_info 2 path
        ≡ done aborted
  unfolding main run main_board_init setup
  main-malformed val c e a =
      let (r, log, logs, mgmt) = mgmt-found logging config.log_dir can_log in
      elim (Bool-cases (exists config.dtree_file)) [
        | inl found ↦ simp (main, run, main_board_init, c, logs, mgmt, e, found, a) refl
        | inr missing ↦ simp (main, run, main_board_init, c, logs, mgmt, missing) refl
      ]
