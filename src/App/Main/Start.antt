-- ===== src/App/Main/Start.antt =====
-- What `main` does up to the loop of the executor.
use hhctrl_mgmt.Base.{
  ℕ, ◌+◌, ◌^◌, ◌<◌, ◌≡◌, refl, Bool, true, Option, List, [], ◌∷◌, String, All, length,
}
use hhctrl_mgmt.Base.Outcome.{Outcome, done, after}
use hhctrl_mgmt.Utils.Streams.{StreamParser, open_file}
use hhctrl_mgmt.Board.{main_board}
use hhctrl_mgmt.Board.Leds.{Files}
use hhctrl_mgmt.Board.Hardware.{HardwareIdentity}
use hhctrl_mgmt.Platform.{System, DeviceType}
use hhctrl_mgmt.Platform.Pdtree.{PdTreeValue, array, end_array, pdtree_load}
use hhctrl_mgmt.Platform.Builder.{PlatformBuilder, empty_builder}
use hhctrl_mgmt.Platform.Loading.{path_of}
use hhctrl_mgmt.Platform.Discovery.Entries.{
  Entry, describe, indicators_of, loaders_of, with_entries,
}
use hhctrl_mgmt.Platform.Discovery.Laws.{IsReadable, setup-describe}
use hhctrl_mgmt.App.Config.{AppConfig, load_config}
use hhctrl_mgmt.App.HomeAssistant.{EventType, created}
use hhctrl_mgmt.App.HomeAssistant.Laws.{AreDistinct}
use hhctrl_mgmt.App.MainBoardInit.{main_board_init}
use hhctrl_mgmt.App.MainBoardInit.Laws.{IsBoarded, announced}
use hhctrl_mgmt.App.Logger.{Logging}
use hhctrl_mgmt.App.Logger.Laws.{CanLog, mgmt-found}
use hhctrl_mgmt.Platform.{board_type}
use hhctrl_mgmt.App.Serving.{Adapters, idle, serve}
use hhctrl_mgmt.App.Serving.Laws.{creation}
use hhctrl_mgmt.App.Main.{Exit, running, run}
use hhctrl_mgmt.App.Main.Laws.{init_devices-IsBoarded}

module _ (P : StreamParser PdTreeValue) (fuel : ℕ) (exists : String → Bool)
    (content : String → Option (List ℕ)) (ids : EventType → DeviceType → ℕ) (leds : Files)
    (extract : String → Option String) (led_at : String → Option ℕ)
    (null_call : PlatformBuilder → Outcome (Bool × PlatformBuilder)) (hw : HardwareIdentity)
    (logging : Logging) (A : Adapters) (null_info : Outcome (Exit A)) (path : String)
    (config : AppConfig) (can_log : CanLog logging config.log_dir) where
  -- The start, up to the loop of the executor.
  pub started :
      (es : List Entry) (leds' : Files)
      → load_config P fuel (open_file (content path)) ≡ done config
      → exists config.dtree_file ≡ true
      → pdtree_load P fuel (open_file (content config.dtree_file))
        ≡ done (array (describe es end_array))
      → All (IsReadable extract led_at null_call) es
      → AreDistinct ids
      → main_board (indicators_of es) leds ≡ done (indicators_of es, leds')
      → All (λ l. exists (path_of l) ≡ true) (loaders_of es)
      → 2 + length (loaders_of es) < 2 ^ 32
      → (s : System) × (run P fuel exists content ids leds extract led_at null_call hw logging A
            null_info path
          ≡ after
              (serve A ids s
                (creation ids board_type 1 ∷ announced (ids created) 2 (loaders_of es))
                (idle A))
              (λ handlers. done (running config s handlers)))
        × IsBoarded 1 hw s
        × (s.counter ≡ 2 + length (loaders_of es))
        × (s.boards ≡ (1, indicators_of es) ∷ [])
  unfolding run main_board_init
  started es leds' c e t readable d lit paths h =
      let (r, log, logs, mgmt) = mgmt-found logging config.log_dir can_log in
      let (s, begun, boarded, counted, heard, boards) =
        init_devices-IsBoarded ids leds exists hw (with_entries es empty_builder) leds' d lit paths
          h in
      (
        s,
        simp
            (
              run,
              main_board_init,
              c,
              logs,
              mgmt,
              e,
              t,
              setup-describe extract led_at null_call es empty_builder readable,
              begun,
              heard,
            )
            refl,
        boarded,
        counted,
        boards,
      )
