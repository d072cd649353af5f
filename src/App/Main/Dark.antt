-- ===== src/App/Main/Dark.antt =====
-- What `main` does where the platform's description has no RGB LED.
use hhctrl_mgmt.App.Main.Start.{started}
use hhctrl_mgmt.Board.{set_indicator_state}
use hhctrl_mgmt.Base.{
  ℕ, ◌+◌, ◌^◌, ◌<◌, ◌≡◌, refl, ◌∙◌, Bool, true, Option, none, some, List, [], ◌∷◌, String, All,
  length,
}
use hhctrl_mgmt.Base.Outcome.{Outcome, done, thrown, after}
use hhctrl_mgmt.Utils.Streams.{StreamParser, open_file}
use hhctrl_mgmt.Board.{main_board}
use hhctrl_mgmt.Board.Leds.{Files}
use hhctrl_mgmt.Board.Hardware.{HardwareIdentity}
use hhctrl_mgmt.Platform.{System, DeviceType}
use hhctrl_mgmt.Platform.Pdtree.{PdTreeValue, array, end_array, pdtree_load}
use hhctrl_mgmt.Platform.Builder.{PlatformBuilder}
use hhctrl_mgmt.Platform.Loading.{path_of}
use hhctrl_mgmt.Platform.Discovery.Entries.{Entry, describe, indicators_of, loaders_of}
use hhctrl_mgmt.Platform.Discovery.Laws.{IsReadable}
use hhctrl_mgmt.App.Config.{AppConfig, load_config}
use hhctrl_mgmt.App.HomeAssistant.{EventType, created}
use hhctrl_mgmt.App.HomeAssistant.Laws.{AreDistinct}
use hhctrl_mgmt.App.MainBoardInit.Laws.{IsBoarded, announced}
use hhctrl_mgmt.App.Logger.{Logging}
use hhctrl_mgmt.App.Logger.Laws.{CanLog}
use hhctrl_mgmt.Base.Maps.{lookup}
use hhctrl_mgmt.Device.Registry.{get}
use hhctrl_mgmt.Board.{IndicatorType}
use hhctrl_mgmt.Adapter.Lifecycle.{EntityOps}
use hhctrl_mgmt.Adapter.Identity.{DeviceIdentity, identity, get_hardware_identity}
use hhctrl_mgmt.Adapter.Handlers.{board_created}
use hhctrl_mgmt.Adapter.MainBoard.{BoardAdapter}
use hhctrl_mgmt.Adapter.MainBoard.Indicators.{board_create_leds}
use hhctrl_mgmt.App.Serving.{Adapters, create_main_board}
use hhctrl_mgmt.App.Serving.Laws.{serve-refused}
use hhctrl_mgmt.App.Main.{Exit, aborted, main}

-- A board without indicators has its identity and its place in the inventory, and gets no adapter.
create_main_board-dark :
    (I : EntityOps) (create_sensor : String → I.State)
    (state : IndicatorType → Outcome I.EntityState) (B : EntityOps)
    (create_button : String → B.State) (format : ℕ → String) (hw : HardwareIdentity) (s : System)
    → IsBoarded 1 hw s
    → s.boards ≡ (1, []) ∷ []
    → create_main_board I create_sensor state B create_button format s 1 ≡ done none
unfolding create_main_board identity get_hardware_identity get lookup
create_main_board-dark I create_sensor state B create_button format hw s b boards =
    simp
      (
        create_main_board,
        identity,
        get_hardware_identity,
        b.identity 1,
        boards,
        λ (i : DeviceIdentity).
            board_create_leds I create_sensor state B create_button format 1 i [] s.files tt,
      )
      refl

board_created-none :
    {X : Type 0} (create : ℕ → Outcome (Option X)) (d : ℕ)
    → create d ≡ done none
    → board_created create d none ≡ thrown
unfolding board_created
board_created-none create d e = simp (e) refl

main_board-none : (leds : Files) → main_board [] leds ≡ done ([], leds)
unfolding main_board set_indicator_state
main_board-none leds = refl

module _ (P : StreamParser PdTreeValue) (fuel : ℕ) (exists : String → Bool)
    (content : String → Option (List ℕ)) (ids : EventType → DeviceType → ℕ) (leds : Files)
    (extract : String → Option String) (led_at : String → Option ℕ)
    (null_call : PlatformBuilder → Outcome (Bool × PlatformBuilder)) (hw : HardwareIdentity)
    (logging : Logging) (A : Adapters) (null_info : Outcome (Exit A)) (path : String)
    (config : AppConfig) (can_log : CanLog logging config.log_dir) where
  -- Where the loggers can be started and the configuration can be read, and it names a file that
  -- describes the platform with entries that can be read, none of which is an RGB LED, event ids
  -- are distinct, the devices' directories exist, ids do not run out, and the board's adapter is what
  -- `MainBoard::async_create` makes, with any operations of its entities: `main` aborts, since the
  -- handler of the board's event throws.
  pub main-dark :
      (es : List Entry) (I : EntityOps) (create_sensor : String → I.State)
      (state : IndicatorType → Outcome I.EntityState) (B : EntityOps)
      (create_button : String → B.State) (format : ℕ → String)
      (as_board : BoardAdapter I create_sensor state B create_button format → A.Board)
      → load_config P fuel (open_file (content path)) ≡ done config
      → exists config.dtree_file ≡ true
      → pdtree_load P fuel (open_file (content config.dtree_file))
        ≡ done (array (describe es end_array))
      → All (IsReadable extract led_at null_call) es
      → AreDistinct ids
      → All (λ l. exists (path_of l) ≡ true) (loaders_of es)
      → 2 + length (loaders_of es) < 2 ^ 32
      → indicators_of es ≡ []
      → ((s : System) (d : ℕ)
          → A.create_board s d
            ≡ after
                (create_main_board I create_sensor state B create_button format s d)
                (λ b. done (elim b [ none ↦ none | some x ↦ some (as_board x) ])))
      → main P fuel exists content ids leds extract led_at null_call hw logging A null_info 2 path
        ≡ done aborted
  unfolding main
  main-dark es I create_sensor state B create_button format as_board c e t readable d paths h dark
        makes =
      let (s, begun, boarded, counted, boards) =
        started P fuel exists content ids leds extract led_at null_call hw logging A null_info path
          config can_log es leds c e t readable d (rw dark (main_board-none leds)) paths h in
      let none_made =
        create_main_board-dark I create_sensor state B create_button format hw s boarded
          (boards ∙ simp (dark) refl) in
      let refused =
        serve-refused A ids s (λ d. none) (λ d. none) (announced (ids created) 2 (loaders_of es)) d
          (board_created-none (A.create_board s) 1 (makes s 1 ∙ simp (none_made) refl)) in
      simp (main, begun, refused) refl
