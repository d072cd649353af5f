-- ===== src/App/Main/Laws.antt =====
-- The start of the program, from the empty tables on.
use hhctrl_mgmt.Base.{
  ℕ, ◌+◌, ◌^◌, ◌<◌, ◌≡◌, refl, Bool, true, List, [], ◌∷◌, String, arith, All, length,
}
use hhctrl_mgmt.Base.Maps.{lookup, insert}
use hhctrl_mgmt.Base.Outcome.{done, ◌>>◌}
use hhctrl_mgmt.Board.{Indicator, main_board}
use hhctrl_mgmt.Board.Leds.{Files}
use hhctrl_mgmt.Board.Hardware.{HardwareIdentity}
use hhctrl_mgmt.Device.Tree.{parent}
use hhctrl_mgmt.Device.Registry.{register_device, new_id, add}
use hhctrl_mgmt.Poller.Service.{Poller, start_poller, add_poller}
use hhctrl_mgmt.Bus.Events.{whole, Event, slots}
use hhctrl_mgmt.Bus.Events.Laws.{IsWired, published, publish_lem}
use hhctrl_mgmt.Platform.{
  System, DeviceType, board_type, register_board, poll_device, publish_event,
}
use hhctrl_mgmt.Platform.Builder.{PlatformBuilder}
use hhctrl_mgmt.Platform.Loading.{path_of}
use hhctrl_mgmt.App.HomeAssistant.{EventType, created, handler_of, home_assistant_init}
use hhctrl_mgmt.App.HomeAssistant.Laws.{AreDistinct, init-IsWired, home_assistant_init-slots}
use hhctrl_mgmt.App.MainBoardInit.{emplace_identity, init_devices}
use hhctrl_mgmt.App.MainBoardInit.Laws.{
  IsBoarded, IsServed, announced, published-IsServed, load_all-IsBoarded,
}
use hhctrl_mgmt.App.Main.{initial}

empty-IsWired : IsWired []
unfolding slots lookup
empty-IsWired id = tt

abbrev board_poller : Poller
board_poller = record { device_id = 1; interval = 5000 }

module _ (ids : EventType → DeviceType → ℕ) (leds : Files) where
  started-IsWired : IsWired (home_assistant_init ids [])
  started-IsWired = init-IsWired ids [] empty-IsWired

  abbrev board_event : Event
  board_event = record { event_id = ids created board_type; device_id = 1 }

  -- The state once the board is registered, with its identity and its poller.
  abbrev with_board : HardwareIdentity → List Indicator → Files → System
  with_board hw indicators leds' = record (initial leds ids) {
    counter = 2;
    boards = (1, indicators) ∷ [];
    files = leds';
    hw_identity_store = (1, hw) ∷ [];
    polling_service = record { pollers = board_poller ∷ []; started = board_poller ∷ [] };
  }

  -- The same once the board is announced.
  abbrev board_announced : HardwareIdentity → List Indicator → Files → System
  board_announced hw indicators leds' = record (with_board hw indicators leds') {
    bus = published board_event (home_assistant_init ids []);
    spawned = record { handler = whole (handler_of board_type); event = board_event } ∷ [];
  }

  board_announced-IsBoarded :
      (hw : HardwareIdentity) (indicators : List Indicator) (leds' : Files)
      → IsBoarded 1 hw (board_announced hw indicators leds')
  unfolding parent lookup
  board_announced-IsBoarded hw indicators leds' = record {
    system = record {
      fresh = record {
        hatches = tt;
        temp_sensors = tt;
        parentless = λ d older. refl;
        unpolled = λ d older. ground (arith, older);
      };
      tree = tt;
      service = record { unique = (refl, tt); started = refl };
      wired = (publish_lem board_event (home_assistant_init ids []) 0 started-IsWired).1;
    };
    older = omega arith;
    identity = λ d. ground arith;
    parents = λ d newer known. absurd (omega (arith, newer, known));
    polled = λ d newer known. ground (arith, newer, known);
  }

  board_registered :
      (indicators : List Indicator) (leds' : Files)
      → main_board indicators leds ≡ done (indicators, leds')
      → register_board indicators (initial leds ids)
        ≡ done (
          1,
          record (initial leds ids) { counter = 2; boards = (1, indicators) ∷ []; files = leds' },
        )
  unfolding register_board register_device new_id add lookup insert
  board_registered indicators leds' lit = simp (register_board, lit) refl

  board_placed :
      (hw : HardwareIdentity) (indicators : List Indicator) (leds' : Files)
      → (emplace_identity 1 hw >> poll_device 1 5000)
          (record (initial leds ids) { counter = 2; boards = (1, indicators) ∷ []; files = leds' })
        ≡ done (tt, with_board hw indicators leds')
  unfolding emplace_identity poll_device add_poller start_poller lookup insert
  board_placed hw indicators leds' = refl

  board_published :
      (hw : HardwareIdentity) (indicators : List Indicator) (leds' : Files)
      → AreDistinct ids
      → publish_event board_event (with_board hw indicators leds')
        ≡ done (tt, board_announced hw indicators leds')
  unfolding publish_event
  board_published hw indicators leds' d =
      let sent = (publish_lem board_event (home_assistant_init ids []) 0 started-IsWired).0 in
      let heard = home_assistant_init-slots ids created board_type d in
      simp (publish_event, sent, heard) refl

  -- Where no two event types share an id, the board's LEDs can be written, the directory of each
  -- device exists, and ids do not run out: from empty tables the start returns. The board has id 1,
  -- and the devices the ids from 2 on, in the order of their loaders. The tables are well formed;
  -- each device has the board as its parent, and each, like the board, one poller; the board alone
  -- has an identity of its own. The bus has spawned one handler for the board and one for each
  -- device, that of its type, in the order of their ids. The board is in its inventory with its
  -- indicators.
  pub init_devices-IsBoarded :
      (exists : String → Bool) (hw : HardwareIdentity) (builder : PlatformBuilder) (leds' : Files)
      → AreDistinct ids
      → main_board builder.indicators leds ≡ done (builder.indicators, leds')
      → All (λ l. exists (path_of l) ≡ true) builder.generic_loaders
      → 2 + length builder.generic_loaders < 2 ^ 32
      → (s' : System) × (init_devices exists (ids created) hw builder (initial leds ids)
          ≡ done (tt, s'))
        × IsBoarded 1 hw s'
        × (s'.counter ≡ 2 + length builder.generic_loaders)
        × (s'.spawned
            ≡ record { handler = whole (handler_of board_type); event = board_event }
              ∷ announced (ids created) 2 builder.generic_loaders)
        × (s'.boards ≡ (1, builder.indicators) ∷ [])
  unfolding init_devices emplace_identity
  init_devices-IsBoarded exists hw builder leds' d lit paths h =
      let s = board_announced hw builder.indicators leds' in
      let served : IsServed (ids created) s.bus =
        published-IsServed (ids created) board_event (home_assistant_init ids []) started-IsWired
          (λ t. home_assistant_init-slots ids created t d) in
      let (s', loaded, boarded, counted, spawned, boards) =
        load_all-IsBoarded exists (ids created) 1 hw builder.generic_loaders s paths
          (board_announced-IsBoarded hw builder.indicators leds') served h in
      (
        s',
        simp
            (
              init_devices,
              board_registered builder.indicators leds' lit,
              board_placed hw builder.indicators leds',
              board_published hw builder.indicators leds' d,
              loaded,
            )
            refl,
        boarded,
        counted,
        spawned,
        boards,
      )
