-- ===== src/Examples/Mains.antt =====
-- `main` at concrete inputs.
use hhctrl_mgmt.Base.{ℕ, ◌≡◌, refl, none, some, [], ◌∷◌, String, str_eq, if◌then◌else◌, arith}
use hhctrl_mgmt.Base.Outcome.{done, thrown, stuck, after}
use hhctrl_mgmt.Utils.Streams.{read_json, read_loop, read}
use hhctrl_mgmt.Platform.Pdtree.{pdtree_load}
use hhctrl_mgmt.App.Serving.{Adapters, create_main_board}
use hhctrl_mgmt.App.Main.{aborted, main}
use hhctrl_mgmt.App.Main.Runs.{main-unopened}
use hhctrl_mgmt.App.Main.Dark.{main-dark}
use hhctrl_mgmt.Examples.Logs.{logging, logging-CanLog}
use hhctrl_mgmt.Examples.Platforms.{word_of, led_at, no_logger, dark_entries}
use hhctrl_mgmt.Examples.Adapters.{failing}
use hhctrl_mgmt.Examples.Starts.{
  settings, settings_loaded, parser, exists, ids, ids-AreDistinct, leds, hw, ones,
}

-- The board gets an adapter, the hatch too, and the sensor none.
abbrev adapters : Adapters
adapters = record {
  Board = ℕ;
  Hatch = String;
  Sensor = String;
  create_board = λ s d. done (some 7);
  create_hatch = λ s d. done (some "hatch");
  create_sensor = λ s d. done none;
  sync_board = λ s d b. done b;
  sync_hatch = λ s d h. done h;
  sync_sensor = λ s d x. done x;
  call_moved = λ k h. thrown;
}

-- The board's adapter is made as it is by the program, over entities that cannot connect at first.
abbrev real_board : Adapters
real_board = record adapters {
  create_board = λ s d.
      after (create_main_board failing (λ uid. 0) (λ t. done 0) failing (λ uid. 0) ones s d)
        (λ b. done (elim b [ none ↦ none | some x ↦ some 7 ]));
}

main-unopened_example :
    main parser 1 exists
      (λ path. if str_eq path "/config" then some (1 ∷ []) else none)
      ids
      leds
      word_of
      led_at
      no_logger
      hw
      logging
      adapters
      stuck
      2
      "/config"
    ≡ stuck
main-unopened_example =
    main-unopened parser 1 exists (λ path. if str_eq path "/config" then some (1 ∷ []) else none)
      ids leds word_of led_at no_logger hw logging adapters stuck "/config" settings logging-CanLog
      settings_loaded refl

main-dark_example :
    main parser 1 exists
      (λ path. some (if str_eq path "/config" then 1 ∷ [] else 3 ∷ []))
      ids
      leds
      word_of
      led_at
      no_logger
      hw
      logging
      real_board
      stuck
      2
      "/config"
    ≡ done aborted
unfolding pdtree_load read_json read_loop read
main-dark_example =
    main-dark parser 1 exists (λ path. some (if str_eq path "/config" then 1 ∷ [] else 3 ∷ [])) ids
      leds word_of led_at no_logger hw logging real_board stuck "/config" settings logging-CanLog
      dark_entries failing (λ uid. 0) (λ t. done 0) failing (λ uid. 0) ones (λ b. 7) settings_loaded
      refl refl (refl, tt) ids-AreDistinct (refl, tt) (omega arith) refl (λ s d. refl)
