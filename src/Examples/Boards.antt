-- ===== src/Examples/Boards.antt =====
-- The main board's adapter at concrete inputs.
use hhctrl_mgmt.Base.{◌≡◌, refl, none, some, [], ◌∷◌}
use hhctrl_mgmt.Base.Outcome.{done, thrown}
use hhctrl_mgmt.Board.{status, led_indicator}
use hhctrl_mgmt.Board.Leds.{Files}
use hhctrl_mgmt.Adapter.Identity.{DeviceIdentity}
use hhctrl_mgmt.Adapter.Handlers.{board_created}
use hhctrl_mgmt.Adapter.MainBoard.{board_create}
use hhctrl_mgmt.Adapter.MainBoard.Indicators.{board_created_leds}
use hhctrl_mgmt.Examples.Adapters.{failing}

abbrev identity_of_board : DeviceIdentity
identity_of_board = record {
  manufacturer = "BHome";
  model = "B";
  serial_number = "5";
  hw_revision = "R1";
  sw_revision = "Sw rev default";
}

abbrev dark : Files
dark path = some 0

board_created_leds_example :
    board_created
      (λ id.
        board_create failing
          (λ uid. 0)
          (λ t. done 0)
          failing
          (λ uid. 0)
          (λ n. "n")
          id
          identity_of_board
          (led_indicator status 0 ∷ [])
          dark)
      1
      none
    ≡ thrown
board_created_leds_example =
    board_created_leds failing (λ uid. 0) (λ t. done 0) failing (λ uid. 0) (λ n. "n") 1
      identity_of_board (led_indicator status 0 ∷ []) dark (refl, tt)
