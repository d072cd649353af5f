-- ===== src/Board/Exclusive.antt =====
-- Four indicators share one RGB LED.
use hhctrl_mgmt.Base.{ℕ, ◌≡◌, false, some, ◌==◌, if◌then◌else◌, arith}
use hhctrl_mgmt.Base.Outcome.{done}
use hhctrl_mgmt.Board.Leds.{Files, Rgb, write}
use hhctrl_mgmt.Board.{
  off, on, IndicatorType, status, warning, fault, maintenance, type_eq, rgb_indicators,
  indicator_state, set_indicator_state, main_board,
}

-- Whatever the LED shows, at most one of its four indicators reads as on.
pub indicator_state_exclusive :
    (r g b : ℕ) (files : Files) (t u : IndicatorType)
    → indicator_state t (rgb_indicators r g b) files ≡ done (on, files)
    → indicator_state u (rgb_indicators r g b) files ≡ done (on, files)
    → t ≡ u
unfolding indicator_state
indicator_state_exclusive r g b files t u h k = ground arith

module _ (r g b : ℕ) (files : Files) (x y z : ℕ) (red : files r ≡ some x) (green : files g ≡ some y)
    (blue : files b ≡ some z) (rg : (r == g) ≡ false) (rb : (r == b) ≡ false)
    (gb : (g == b) ≡ false) where
  abbrev shown : Rgb → Files
  shown c = write b c.blue (write g c.green (write r c.red files))

  -- With three LEDs of their own, which can be read, switching an indicator on makes it read as on
  -- and the other three as off, whichever was on before.
  pub set_indicator_state_on :
      (t u : IndicatorType)
      → (files' : Files) × (set_indicator_state t on (rgb_indicators r g b) files
          ≡ done (tt, files'))
        × (indicator_state u (rgb_indicators r g b) files'
            ≡ done ((if type_eq u t then on else off), files'))
  unfolding indicator_state set_indicator_state
  set_indicator_state_on status u =
      (shown (record { red = 0; green = 255; blue = 0 }), ground arith, ground arith)
  set_indicator_state_on warning u =
      (shown (record { red = 255; green = 255; blue = 0 }), ground arith, ground arith)
  set_indicator_state_on maintenance u =
      (shown (record { red = 0; green = 0; blue = 255 }), ground arith, ground arith)
  set_indicator_state_on fault u =
      (shown (record { red = 255; green = 0; blue = 0 }), ground arith, ground arith)

  -- Switching any of them off darkens the LED: all four read as off.
  pub set_indicator_state_off :
      (t u : IndicatorType)
      → (files' : Files) × (set_indicator_state t off (rgb_indicators r g b) files
          ≡ done (tt, files'))
        × (indicator_state u (rgb_indicators r g b) files' ≡ done (off, files'))
  unfolding indicator_state set_indicator_state
  set_indicator_state_off t u =
      (shown (record { red = 0; green = 0; blue = 0 }), ground arith, ground arith)

  -- A new board on three LEDs of their own, which can be read, shows the status indicator on and
  -- the other three off.
  main_board_lem :
      (u : IndicatorType)
      → (files' : Files) × (main_board (rgb_indicators r g b) files
          ≡ done (rgb_indicators r g b, files'))
        × (indicator_state u (rgb_indicators r g b) files'
            ≡ done ((if type_eq u status then on else off), files'))
  unfolding indicator_state main_board
  main_board_lem u = (
    write b 0 (write g 255 (write r 0 (shown (record { red = 0; green = 0; blue = 0 })))),
    ground arith,
    ground arith,
  )
