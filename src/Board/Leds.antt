-- ===== src/Board/Leds.antt =====
-- src/main_board/sysfs_led.cpp, sysfs_rgbled.cpp: LEDs behind sysfs attributes.
use hhctrl_mgmt.Base.{ℕ, Option, none, some, ◌==◌, if◌then◌else◌}
use hhctrl_mgmt.Base.Outcome.{done, thrown, M, ◌>>=◌, ◌>>◌, pure}

-- The number in each attribute; `none` for a path with no attribute.
abbrev pub Files : Type 0
Files = ℕ → Option ℕ

pub record Rgb : Type 0 where
  pub red : ℕ
  pub green : ℕ
  pub blue : ℕ

unfoldable pub brightness : ℕ → M Files ℕ
brightness led files = elim (files led) [ none ↦ thrown | some v ↦ done (v, files) ]

abbrev pub write : ℕ → ℕ → Files → Files
write led value files = λ path. if path == led then some value else files path

unfoldable pub set_brightness : ℕ → ℕ → M Files (Unit {0})
set_brightness led value files = elim (files led) [
  | none ↦ thrown
  | some _ ↦ done (tt, write led value files)
]

unfoldable pub rgb_brightness : ℕ → ℕ → ℕ → M Files Rgb
unfolding brightness
rgb_brightness red green blue = do
  r ← brightness red
  g ← brightness green
  b ← brightness blue
  pure (record { red = r; green = g; blue = b })

unfoldable pub set_rgb_brightness : ℕ → ℕ → ℕ → Rgb → M Files (Unit {0})
unfolding set_brightness
set_rgb_brightness red green blue value = do
  set_brightness red value.red
  set_brightness green value.green
  set_brightness blue value.blue
