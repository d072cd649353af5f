-- ===== src/Platform/Discovery/Leds.antt =====
-- `load_led` on the LEDs of a description.
use hhctrl_mgmt.Base.{
  ℕ, ◌≡◌, refl, ◌&&◌, Option, none, some, String, str_eq, if◌then◌else◌, is_some, arith, eq_iff,
}
use hhctrl_mgmt.Base.Outcome.{done}
use hhctrl_mgmt.Platform.Pdtree.{
  text, PdTreeArray, PdTreeObject, member, find_member, pdtree_to_string,
}
use hhctrl_mgmt.Platform.Providers.{has_color, find_led, load_led}
use hhctrl_mgmt.Platform.Discovery.Entries.{path_member, led_item, led_items, Reads}

find_led-item :
    (label color : String) (led : Option (String × ℕ)) (rest : PdTreeArray)
    → find_led label (led_item color led rest) ≡ (
        if is_some led && str_eq color label
        then done (some (member "color" (text color) (path_member led)))
        else find_led label rest)
unfolding find_led has_color find_member pdtree_to_string
find_led-item label color none rest = refl
find_led-item label color (some led) rest = ground (arith, eq_iff color label)

abbrev led_object : String → Option (String × ℕ) → Option PdTreeObject
led_object color none = none
led_object color (some led) = some (member "color" (text color) (path_member (some led)))

abbrev pub led_number : Option (String × ℕ) → Option ℕ
led_number none = none
led_number (some (path, n)) = some n

load_led-found :
    (led_at : String → Option ℕ) (leds : PdTreeArray) (color : String) (led : Option (String × ℕ))
    → find_led color leds ≡ done (led_object color led)
    → Reads led_at led
    → load_led led_at leds color ≡ done (led_number led)
unfolding load_led find_member pdtree_to_string
load_led-found led_at leds color none found reads = simp (load_led, found) refl
load_led-found led_at leds color (some led) found reads = simp (load_led, found, reads) refl

module _ (led_at : String → Option ℕ) (red green blue : Option (String × ℕ)) where
  pub load_red :
      Reads led_at red → load_led led_at (led_items red green blue) "red" ≡ done (led_number red)
  unfolding find_led
  load_red =
      load_led-found led_at (led_items red green blue) "red" red
        (simp (find_led-item) (ground arith))

  pub load_green :
      Reads led_at green
      → load_led led_at (led_items red green blue) "green" ≡ done (led_number green)
  unfolding find_led
  load_green =
      load_led-found led_at (led_items red green blue) "green" green
        (simp (find_led-item) (ground arith))

  pub load_blue :
      Reads led_at blue → load_led led_at (led_items red green blue) "blue" ≡ done (led_number blue)
  unfolding find_led
  load_blue =
      load_led-found led_at (led_items red green blue) "blue" blue
        (simp (find_led-item) (ground arith))
