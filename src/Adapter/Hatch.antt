-- ===== src/Adapter/Hatch.antt =====
-- The hatch: `SysfsHatch` of src/main_board/sysfs_hatch.cpp, and `Hatch` of
-- src/home_assistant_adapter/device/hatch.cpp, which is a cover. A hatch is the text of its `status`
-- attribute, none where it cannot be read, and what was written to its `change_position` attribute, none where
-- it cannot be opened.
pub mod Commands
pub mod Rounds
pub mod Changes
pub mod Served
use Prim.Native.String.{◌++◌}
use hhctrl_mgmt.Base.{
  ℕ, ◌≡◌, Bool, true, false, Option, none, some, List, [], ◌∷◌, ◌++◌ as append, String, str_eq,
  ◌==◌,
}
use hhctrl_mgmt.Base.Outcome.{Outcome, done, thrown, M, ◌>>=◌, ◌>>◌, pure, get, modify, after, lift}
use hhctrl_mgmt.Utils.StaticMap.{at_value}
use hhctrl_mgmt.Mqtt.Config.{Json, text, null, device, Config, set}
use hhctrl_mgmt.Mqtt.Cover.{
  CoverState, undefined as undefined_cover, open_state as open_cover, closed as closed_cover,
  SwitchCommand, open_command, close_command, stop_command,
}
use hhctrl_mgmt.Adapter.Identity.{DeviceIdentity}

pub data HatchState : Type 0 where
  undefined open_state closed changing_position faulty : HatchState

-- `StatusMapping`.
abbrev pub status_mapping : List (HatchState × String)
status_mapping =
    (open_state, "open")
    ∷ (closed, "closed")
    ∷ (changing_position, "changing_position")
    ∷ (faulty, "faulty")
    ∷ (undefined, "undefined")
    ∷ []

pub record SysfsHatch : Type 0 where
  pub status_attr : Option String
  pub change_position : Option (List String)

-- `write_attr`, on the attribute `change_position`.
abbrev pub write_position : String → M SysfsHatch (Unit {0})
write_position val h = elim h.change_position [
  | none ↦ thrown
  | some texts ↦ done (tt, record h { change_position = some (append texts (val ∷ [])) })
]

unfoldable pub open_hatch : M SysfsHatch (Unit {0})
open_hatch = write_position "open"

unfoldable pub close_hatch : M SysfsHatch (Unit {0})
close_hatch = write_position "close"

unfoldable pub status : SysfsHatch → Outcome HatchState
unfolding at_value
status h = elim h.status_attr [ none ↦ thrown | some value ↦ at_value str_eq value status_mapping ]

-- `Hatch::state`, of a hatch that reports this state.
unfoldable pub cover_state : HatchState → CoverState
cover_state open_state = open_cover
cover_state closed = closed_cover
cover_state _ = undefined_cover

unfoldable pub hatch_state : SysfsHatch → Outcome CoverState
unfolding status cover_state
hatch_state h = after (status h) (λ s. done (cover_state s))

-- `entity_config_basic_device`.
abbrev pub basic_device : DeviceIdentity → Json
basic_device i =
    device (i.serial_number ∷ []) i.manufacturer i.model
      (i.manufacturer ++ " " ++ i.model ++ " " ++ i.hw_revision) i.sw_revision

unfoldable pub hatch_config : DeviceIdentity → Config
unfolding set
hatch_config device_identity = set "payload_stop" null (
    set "device" (basic_device device_identity)
      (set "device_class" (text "door") (set "name" (text "Cover") [])))

-- `Hatch::async_handle_recv_value`, on the hatch of its device id.
unfoldable pub hatch_recv : SwitchCommand → M SysfsHatch (Unit {0})
unfolding status open_hatch close_hatch
hatch_recv cmd = do
  h ← get
  state ← lift (status h)
  elim cmd [ open_command ↦ open_hatch | close_command ↦ close_hatch | stop_command ↦ pure tt ]
