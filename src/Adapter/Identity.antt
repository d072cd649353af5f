-- ===== src/Adapter/Identity.antt =====
-- src/home_assistant_adapter/include/home_assistant/device_identity_provider.hpp and
-- adapter/unique_id.hpp: the identity of a device, which may be that of its parent.
use Prim.Native.String.{◌++◌}
use hhctrl_mgmt.Base.{ℕ, ◌≡◌, refl, true, Option, none, some, List, String}
use hhctrl_mgmt.Base.Maps.{lookup}
use hhctrl_mgmt.Base.Outcome.{Outcome, done, thrown, after}
use hhctrl_mgmt.Board.Hardware.{HardwareIdentity}
use hhctrl_mgmt.Device.Tree.{Node, parent, add_child}
use hhctrl_mgmt.Device.Tree.Laws.{add_child_lem, IsTree}

pub record DeviceIdentity : Type 0 where
  pub manufacturer : String
  pub model : String
  pub serial_number : String
  pub hw_revision : String
  pub sw_revision : String

unfoldable pub get_hardware_identity :
    List (ℕ × HardwareIdentity) → List Node → ℕ → Outcome HardwareIdentity
unfolding parent
get_hardware_identity store tree device_id = elim (lookup device_id store) [
  | some identity ↦ done identity
  | none ↦ elim (parent device_id tree) [
    | none ↦ thrown
    | some parent_id ↦ elim (lookup parent_id store) [
      | none ↦ thrown
      | some identity ↦ done identity
    ]
  ]
]

unfoldable pub identity : List (ℕ × HardwareIdentity) → List Node → ℕ → Outcome DeviceIdentity
unfolding get_hardware_identity
identity store tree device_id = after (get_hardware_identity store tree device_id) λ hw_identity.
    done (record {
      manufacturer = hw_identity.manufacturer;
      model = hw_identity.model;
      serial_number = hw_identity.serial_number;
      hw_revision = hw_identity.revision;
      sw_revision = "Sw rev default";
    })

-- `get_unique_id`; `fmt::format` of a device id is a parameter.
unfoldable pub get_unique_id : (ℕ → String) → ℕ → DeviceIdentity → String
get_unique_id format device_id device_identity =
    device_identity.serial_number ++ "_" ++ format device_id

-- On a tree in which no device has two nodes: a device that `add_child` gives a parent, and that
-- the store does not know, has the identity of that parent where the store knows the parent.
identity-add_child :
    (store : List (ℕ × HardwareIdentity)) (tree : List Node) (p d : ℕ) (callback : Option ℕ)
    (hw : HardwareIdentity)
    → IsTree tree
    → lookup d store ≡ none
    → lookup p store ≡ some hw
    → (add_child p d callback tree).1 ≡ true
    → identity store (add_child p d callback tree).0 d
      ≡ identity store (add_child p d callback tree).0 p
unfolding identity get_hardware_identity
identity-add_child store tree p d callback hw t unknown known added =
    let child : (parent d (add_child p d callback tree).0 ≡ some p) =
      (add_child_lem p d d callback tree t).1.0 added in
    simp (identity, get_hardware_identity, unknown, known, child) refl
