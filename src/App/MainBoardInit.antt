-- ===== src/App/MainBoardInit.antt =====
-- src/app/include/app/main_board_init.hpp: the board and its devices are found, registered, polled and
-- announced.
pub mod Laws
pub mod Reach
use hhctrl_mgmt.Base.{ℕ, Bool, not, Option, none, some, List, [], ◌∷◌, String, if◌then◌else◌}
use hhctrl_mgmt.Base.Maps.{insert, contains}
use hhctrl_mgmt.Base.Outcome.{
  Outcome, done, thrown, M, ◌>>=◌, ◌>>◌, pure, throw, after, lift, modify,
}
use hhctrl_mgmt.Board.Hardware.{HardwareIdentity}
use hhctrl_mgmt.Platform.{
  System, DeviceType, board_type, register_board, poll_device, publish_event,
}
use hhctrl_mgmt.Platform.Pdtree.{PdTreeValue}
use hhctrl_mgmt.Platform.Builder.{PlatformBuilder, empty_builder, DeviceLoader, handle}
use hhctrl_mgmt.Platform.Discovery.{setup}

-- `hw_identity_store.emplace`, which leaves an entry that is there.
unfoldable pub emplace_identity : ℕ → HardwareIdentity → M System (Unit {0})
emplace_identity device_id identity = modify λ s. record s {
  hw_identity_store =
      if contains device_id s.hw_identity_store
      then s.hw_identity_store
      else insert device_id identity s.hw_identity_store;
}

-- `exists` is `std::filesystem::exists`, `created` are the event ids of `DeviceCreated`.
module _ (exists : String → Bool) (created : DeviceType → ℕ) where
  -- The last loop; what a loader returns is dropped.
  unfoldable pub load_all : ℕ → List DeviceLoader → M System (Unit {0})
  unfolding handle
  load_all board_id [] = pure tt
  load_all board_id (loader ∷ loaders) = do
    loaded ← handle exists created board_id loader
    load_all board_id loaders

  -- From the builder that `setup` has filled on.
  unfoldable pub init_devices : HardwareIdentity → PlatformBuilder → M System (Unit {0})
  init_devices hardware_identity builder = do
    board_id ← register_board builder.indicators
    emplace_identity board_id hardware_identity
    poll_device board_id 5000
    publish_event (record { event_id = created board_type; device_id = board_id })
    load_all board_id builder.generic_loaders

  -- `load` is `pdtree_load` of a path; the others are the parameters of `setup`.
  unfoldable pub main_board_init :
      (String → Outcome PdTreeValue)
      → (String → Option String)
      → (String → Option ℕ)
      → (PlatformBuilder → Outcome (Bool × PlatformBuilder))
      → HardwareIdentity
      → String
      → M System (Unit {0})
  main_board_init load extract led_at null_call hardware_identity pdtree_path =
      if not (exists pdtree_path) then throw else do
        pdtree_content ← lift (load pdtree_path)
        builder ← lift (setup extract led_at null_call pdtree_content empty_builder)
        init_devices hardware_identity builder
