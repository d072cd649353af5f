-- ===== src/Adapter/Hatch/Commands.antt =====
-- What a command writes to the hatch, and what is published of the hatch's state.
use hhctrl_mgmt.Base.{append-nil, ◌≡◌, refl, Option, none, some, List, [], ◌∷◌, ◌++◌, String}
use hhctrl_mgmt.Base.Outcome.{done}
use hhctrl_mgmt.Utils.Mapper.{map_key}
use hhctrl_mgmt.Utils.StaticMap.{at_key}
use hhctrl_mgmt.Mqtt.Packet.{Pubopts}
use hhctrl_mgmt.Mqtt.Config.{Config, null, lookup}
use hhctrl_mgmt.Mqtt.Entity.{EntityClient, Entity, topic, async_publish}
use hhctrl_mgmt.Mqtt.Cover.{
  SwitchCommand, open_command, close_command, stop_command, cover_set_state, cover_config,
}
use hhctrl_mgmt.Mqtt.Cover.Commands.{payload_of, cover_config_lem}
use hhctrl_mgmt.Adapter.Identity.{DeviceIdentity}
use hhctrl_mgmt.Adapter.Hatch.{
  HatchState, open_state, closed, SysfsHatch, status, cover_state, write_position, open_hatch,
  close_hatch, hatch_recv, hatch_config,
}

-- What the hatch is told to do.
abbrev pub written : SwitchCommand → List String
written stop_command = []
written c = payload_of c ∷ []

write_position-written :
    (val : String) (h : SysfsHatch) (texts : List String)
    → h.change_position ≡ some texts
    → write_position val h ≡ done (tt, record h { change_position = some (texts ++ val ∷ []) })
write_position-written val h texts w = rw w refl

pub hatch_recv-written :
    (c : SwitchCommand) (h : SysfsHatch) (s : HatchState) (texts : List String)
    → status h ≡ done s
    → h.change_position ≡ some texts
    → hatch_recv c h ≡ done (tt, record h { change_position = some (texts ++ written c) })
unfolding hatch_recv open_hatch close_hatch
hatch_recv-written open_command h s texts r w =
    simp (hatch_recv, r) (write_position-written "open" h texts w)
hatch_recv-written close_command h s texts r w =
    simp (hatch_recv, r) (write_position-written "close" h texts w)
hatch_recv-written stop_command h s texts r w = simp (hatch_recv, r, append-nil, ← w) refl

-- The text that is published for a hatch's state: none where the source has nothing to say of it.
abbrev pub published_text : HatchState → Option String
published_text open_state = some "open"
published_text closed = some "closed"
published_text _ = none

-- The state of an open or a closed hatch is published, retained or not as asked, on the cover's state
-- topic. In any other state nothing is published, and the client is not called.
pub hatch_state_published :
    (C : EntityClient) (e : Entity (C.State)) (s : HatchState) (opts : Pubopts)
    → cover_set_state C (cover_state s) opts e ≡ (elim (published_text s) [
      | none ↦ done (none, e)
      | some t ↦ async_publish C (topic e "state") t opts e
    ])
unfolding cover_set_state cover_state at_key map_key
hatch_state_published C e open_state opts = refl
hatch_state_published C e closed opts = refl
hatch_state_published C e _ opts = refl

-- The configuration that a hatch's cover announces has no payload for the stop command.
pub hatch_config_stop :
    {S : Type 0} (e : Entity S) (i : DeviceIdentity)
    → (full : Config) × (cover_config e (hatch_config i) ≡ done full)
      × (lookup "payload_stop" full ≡ some null)
unfolding hatch_config lookup
hatch_config_stop e i =
    let (full, made, command, state, stop) = cover_config_lem e (hatch_config i) in
    (full, made, stop)
