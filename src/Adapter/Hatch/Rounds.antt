-- ===== src/Adapter/Hatch/Rounds.antt =====
-- The hatch's adapter on its cover: what `EntityAdapter<Cover_t, Hatch>` uses of a cover, and a round of
-- its `async_run`.
use hhctrl_mgmt.Base.{
  ℕ, ◌≡◌, refl, ◌++◌, String, some, List, [], ◌∷◌, length, append-nil, append_assoc,
}
use hhctrl_mgmt.Base.Outcome.{done}
use hhctrl_mgmt.Mqtt.Error.{value}
use hhctrl_mgmt.Mqtt.Packet.{Publish}
use hhctrl_mgmt.Mqtt.Config.{Config}
use hhctrl_mgmt.Mqtt.Entity.{
  EntityClient, Entity, topic, availability_topic, set_will, async_connect, async_receive,
  async_set_availability,
}
use hhctrl_mgmt.Mqtt.Cover.{
  CoverState, SwitchCommand, cover_configure, cover_set_state, cover_receive,
}
use hhctrl_mgmt.Mqtt.Cover.Commands.{payload_of, map_command_payload}
use hhctrl_mgmt.Adapter.Lifecycle.{EntityOps, Adapter, Impl, async_run_round, async_run}
use hhctrl_mgmt.Adapter.Hatch.{HatchState, SysfsHatch, status, hatch_recv}
use hhctrl_mgmt.Adapter.Hatch.Commands.{written, hatch_recv-written}

abbrev pub cover_ops : EntityClient → ℕ → (Config → String) → EntityOps
cover_ops C rounds serialize = record {
  State = Entity (C.State);
  Value = SwitchCommand;
  EntityState = CoverState;
  availability = λ e. topic e availability_topic;
  set_will = set_will C;
  async_connect = async_connect C;
  async_configure = cover_configure C serialize;
  async_set_availability = async_set_availability C;
  async_set_state = cover_set_state C;
  async_receive = cover_receive C rounds;
}

module _ (C : EntityClient) (rounds : ℕ) (serialize : Config → String) where
  cover_receive-command :
      (e e' : Entity (C.State)) (m : Publish) (c : SwitchCommand)
      → async_receive C rounds e ≡ done (value m, e')
      → m.topic ≡ topic e' "set"
      → m.payload ≡ payload_of c
      → cover_receive C rounds e ≡ done (value c, e')
  unfolding cover_receive
  cover_receive-command e e' m c r t p =
      simp (cover_receive, r, map_command_payload e' m c t p) refl

  -- A round of `async_run` whose cover receives a packet on its command topic with a command's payload,
  -- for a hatch whose status can be read and whose attribute can be opened: the hatch's attribute gets
  -- that payload, or nothing for the stop command, and the adapter is as it was but for what receiving
  -- changed of its entity.
  hatch_round :
      (impl : Impl (cover_ops C rounds serialize)) (a : Adapter (cover_ops C rounds serialize))
      (e' : Entity (C.State)) (m : Publish) (c : SwitchCommand) (h : SysfsHatch) (s : HatchState)
      (texts : List String)
      → async_receive C rounds a.entity ≡ done (value m, e')
      → m.topic ≡ topic e' "set"
      → m.payload ≡ payload_of c
      → status h ≡ done s
      → h.change_position ≡ some texts
      → async_run_round (cover_ops C rounds serialize) impl hatch_recv (a, h)
        ≡ done (
          tt,
          (record a { entity = e' }, record h { change_position = some (texts ++ written c) }),
        )
  unfolding async_run_round
  hatch_round impl a e' m c h s texts r t p known w =
      simp
        (
          async_run_round,
          cover_receive-command a.entity e' m c r t p,
          hatch_recv-written c h s texts known w,
        )
        refl

  -- These packets are received in turn, each with its command and the entity after it.
  abbrev pub Receives :
      List (Publish × SwitchCommand × Entity (C.State)) → Entity (C.State) → Type 0
  Receives [] e = Unit {0}
  Receives ((m, c, e') ∷ later) e =
      (async_receive C rounds e ≡ done (value m, e'))
      × (m.topic ≡ topic e' "set")
      × (m.payload ≡ payload_of c)
      × Receives later e'

  abbrev pub entity_after :
      List (Publish × SwitchCommand × Entity (C.State)) → Entity (C.State) → Entity (C.State)
  entity_after [] e = e
  entity_after ((m, c, e') ∷ later) e = entity_after later e'

  abbrev pub all_written : List (Publish × SwitchCommand × Entity (C.State)) → List String
  all_written [] = []
  all_written ((m, c, e') ∷ later) = written c ++ all_written later

  -- The run loop of a hatch whose status can be read and whose attribute can be opened, over packets on
  -- its command topic with the payloads of commands: the hatch's attribute gets what the commands
  -- write, in the order in which they were received, and nothing else, and the adapter is as it was
  -- but for what receiving changed of its entity.
  pub hatch_run :
      (impl : Impl (cover_ops C rounds serialize)) (a : Adapter (cover_ops C rounds serialize))
      (received : List (Publish × SwitchCommand × Entity (C.State))) (h : SysfsHatch)
      (s : HatchState) (texts : List String)
      → Receives received a.entity
      → status h ≡ done s
      → h.change_position ≡ some texts
      → async_run (cover_ops C rounds serialize) (length received) impl hatch_recv (a, h)
        ≡ done (
          tt,
          (
            record a { entity = entity_after received a.entity },
            record h { change_position = some (texts ++ all_written received) },
          ),
        )
  unfolding async_run status
  hatch_run impl a [] h s texts r known w = simp (append-nil, ← w) refl
  hatch_run impl a ((m, c, e') ∷ later) h s texts r known w =
      simp
        (
          async_run,
          hatch_round impl a e' m c h s texts r.0 r.1 r.2 known w,
          hatch_run impl (record a { entity = e' }) later
              (record h { change_position = some (texts ++ written c) }) s (texts ++ written c) r.3
              known refl,
          append_assoc,
        )
        refl
