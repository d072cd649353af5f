-- ===== src/Adapter/Hatch/Served.antt =====
-- The hatch's run loop on its client: from the packets that the endpoint gives to the hatch's attribute.
use hhctrl_mgmt.Base.{
  ℕ, suc, ◌<◌, ◌≡◌, refl, sym, ap, ◌∙◌, true, some, List, [], ◌∷◌, ◌++◌, String, All, length,
}
use hhctrl_mgmt.Base.Outcome.{done}
use hhctrl_mgmt.Mqtt.Error.{value}
use hhctrl_mgmt.Mqtt.Config.{Config}
use hhctrl_mgmt.Mqtt.Packet.{Packet, publish, Publish, publish_result}
use hhctrl_mgmt.Mqtt.Client.{Endpoint, Client}
use hhctrl_mgmt.Mqtt.Bound.{mqtt_client}
use hhctrl_mgmt.Mqtt.Entity.{Entity, topic, async_receive}
use hhctrl_mgmt.Mqtt.Entity.Acks.{still_pending, async_receive_acks}
use hhctrl_mgmt.Mqtt.Cover.{SwitchCommand}
use hhctrl_mgmt.Mqtt.Cover.Commands.{payload_of}
use hhctrl_mgmt.Adapter.Lifecycle.{Adapter, Impl, async_run}
use hhctrl_mgmt.Adapter.Hatch.{HatchState, SysfsHatch, status, hatch_recv}
use hhctrl_mgmt.Adapter.Hatch.Commands.{written}
use hhctrl_mgmt.Adapter.Hatch.Rounds.{cover_ops, Receives, entity_after, all_written, hatch_run}
use hhctrl_mgmt.Mqtt.Traffic.{
  Ack, ack_packets, results, Comes, rest, rest-append, Comes-append, AreDropped, client-received,
  AreAcks, results-acks, acks-Gives,
}

-- What the endpoint gives up to the next command.
pub record Call : Type 0 where
  pub acks : List Ack
  pub dropped : List Packet
  pub message : Publish
  pub command : SwitchCommand

abbrev pub call_packets : Call → List Packet
call_packets k = ack_packets k.acks ++ (k.dropped ++ publish k.message ∷ [])

abbrev pub packets : List Call → List Packet
packets [] = []
packets (k ∷ ks) = call_packets k ++ packets ks

module _ (E : Endpoint) (rounds fuel entity_rounds : ℕ) (serialize : Config → String) where
  -- The entity when it has received the call's command.
  abbrev pub after_call : Call → Entity (Client E.Net) → Entity (Client E.Net)
  after_call k e = record e {
    client = record (e.client) { net = rest E (call_packets k) (e.client).net };
    pending_puback = still_pending (results k.acks) e.pending_puback;
  }

  abbrev pub after_calls : List Call → Entity (Client E.Net) → Entity (Client E.Net)
  after_calls [] e = e
  after_calls (k ∷ ks) e = after_calls ks (after_call k e)

  call-received :
      (k : Call) (e : Entity (Client E.Net))
      → (e.client).connected ≡ true
      → AreAcks E rounds fuel k.acks
      → AreDropped E rounds fuel k.dropped
      → length (results k.acks) < entity_rounds
      → Comes E (call_packets k) (e.client).net
      → async_receive (mqtt_client E rounds fuel) entity_rounds e
        ≡ done (value k.message, after_call k e)
  call-received k e up a d l h =
      let last = k.dropped ++ publish k.message ∷ [] in
      let (first, later) = Comes-append E (ack_packets k.acks) last (e.client).net h in
      let before : Client E.Net = record (e.client) {
        net = rest E (ack_packets k.acks) (e.client).net;
      } in
      async_receive_acks (mqtt_client E rounds fuel) (results k.acks) k.message entity_rounds e
        before (record before { net = rest E last before.net })
        (results-acks E rounds fuel k.acks a) (acks-Gives E rounds fuel k.acks e.client up a first)
        (client-received E rounds fuel k.dropped (publish_result k.message) before up d later) l
      ∙ ap
          (λ net.
            done (
              value k.message,
              record (after_call k e) { client = record (e.client) { net = net } },
            ))
          (sym (rest-append E (ack_packets k.acks) last (e.client).net))

  -- A call is for the cover: its message is a command on the topic that the cover has announced.
  pub record IsFor (e : Entity (Client E.Net)) (k : Call) : Type 0 where
    pub acknowledged : AreAcks E rounds fuel k.acks
    pub few : length (results k.acks) < entity_rounds
    pub dropped_few : AreDropped E rounds fuel k.dropped
    pub on_topic : (k.message).topic ≡ topic e "set"
    pub commanded : (k.message).payload ≡ payload_of k.command

  after_call-IsFor :
      (k : Call) (ks : List Call) (e : Entity (Client E.Net))
      → All (IsFor e) ks
      → All (IsFor (after_call k e)) ks
  after_call-IsFor k [] e h = tt
  after_call-IsFor k (j ∷ ks) e h = (
    record {
      acknowledged = h.0.acknowledged;
      few = h.0.few;
      dropped_few = h.0.dropped_few;
      on_topic = h.0.on_topic;
      commanded = h.0.commanded;
    },
    after_call-IsFor k ks e h.1,
  )

  abbrev received_of :
      List Call → Entity (Client E.Net) → List (Publish × SwitchCommand × Entity (Client E.Net))
  received_of [] e = []
  received_of (k ∷ ks) e = (k.message, k.command, after_call k e) ∷ received_of ks (after_call k e)

  calls-Receives :
      (ks : List Call) (e : Entity (Client E.Net))
      → (e.client).connected ≡ true
      → All (IsFor e) ks
      → Comes E (packets ks) (e.client).net
      → Receives (mqtt_client E rounds fuel) entity_rounds serialize (received_of ks e) e
  calls-Receives [] e up f h = tt
  calls-Receives (k ∷ ks) e up f h =
      let (now, later) = Comes-append E (call_packets k) (packets ks) (e.client).net h in
      (
        call-received k e up f.0.acknowledged f.0.dropped_few f.0.few now,
        f.0.on_topic,
        f.0.commanded,
        calls-Receives ks (after_call k e) up (after_call-IsFor k ks e f.1) later,
      )

  abbrev pub commands_written : List Call → List String
  commands_written [] = []
  commands_written (k ∷ ks) = written k.command ++ commands_written ks

  received_of-written :
      (ks : List Call) (e : Entity (Client E.Net))
      → all_written (mqtt_client E rounds fuel) entity_rounds serialize (received_of ks e)
        ≡ commands_written ks
  received_of-written [] e = refl
  received_of-written (k ∷ ks) e =
      ap (λ (ws : List String). written k.command ++ ws) (received_of-written ks (after_call k e))

  received_of-after :
      (ks : List Call) (e : Entity (Client E.Net))
      → entity_after (mqtt_client E rounds fuel) entity_rounds serialize (received_of ks e) e
        ≡ after_calls ks e
  received_of-after [] e = refl
  received_of-after (k ∷ ks) e = received_of-after ks (after_call k e)

  received_of-length :
      (ks : List Call) (e : Entity (Client E.Net)) → length (received_of ks e) ≡ length ks
  received_of-length [] e = refl
  received_of-length (k ∷ ks) e = ap suc (received_of-length ks (after_call k e))

  -- The run loop of a hatch whose status can be read and whose attribute `change_position` can be
  -- opened, on a connected client of its endpoint: the endpoint gives acknowledgements, packets that the client drops, and messages on the topic that
  -- the hatch's cover has announced for commands, each with the payload of a command. For as many
  -- rounds of the loop as there are commands, the loop goes on, the hatch's attribute gets what the
  -- commands write, in their order, and nothing else, and of the adapter only what is left at the
  -- endpoint and the ids that were acknowledged change. The rounds of client and cover exceed the
  -- packets that are dropped, and that are acknowledged, at a time.
  pub hatch_served :
      (impl : Impl (cover_ops (mqtt_client E rounds fuel) entity_rounds serialize))
      (a : Adapter (cover_ops (mqtt_client E rounds fuel) entity_rounds serialize)) (ks : List Call)
      (h : SysfsHatch) (s : HatchState) (texts : List String)
      → ((a.entity).client).connected ≡ true
      → All (IsFor a.entity) ks
      → Comes E (packets ks) ((a.entity).client).net
      → status h ≡ done s
      → h.change_position ≡ some texts
      → async_run
          (cover_ops (mqtt_client E rounds fuel) entity_rounds serialize)
          (length ks)
          impl
          hatch_recv
          (a, h)
        ≡ done (
          tt,
          (
            record a { entity = after_calls ks a.entity },
            record h { change_position = some (texts ++ commands_written ks) },
          ),
        )
  hatch_served impl a ks h s texts up f comes known w =
      let run =
        hatch_run (mqtt_client E rounds fuel) entity_rounds serialize impl a
          (received_of ks a.entity) h s texts (calls-Receives ks a.entity up f comes) known w in
      rw
        (
          ← received_of-length ks a.entity,
          ← received_of-after ks a.entity,
          ← received_of-written ks a.entity,
        )
        run
