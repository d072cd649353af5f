-- ===== src/Examples/Entities.antt =====
-- The entities, on the client over a scripted endpoint, at concrete inputs.
use hhctrl_mgmt.Base.{ℕ, ◌≡◌, refl, true, none, some, List, [], ◌∷◌, String, arith, eq_iff}
use hhctrl_mgmt.Base.Outcome.{done, thrown}
use hhctrl_mgmt.Utils.StaticMap.{at_value}
use hhctrl_mgmt.Mqtt.Packet.{
  at_least_once, Pubopts, Publish, connack, publish, puback, suback, other, Received, packet,
  puback_result, suback_result,
}
use hhctrl_mgmt.Mqtt.Client.{Client, async_receive, async_publish}
use hhctrl_mgmt.Mqtt.Entity.{
  EntityClient, Entity, topic, has, async_receive as entity_receive, async_set_config,
}
use hhctrl_mgmt.Mqtt.Entity.Acks.{async_set_config_pending}
use hhctrl_mgmt.Mqtt.Bound.{mqtt_client}
use hhctrl_mgmt.Mqtt.Cover.{open_command, close_command, cover_receive}
use hhctrl_mgmt.Mqtt.Cover.Commands.{cover_receive_throws}
use hhctrl_mgmt.Adapter.Lifecycle.{Adapter, Impl, async_run_round, async_run}
use hhctrl_mgmt.Base.Maps.{lookup as lookup_id}
use hhctrl_mgmt.Device.Registry.{get}
use hhctrl_mgmt.Board.Hardware.{sync, reboot}
use hhctrl_mgmt.Adapter.MainBoard.Running.{button_ops, restart_recv, restart_round}
use hhctrl_mgmt.Adapter.Hatch.Rounds.{cover_ops}
use hhctrl_mgmt.Adapter.Hatch.Served.{Call, hatch_served}
use hhctrl_mgmt.Adapter.Hatch.Changes.{HatchAdapter}
use hhctrl_mgmt.Adapter.Handlers.{Held}
use hhctrl_mgmt.Poller.Devices.{Poller}
use hhctrl_mgmt.Adapter.Hatch.{HatchState, SysfsHatch, closed, status, hatch_recv}
use hhctrl_mgmt.Examples.Clients.{live, client}

abbrev pub entity_client : EntityClient
entity_client = mqtt_client live 5 3

abbrev pub entity : List Received → Entity (Client (List Received))
entity net = record {
  entity_name = "cover";
  unique_id = "5_3";
  client = client true net;
  pending_puback = [];
}

abbrev pub opts : Pubopts
opts = record { qos = at_least_once; retain = true }

abbrev pub message : String → String → Publish
message topic payload = record { packet_id = 4; topic = topic; payload = payload; opts = opts }

async_set_config_pending_example :
    (e' : Entity (Client (List Received))) × (async_set_config entity_client
        (λ c. "{}")
        []
        opts
        (entity (packet (puback 99) ∷ []))
      ≡ done (none, e'))
    × (has 1 e'.pending_puback ≡ true)
unfolding async_receive async_publish
async_set_config_pending_example =
    async_set_config_pending entity_client (λ c. "{}") [] opts (entity (packet (puback 99) ∷ [])) 1
      99 (client true (packet (puback 99) ∷ [])) (client true []) refl refl refl

cover_receive_throws_example :
    cover_receive entity_client 3 (entity (packet (publish (message "cover_5_3/set" "tilt")) ∷ []))
    ≡ thrown
unfolding entity_receive async_receive
cover_receive_throws_example =
    cover_receive_throws entity_client 3
      (entity (packet (publish (message "cover_5_3/set" "tilt")) ∷ [])) (entity [])
      (message "cover_5_3/set" "tilt") refl refl (λ p. ground (arith, eq_iff "tilt" "open", p))
      (λ p. ground (arith, eq_iff "tilt" "close", p)) (λ p. ground (arith, eq_iff "tilt" "stop", p))

abbrev hatch_impl : Impl (cover_ops entity_client 3 (λ c. "{}"))
hatch_impl = record { config = []; state = none }

abbrev pub shut_hatch : SysfsHatch
shut_hatch = record { status_attr = some "closed"; change_position = some [] }

abbrev pub cover_with : List Received → Adapter (cover_ops entity_client 3 (λ c. "{}"))
cover_with net = record { entity = entity net; waited = [] }

-- A packet that the client drops, a puback and a command, and then a suback and a command.
abbrev close_call : Call
close_call = record {
  acks = (connack 0 ∷ [], puback_result 9) ∷ [];
  dropped = other ∷ [];
  message = message "cover_5_3/set" "close";
  command = close_command;
}

abbrev open_call : Call
open_call = record {
  acks = ([], suback_result (1 ∷ [])) ∷ [];
  dropped = [];
  message = message "cover_5_3/set" "open";
  command = open_command;
}

abbrev incoming : List Received
incoming =
    packet (connack 0)
    ∷ packet (puback 9)
    ∷ packet other
    ∷ packet (publish (message "cover_5_3/set" "close"))
    ∷ packet (suback (1 ∷ []))
    ∷ packet (publish (message "cover_5_3/set" "open"))
    ∷ []

hatch_served_example :
    async_run
      (cover_ops entity_client 3 (λ c. "{}"))
      2
      hatch_impl
      hatch_recv
      (cover_with incoming, shut_hatch)
    ≡ done
        (tt, (cover_with [], record shut_hatch { change_position = some ("close" ∷ "open" ∷ []) }))
unfolding status at_value
hatch_served_example =
    hatch_served live 5 3 3 (λ c. "{}") hatch_impl (cover_with incoming)
      (close_call ∷ open_call ∷ []) shut_hatch closed [] refl
      (
        record {
          acknowledged = ((refl, ((refl, tt), omega arith)), tt);
          few = omega arith;
          dropped_few = ((refl, tt), omega arith);
          on_topic = refl;
          commanded = refl;
        },
        (
          record {
            acknowledged = ((refl, (tt, omega arith)), tt);
            few = omega arith;
            dropped_few = (tt, omega arith);
            on_topic = refl;
            commanded = refl;
          },
          tt,
        ),
      )
      (refl, (refl, (refl, (refl, (refl, (refl, tt)))))) refl refl

abbrev pub held_at : ℕ → Held (HatchAdapter entity_client 3 (λ c. "{}"))
held_at id = record { device_id = id; adapter = cover_with [] }

abbrev pub hatch_poller : Poller ℕ
hatch_poller = record { device_id = 2; cached = 0; published = [] }

abbrev hash_of : HatchState → ℕ
hash_of state = 3

restart_round_example :
    async_run_round
      (button_ops entity_client 3 (λ c. "{}"))
      (record { config = []; state = none })
      (restart_recv ((1, []) ∷ []) 1)
      (
        record {
          entity = entity (packet (publish (message "button_5_1/set" "press")) ∷ []);
          waited = [];
        },
        [],
      )
    ≡ done (tt, (record { entity = entity []; waited = [] }, sync ∷ reboot ∷ []))
unfolding entity_receive async_receive get lookup_id
restart_round_example =
    restart_round entity_client 3 (λ c. "{}") (record { config = []; state = none })
      (record {
        entity = entity (packet (publish (message "button_5_1/set" "press")) ∷ []);
        waited = [];
      })
      (entity []) (message "button_5_1/set" "press") [] ((1, []) ∷ []) 1 [] refl refl
