-- ===== src/Examples/Makes.antt =====
-- An entity that the factory makes, at a concrete input.
use hhctrl_mgmt.Base.{◌≡◌, true, some, List, []}
use hhctrl_mgmt.Base.Outcome.{done}
use hhctrl_mgmt.Mqtt.Packet.{Will, Received, at_most_once, connect_packet}
use hhctrl_mgmt.Mqtt.Config.{Config, text, lookup}
use hhctrl_mgmt.Mqtt.Client.{Client, credential, on_net, async_send_con}
use hhctrl_mgmt.Mqtt.Bound.{BrokerConfig, mqtt_client}
use hhctrl_mgmt.Mqtt.Entity.{
  Entity, availability_topic, online, async_publish, async_set_availability,
}
use hhctrl_mgmt.Adapter.Factory.{button, announced_config, adapted}
use hhctrl_mgmt.Adapter.Factory.Laws.{adapted-availability}
use hhctrl_mgmt.Adapter.MainBoard.{restart_config}
use hhctrl_mgmt.Examples.Clients.{live}
use hhctrl_mgmt.Examples.Entities.{opts}

abbrev broker : BrokerConfig
broker = record {
  username = "mgmt";
  password = "";
  host = "broker";
  port = "1883";
  keep_alive_interval = 60;
  max_reconnect_attempts = 5;
  reconnect_delay = 10;
}

abbrev restart : Config
restart = restart_config (record {
  manufacturer = "M";
  model = "B";
  serial_number = "5";
  hw_revision = "1";
  sw_revision = "1";
})

adapted-availability_example :
    (e : Entity (Client (List Received))) × (will : Will) × (full : Config) × (adapted live 5 3
        broker []
        (λ c. "{}")
        button
        "5_0_restart_btn"
      ≡ done e)
    × (will.message ≡ "offline")
    × (will.pubopts ≡ record { qos = at_most_once; retain = true })
    × (async_send_con live e.client
        ≡ on_net live
            (live.send (
              connect_packet true 60 "5_0_restart_btn"
                (some will)
                (credential "mgmt")
                (credential "")))
            e.client)
    × (announced_config button e restart ≡ done full)
    × (lookup availability_topic full ≡ some (text will.topic))
    × (async_set_availability (mqtt_client live 5 3) online opts e
        ≡ async_publish (mqtt_client live 5 3) will.topic "online" opts e)
adapted-availability_example =
    adapted-availability live 5 3 broker [] (λ c. "{}") button "5_0_restart_btn" restart opts
