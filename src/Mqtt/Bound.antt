-- ===== src/Mqtt/Bound.antt =====
-- The entities' client: `Mqtt.Client` over an endpoint, with the fuel of its loops. This is
-- `EntityClient` as src/home_assistant_adapter/include/home_assistant/client_factory.hpp makes it.
use hhctrl_mgmt.Base.{ℕ, true, String}
use hhctrl_mgmt.Mqtt.Client.{
  Endpoint, Client, new_client, async_connect, async_receive, async_publish, async_subscribe,
  set_will, try_reconnect,
}
use hhctrl_mgmt.Mqtt.Entity.{EntityClient}

-- `BrokerConfig`, of src/home_assistant_adapter/include/home_assistant/adapter/broker_config.hpp.
pub record BrokerConfig : Type 0 where
  pub username : String
  pub password : String
  pub host : String
  pub port : String
  pub keep_alive_interval : ℕ
  pub max_reconnect_attempts : ℕ
  pub reconnect_delay : ℕ

-- `MqttClientFactory::create_client`.
unfoldable pub create_client : (E : Endpoint) → BrokerConfig → String → E.Net → Client (E.Net)
create_client E config unique_id net =
    new_client E
      (record {
        unique_id = unique_id;
        username = config.username;
        password = config.password;
        host = config.host;
        port = config.port;
        clean_session = true;
        keep_alive = config.keep_alive_interval;
        max_attempts = config.max_reconnect_attempts;
        reconnect_delay = config.reconnect_delay;
      })
      net

abbrev pub mqtt_client : Endpoint → ℕ → ℕ → EntityClient
mqtt_client E rounds fuel = record {
  State = Client (E.Net);
  async_connect = async_connect E (try_reconnect E fuel);
  async_receive = async_receive E rounds fuel;
  async_publish = async_publish E;
  async_subscribe = async_subscribe E;
  set_will = set_will E;
}
