-- ===== src/App/Config.antt =====
-- src/app/app_config.cpp and src/home_assistant_adapter/include/home_assistant/client_config.hpp: the
-- program's configuration, read from a JSON file. Its numbers are not negative.
pub mod Laws
use hhctrl_mgmt.Base.{
  ℕ, ◌^◌, ◌<◌, ◌≡◌, refl, Bool, true, false, not, Option, none, some, List, String, ltb,
  if◌then◌else◌, arith,
}
use hhctrl_mgmt.Base.Outcome.{Outcome, done, thrown, stuck, after}
use hhctrl_mgmt.Utils.Streams.{Stream, StreamParser, read_json}
use hhctrl_mgmt.Platform.Pdtree.{
  PdTreeValue, text, number, array, object, other, PdTreeObject, at, as_object,
}
use hhctrl_mgmt.Mqtt.Bound.{BrokerConfig}

pub record EntityClientConfig : Type 0 where
  pub username : String
  pub password : String
  pub server_address : String
  pub server_port : ℕ
  pub keep_alive_interval : ℕ
  pub max_reconnect_attempts : ℕ
  pub reconnect_delay : ℕ

pub record AppConfig : Type 0 where
  pub log_dir : String
  pub dtree_file : String
  pub entity_client_config : EntityClientConfig

-- `value_to<std::string>`.
abbrev pub value_to_string : PdTreeValue → Outcome String
value_to_string (text s) = done s
value_to_string _ = thrown

-- `value_to` of an integer type with values below this bound, which boost::json documents to throw for
-- a number that the type cannot hold.
abbrev pub value_to_below : ℕ → PdTreeValue → Outcome ℕ
value_to_below bound (number n) = if ltb n bound then done n else thrown
value_to_below bound _ = thrown

abbrev pub field : {A : Type 0} → (PdTreeValue → Outcome A) → String → PdTreeObject → Outcome A
field read key obj = after (at key obj) read

-- `tag_invoke` for `EntityClientConfig`.
unfoldable pub read_client_config : PdTreeValue → Outcome EntityClientConfig
read_client_config jvalue = after (as_object jvalue) λ obj.
    after (field value_to_string "username" obj) λ username.
      after (field value_to_string "password" obj) λ password.
        after (field value_to_string "server_address" obj) λ address.
          after (field (value_to_below (2 ^ 31)) "server_port" obj) λ port.
            after (field (value_to_below (2 ^ 16)) "keep_alive_interval" obj) λ interval.
              after (field (value_to_below (2 ^ 31)) "max_reconnect_attempts" obj) λ attempts.
                after (field (value_to_below (2 ^ 31)) "reconnect_delay_seconds" obj) λ delay.
                  done (record {
                    username = username;
                    password = password;
                    server_address = address;
                    server_port = port;
                    keep_alive_interval = interval;
                    max_reconnect_attempts = attempts;
                    reconnect_delay = delay;
                  })

-- `tag_invoke` for `AppConfig`.
unfoldable pub read_app_config : PdTreeValue → Outcome AppConfig
unfolding read_client_config
read_app_config jvalue = after (as_object jvalue) λ obj.
    after (field value_to_string "log_dir" obj) λ log_dir.
      after (field value_to_string "dtree_file" obj) λ dtree_file.
        after (field read_client_config "entity_client_config" obj) λ config.
          done
            (record { log_dir = log_dir; dtree_file = dtree_file; entity_client_config = config })

unfoldable pub load_config : StreamParser PdTreeValue → ℕ → Stream → Outcome AppConfig
unfolding read_json read_app_config
load_config P fuel file =
    if not file.is_open
    then thrown
    else after (read_json P fuel file)
        λ val. elim val [ none ↦ thrown | some jvalue ↦ read_app_config jvalue ]

-- The `BrokerConfig` that `home_assistant_init` makes; `to_string` is that of a number.
unfoldable pub broker_config : (ℕ → String) → EntityClientConfig → BrokerConfig
broker_config to_string config = record {
  username = config.username;
  password = config.password;
  host = config.server_address;
  port = to_string config.server_port;
  keep_alive_interval = config.keep_alive_interval;
  max_reconnect_attempts = config.max_reconnect_attempts;
  reconnect_delay = config.reconnect_delay;
}
