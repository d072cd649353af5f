-- ===== src/Mqtt/Entity.antt =====
-- `Entity` of src/home_assistant_v2/include/home_assistant/mqtt/entity.hpp. It is a template on its
-- client, which is the parameter `EntityClient` here; `Mqtt.Bound` gives it the client of
-- `Mqtt.Client`. The text that `boost::json::serialize` makes of a configuration is a parameter too.
pub mod Acks
use hhctrl_mgmt.Base.{
  ℕ, zero, suc, ◌+◌, ◌≡◌, refl, Bool, true, false, not, Option, none, some, List, [], ◌∷◌, map,
  arith, ◌==◌, String, if◌then◌else◌, any_of, erase_if,
}
use Prim.Native.String.{◌++◌}
use hhctrl_mgmt.Base.Outcome.{
  Outcome, done, thrown, stuck, M, ◌>>=◌, ◌>>◌, pure, get, modify, after,
}
use hhctrl_mgmt.Mqtt.Error.{
  Fault, Error, Expected, value, unexpected, fault, invalid_config, subscription_failure,
}
use hhctrl_mgmt.Mqtt.Packet.{
  Qos, Pubopts, Publish, Result, publish_result, puback_result, suback_result, Will,
  any_suback_failure, is_at_most_once,
}
use hhctrl_mgmt.Mqtt.Config.{Json, text, Config, set_override}

pub record EntityClient : Type 1 where
  pub State : Type 0
  pub async_connect : M State Error
  pub async_receive : M State (Expected Result)
  pub async_publish : String → String → Pubopts → M State (Expected ℕ)
  pub async_subscribe : List String → M State (Expected ℕ)
  pub set_will : Will → M State (Unit {0})

pub data Availability : Type 0 where
  offline online : Availability

-- `AvailabilityStateMapper`.
abbrev pub availability_text : Availability → String
availability_text offline = "offline"
availability_text online = "online"

abbrev pub availability_topic : String
availability_topic = "availability_topic"

abbrev pub json_attributes_topic : String
json_attributes_topic = "json_attributes_topic"

abbrev pub json_attributes_template : String
json_attributes_template = "json_attributes_template"

pub record Entity (State : Type 0) : Type 0 where
  pub entity_name : String
  pub unique_id : String
  pub client : State
  pub pending_puback : List ℕ

abbrev pub topic : {S : Type 0} → Entity S → String → String
topic e t = e.entity_name ++ "_" ++ e.unique_id ++ "/" ++ t

abbrev pub has : ℕ → List ℕ → Bool
has id = any_of (λ x. x == id)

-- `unordered_set`.
abbrev pub insert_id : ℕ → List ℕ → List ℕ
insert_id id ids = if has id ids then ids else id ∷ ids

abbrev pub erase_id : ℕ → List ℕ → List ℕ
erase_id id = erase_if (λ x. x == id)

module _ (C : EntityClient) where
  open C use {
    State, async_connect as connect, async_receive as receive, async_publish as publish,
    async_subscribe as subscribe,
  }

  -- A call of the entity's client.
  abbrev pub on_client : {A : Type 0} → M State A → M (Entity State) A
  on_client m e = after (m e.client) (λ r. done (r.0, record e { client = r.1 }))

  unfoldable pub new_entity : String → String → State → Entity State
  new_entity name uid client = record {
    entity_name = name;
    unique_id = uid;
    client = client;
    pending_puback = [];
  }

  unfoldable pub async_connect : M (Entity State) Error
  async_connect = on_client connect

  unfoldable pub set_will : Will → M (Entity State) (Unit {0})
  set_will will = on_client (C.set_will will)

  unfoldable pub async_publish : String → String → Pubopts → M (Entity State) Error
  async_publish topic payload opts = do
    result ← on_client (publish topic payload opts)
    elim result [
      | unexpected f ↦ pure (some f)
      | value id ↦ do
        modify (λ e. record e {
          pending_puback =
              if is_at_most_once opts.qos then e.pending_puback else insert_id id e.pending_puback;
        })
        pure none
    ]

  -- The loop of `async_receive`, at most `rounds` packets long.
  unfoldable pub async_receive : ℕ → M (Entity State) (Expected Publish)
  async_receive zero e = stuck
  async_receive (suc rounds) e =
      (do
        result ← on_client receive
        elim result [
          | unexpected f ↦ pure (unexpected f)
          | value r ↦ elim r [
            | publish_result m ↦ pure (value m)
            | suback_result codes ↦ elim (any_suback_failure codes) [
              | true ↦ pure (unexpected (fault subscription_failure ""))
              | false ↦ async_receive rounds
            ]
            | puback_result id ↦ do
              modify (λ d. record d { pending_puback = erase_id id d.pending_puback })
              async_receive rounds
          ]
        ])
        e

  unfoldable pub async_set_config : (Config → String) → Config → Pubopts → M (Entity State) Error
  unfolding async_publish set_override
  async_set_config serialize config opts = do
    e ← get
    error ←
        async_publish ("homeassistant/" ++ e.entity_name ++ "/" ++ e.unique_id ++ "/config")
          (serialize (set_override "unique_id" (text e.unique_id) config)) opts
    elim error [
      | some f ↦ pure (some (fault invalid_config f.what))
      | none ↦ elim (is_at_most_once opts.qos) [
        | true ↦ pure none
        | false ↦ do
          result ← on_client receive
          elim result [
            | unexpected f ↦ pure (some (fault invalid_config f.what))
            | value r ↦ elim r [
              | puback_result _ ↦ pure none
              | publish_result _ ↦
                  pure (some (fault invalid_config "Expected PublishAckPacket_t was not received"))
              | suback_result _ ↦
                  pure (some (fault invalid_config "Expected PublishAckPacket_t was not received"))
            ]
          ]
      ]
    ]

  unfoldable pub async_set_availability : Availability → Pubopts → M (Entity State) Error
  unfolding async_publish
  async_set_availability availability opts = do
    e ← get
    async_publish (topic e availability_topic) (availability_text availability) opts

  unfoldable pub async_subscribe : List String → M (Entity State) Error
  async_subscribe topics = do
    result ← on_client (subscribe topics)
    elim result [
      | unexpected f ↦ pure (some (fault subscription_failure f.what))
      | value _ ↦ do
        acknowledged ← on_client receive
        elim acknowledged [
          | unexpected f ↦ pure (some (fault subscription_failure f.what))
          | value r ↦ elim r [
            | suback_result codes ↦ elim (any_suback_failure codes) [
              | true ↦ pure (
                  some (
                    fault subscription_failure
                      "One of the subscribed topic has not received the required subscription acknowledge"))
              | false ↦ pure none
            ]
            | publish_result _ ↦ pure (
                some
                  (fault subscription_failure "Expected SubscriptionAckPacket_t was not received"))
            | puback_result _ ↦ pure (
                some
                  (fault subscription_failure "Expected SubscriptionAckPacket_t was not received"))
          ]
        ]
    ]
