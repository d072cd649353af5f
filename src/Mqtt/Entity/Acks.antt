-- ===== src/Mqtt/Entity/Acks.antt =====
-- Acknowledgements: which packet confirms what.
use Prim.Native.String.{◌++◌}
use hhctrl_mgmt.Base.{
  ℕ, zero, suc, ◌<◌, ◌≡◌, inl, inr, refl, Bool, true, false, not, none, some, List, [], ◌∷◌, arith,
  ◌==◌, String, if◌then◌else◌, All, length, is_some, Bool-cases,
}
use hhctrl_mgmt.Base.Outcome.{done}
use hhctrl_mgmt.Mqtt.Error.{Error, Expected, value, unexpected, fault, subscription_failure}
use hhctrl_mgmt.Mqtt.Packet.{
  Pubopts, Publish, Result, publish_result, puback_result, suback_result, any_suback_failure,
  is_at_most_once,
}
use hhctrl_mgmt.Mqtt.Config.{text, Config, set_override}
use hhctrl_mgmt.Mqtt.Entity.{
  EntityClient, Entity, has, insert_id, erase_id, async_receive, async_set_config, async_subscribe,
}

-- A packet that `async_receive` takes in without returning.
abbrev pub is_ack : Result → Bool
is_ack (publish_result m) = false
is_ack (puback_result id) = true
is_ack (suback_result codes) = not (any_suback_failure codes)

-- A suback that refuses none of the topics.
abbrev pub confirms : Expected Result → Bool
confirms (value (suback_result codes)) = not (any_suback_failure codes)
confirms _ = false

-- The ids still pending after the packets.
abbrev pub still_pending : List Result → List ℕ → List ℕ
still_pending [] ids = ids
still_pending (puback_result id ∷ rs) ids = still_pending rs (erase_id id ids)
still_pending (publish_result m ∷ rs) ids = still_pending rs ids
still_pending (suback_result codes ∷ rs) ids = still_pending rs ids

has-erase_id :
    (id j : ℕ) (ids : List ℕ) → has j (erase_id id ids) ≡ (if id == j then false else has j ids)
has-erase_id id j [] = ground arith
has-erase_id id j (k ∷ ids) = ground (arith, has-erase_id id j ids)

has-insert_id : (id : ℕ) (ids : List ℕ) → has id (insert_id id ids) ≡ true
has-insert_id id ids = ground arith

module _ (C : EntityClient) where
  -- The client receives these results, one after another, between two of its states.
  abbrev pub Gives : List Result → C.State → C.State → Type 0
  Gives [] s s' = s ≡ s'
  Gives (r ∷ rs) s s' = (t : C.State) × (C.async_receive s ≡ done (value r, t)) × Gives rs t s'

  -- When the client receives any number of acknowledgements and then a publish packet,
  -- `async_receive` returns that packet, and strikes the id of every puback among them off the
  -- pending ones. A round for each packet is enough.
  pub async_receive_acks :
      (rs : List Result) (m : Publish) (rounds : ℕ) (e : Entity (C.State)) (before behind : C.State)
      → All (λ r. is_ack r ≡ true) rs
      → Gives rs e.client before
      → C.async_receive before ≡ done (value (publish_result m), behind)
      → length rs < rounds
      → async_receive C rounds e
        ≡ done (
          value m,
          record e { client = behind; pending_puback = still_pending rs e.pending_puback },
        )
  unfolding async_receive
  async_receive_acks rs m zero e before behind a g h l = absurd (omega arith)
  async_receive_acks [] m (suc rounds) e before behind a g h l = ground arith
  async_receive_acks (puback_result id ∷ rs) m (suc rounds) e before behind a (t, r, g) h l =
      ground (
        arith,
        r,
        async_receive_acks rs m rounds
            (record e { client = t; pending_puback = erase_id id e.pending_puback }) before behind
            a.1 g h (omega arith),
      )
  async_receive_acks (suback_result codes ∷ rs) m (suc rounds) e before behind a (t, r, g) h l =
      ground (
        arith,
        r,
        a.0,
        async_receive_acks rs m rounds (record e { client = t }) before behind a.1 g h
            (omega arith),
      )
  async_receive_acks (publish_result p ∷ rs) m (suc rounds) e before behind a g h l = cc (a.0)

  -- Configuring at a quality of service above "at most once", once the configuration is published,
  -- waits for one packet, and takes any puback for its confirmation, of whatever id. The id of the
  -- configuration itself stays among the pending ones.
  pub async_set_config_pending :
      (serialize : Config → String) (config : Config) (opts : Pubopts) (e : Entity (C.State))
      (id acked : ℕ) (sent confirmed : C.State)
      → is_at_most_once opts.qos ≡ false
      → C.async_publish
          ("homeassistant/" ++ e.entity_name ++ "/" ++ e.unique_id ++ "/config")
          (serialize (set_override "unique_id" (text e.unique_id) config))
          opts
          e.client
        ≡ done (value id, sent)
      → C.async_receive sent ≡ done (value (puback_result acked), confirmed)
      → (e' : Entity (C.State)) × (async_set_config C serialize config opts e ≡ done (none, e'))
        × (has id e'.pending_puback ≡ true)
  unfolding async_set_config
  async_set_config_pending serialize config opts e id acked sent confirmed q p r = (
    record e { client = confirmed; pending_puback = insert_id id e.pending_puback },
    ground arith,
    has-insert_id id e.pending_puback,
  )

  -- A subscription that was sent succeeds exactly when the next packet is a suback that refuses
  -- none of its topics; anything else in its place makes it fail.
  async_subscribe_confirmed :
      (topics : List String) (e : Entity (C.State)) (id : ℕ) (sent answered : C.State)
      (answer : Expected Result)
      → C.async_subscribe topics e.client ≡ done (value id, sent)
      → C.async_receive sent ≡ done (answer, answered)
      → (error : Error) × (async_subscribe C topics e
          ≡ done (error, record e { client = answered }))
        × (is_some error ≡ not (confirms answer))
  unfolding async_subscribe
  async_subscribe_confirmed topics e id sent answered (unexpected f) p q =
      (some (fault subscription_failure f.what), ground arith, refl)
  async_subscribe_confirmed topics e id sent answered (value (suback_result codes)) p q =
      elim (Bool-cases (any_suback_failure codes)) [
        | inl bad ↦ (
          some (
              fault subscription_failure
                "One of the subscribed topic has not received the required subscription acknowledge"),
          ground (arith, bad),
          rw bad,
        )
        | inr good ↦ (none, ground (arith, good), rw good)
      ]
  async_subscribe_confirmed topics e id sent answered (value (publish_result m)) p q = (
    some (fault subscription_failure "Expected SubscriptionAckPacket_t was not received"),
    ground arith,
    refl,
  )
  async_subscribe_confirmed topics e id sent answered (value (puback_result m)) p q = (
    some (fault subscription_failure "Expected SubscriptionAckPacket_t was not received"),
    ground arith,
    refl,
  )
