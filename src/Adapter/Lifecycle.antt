-- ===== src/Adapter/Lifecycle.antt =====
-- `EntityAdapter` of src/home_assistant_adapter/include/home_assistant/adapter/entity_adapter.hpp, over
-- the operations of its entity. A wait on a timer is recorded, in seconds.
pub mod Laws
use hhctrl_mgmt.Base.{
  ℕ, zero, suc, ◌≡◌, Bool, true, false, not, Option, none, some, List, [], ◌∷◌, ◌++◌, String,
  if◌then◌else◌, ◌==◌,
}
use hhctrl_mgmt.Base.Outcome.{
  Outcome, done, thrown, stuck, M, ◌>>=◌, ◌>>◌, pure, get, modify, after, lift,
}
use hhctrl_mgmt.Mqtt.Error.{
  Code, mqtt, system, Fault, Error, Expected, value, unexpected, disconnected, reconnected,
  enumerator,
}
use hhctrl_mgmt.Mqtt.Packet.{Pubopts, Will, at_least_once, at_most_once}
use hhctrl_mgmt.Mqtt.Config.{Config}
use hhctrl_mgmt.Mqtt.Entity.{Availability, online, offline, availability_text}

-- What the adapter uses of an entity: `Value` is what it receives, `EntityState` what it is set to.
pub record EntityOps : Type 1 where
  pub State : Type 0
  pub Value : Type 0
  pub EntityState : Type 0
  pub availability : State → String
  pub set_will : Will → M State (Unit {0})
  pub async_connect : M State Error
  pub async_configure : Config → Pubopts → M State Error
  pub async_set_availability : Availability → Pubopts → M State Error
  pub async_set_state : EntityState → Pubopts → M State Error
  pub async_receive : M State (Expected Value)

-- `AdapterDefaultPubopts`.
abbrev pub default_pubopts : Pubopts
default_pubopts = record { qos = at_least_once; retain = true }

abbrev pub init_retry_attempts : ℕ
init_retry_attempts = 10

abbrev pub init_retry_delay : ℕ
init_retry_delay = 60

abbrev pub is_code : Code → Code → Bool
is_code (mqtt a) (mqtt b) = enumerator a == enumerator b
is_code _ _ = false

module _ (E : EntityOps) where
  pub record Adapter : Type 0 where
    pub entity : E.State
    pub waited : List ℕ

  -- What the derived class gives: its configuration, and its state, where it has one.
  pub record Impl : Type 0 where
    pub config : Config
    pub state : Option (Outcome (E.EntityState))

  abbrev on_entity : {A : Type 0} → M (E.State) A → M Adapter A
  on_entity m a = after (m a.entity) (λ r. done (r.0, record a { entity = r.1 }))

  abbrev wait : ℕ → M Adapter (Unit {0})
  wait seconds = modify (λ a. record a { waited = a.waited ++ (seconds ∷ []) })

  -- The constructor.
  unfoldable pub new_adapter : E.State → Outcome Adapter
  new_adapter entity =
      after
        (E.set_will
          (record {
            topic = E.availability entity;
            message = availability_text offline;
            pubopts = record { qos = at_most_once; retain = true };
          })
          entity)
        (λ r. done (record { entity = r.1; waited = [] }))

  unfoldable pub async_connect : M Adapter Error
  async_connect = on_entity (E.async_connect)

  unfoldable pub async_sync_state : Impl → M Adapter (Unit {0})
  async_sync_state impl = elim impl.state [
    | none ↦ pure tt
    | some current ↦ do
      state ← lift current
      error ← on_entity (E.async_set_state state default_pubopts)
      pure tt
  ]

  unfoldable pub async_configure : Impl → M Adapter Bool
  unfolding async_sync_state
  async_configure impl = do
    error ← on_entity (E.async_configure impl.config default_pubopts)
    elim error [
      | some f ↦ pure false
      | none ↦ do
        wait 1
        ignored ← on_entity (E.async_set_availability online default_pubopts)
        async_sync_state impl
        pure true
    ]

  -- The loop of `async_init`, with the attempts that are left and the last error.
  unfoldable pub connect_attempts : ℕ → Error → M Adapter Error
  unfolding async_connect
  connect_attempts zero error a = done (error, a)
  connect_attempts (suc left) last a =
      (do
        error ← async_connect
        elim error [
          | none ↦ pure none
          | some f ↦ do wait init_retry_delay; connect_attempts left (some f)
        ])
        a

  unfoldable pub async_init : Impl → M Adapter Bool
  unfolding connect_attempts async_configure
  async_init impl = do
    error ← connect_attempts init_retry_attempts none
    elim error [
      | some f ↦ pure false
      | none ↦ do
        configured ← async_configure impl
        elim configured [ false ↦ pure false | true ↦ pure true ]
    ]

  unfoldable pub async_handle_disconnected_error : Impl → M Adapter Bool
  unfolding async_connect async_configure
  async_handle_disconnected_error impl = do
    error ← async_connect
    elim error [ some f ↦ pure false | none ↦ async_configure impl ]

  unfoldable pub async_handle_reconnected_error : Impl → M Adapter Bool
  unfolding async_configure
  async_handle_reconnected_error impl = async_configure impl

  -- Whether the error was recovered from, which the source only logs.
  unfoldable pub async_handle_error : Impl → Fault → M Adapter Bool
  unfolding async_handle_disconnected_error async_handle_reconnected_error
  async_handle_error impl error =
      if is_code error.code (mqtt disconnected)
      then async_handle_disconnected_error impl
      else if is_code error.code (mqtt reconnected)
      then async_handle_reconnected_error impl
      else pure false

  -- One round of `async_run`, which repeats it for ever. `handle` is the derived class's
  -- `async_handle_recv_value`; what it changes, the devices, is a state of its own.
  unfoldable pub async_run_round :
      {D : Type 0} → Impl → (E.Value → M D (Unit {0})) → M (Adapter × D) (Unit {0})
  unfolding async_handle_error
  async_run_round impl handle (a, d) = after (on_entity (E.async_receive) a) λ r. elim r.0 [
    | value v ↦ after (handle v d) (λ h. done (tt, (r.1, h.1)))
    | unexpected f ↦ after (async_handle_error impl f r.1) (λ h. done (tt, (h.1, d)))
  ]

  -- The first rounds of `async_run`, which has no last one.
  unfoldable pub async_run :
      {D : Type 0} → ℕ → Impl → (E.Value → M D (Unit {0})) → M (Adapter × D) (Unit {0})
  unfolding async_run_round
  async_run zero impl handle = pure tt
  async_run (suc rounds) impl handle = do async_run_round impl handle; async_run rounds impl handle

  -- One round for an entity whose `async_receive` gives an error only, as a sensor's does: `Error{}`, which
  -- it gives for a packet, is handled like an error, as one of a code that is not recognised.
  unfoldable pub async_run_error_round : Impl → M (E.State) Error → M Adapter (Unit {0})
  unfolding async_handle_error
  async_run_error_round impl receive = do
    error ← on_entity receive
    elim error [ none ↦ pure tt | some f ↦ do recovered ← async_handle_error impl f; pure tt ]
