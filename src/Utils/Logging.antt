-- ===== src/Utils/Logging.antt =====
-- `get` of src/common/logger/include/logger/logger.hpp, and `log` with its short forms of
-- src/home_assistant_v2/include/home_assistant/mqtt/logger.hpp. The library spdlog is a parameter: its
-- registry of loggers by name, and what it does with a message that a logger is given.
pub mod Laws
use hhctrl_mgmt.Base.{
  ℕ, ◌≡◌, Bool, Option, none, some, List, [], ◌∷◌, String, if◌then◌else◌, str_eq,
}
use hhctrl_mgmt.Base.Outcome.{Outcome, done, thrown, after}

pub data Level : Type 0 where
  trace debug info warn err critical off : Level

pub data Sink : Type 0 where
  null_sink : Sink
  stdout_color_sink : (level : Level) → Sink
  rotating_file_sink : (filename : String) (max_size max_files : ℕ) → Sink

pub record Logger : Type 0 where
  pub name : String
  pub sinks : List Sink
  pub level : Level

pub record Spdlog : Type 1 where
  pub Registry : Type 0
  pub get : String → Registry → Option Logger
  pub register_logger : Logger → Registry → Outcome Registry
  pub create : Sink → String → Registry → Outcome (Logger × Registry)
  -- The level that the environment asks for, and its setting on all loggers.
  pub env_level : String → Level → Level
  pub load_env_levels : Registry → Registry

abbrev pub with_env_level : Spdlog → Option Logger → Option Logger
with_env_level S none = none
with_env_level S (some l) = some (record l { level = S.env_level l.name l.level })

-- spdlog as it is documented: a name is registered once, and `create` registers what it makes.
pub record IsSpdlog (S : Spdlog) : Type 0 where
  pub register_free :
      (l : Logger) (r : S.Registry)
      → S.get l.name r ≡ none
      → (r' : S.Registry) × (S.register_logger l r ≡ done r')
        × ((name : String) → S.get name r' ≡ (if str_eq name l.name then some l else S.get name r))
  pub register_taken :
      (l other : Logger) (r : S.Registry)
      → S.get l.name r ≡ some other
      → S.register_logger l r ≡ thrown
  pub create_free :
      (sink : Sink) (name : String) (r : S.Registry)
      → S.get name r ≡ none
      → (l : Logger) × (r' : S.Registry) × (S.create sink name r ≡ done (l, r'))
        × (l.name ≡ name)
        × (l.sinks ≡ sink ∷ [])
        × ((n : String) → S.get n r' ≡ (if str_eq n name then some l else S.get n r))
  pub load_env :
      (name : String) (r : S.Registry)
      → S.get name (S.load_env_levels r) ≡ with_env_level S (S.get name r)

module _ (S : Spdlog) where
  -- `common::logger::get`.
  unfoldable pub get : String → S.Registry → Outcome (Logger × S.Registry)
  get logger_name r = elim (S.get logger_name r) [
    | some log ↦ done (log, r)
    | none ↦ elim (S.get "null_logger" r) [
      | some null_logger ↦ done (null_logger, r)
      | none ↦ S.create null_sink "null_logger" r
    ]
  ]

  -- `mqtt::logger::log`: what the logger is given, if there is one.
  unfoldable pub log : String → Level → String → S.Registry → List (Logger × Level × String)
  log logger_name level text r = elim (S.get logger_name r) [
    | none ↦ []
    | some logger ↦ (logger, level, text) ∷ []
  ]
