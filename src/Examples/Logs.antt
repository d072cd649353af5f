-- ===== src/Examples/Logs.antt =====
-- The loggers at concrete inputs, on a registry that is a list.
use hhctrl_mgmt.Base.{
  ◌≡◌, refl, true, Option, none, some, List, [], ◌∷◌, String, str_eq, if◌then◌else◌, is_some,
}
use hhctrl_mgmt.Base.Outcome.{Outcome, done, thrown}
use hhctrl_mgmt.Utils.Logging.{trace, Logger, Spdlog, IsSpdlog, with_env_level}
use hhctrl_mgmt.App.Logger.{logger_init, Logging}
use hhctrl_mgmt.App.Logger.Laws.{loggers, found_in, logger_init_lem, CanLog}

abbrev find_logger : String → List Logger → Option Logger
find_logger name [] = none
find_logger name (l ∷ r) = if str_eq name l.name then some l else find_logger name r

abbrev add_logger : Logger → List Logger → Outcome (List Logger)
add_logger l r = if is_some (find_logger l.name r) then thrown else done (l ∷ r)

-- The environment asks for no levels.
abbrev pub spdlog : Spdlog
spdlog = record {
  Registry = List Logger;
  get = find_logger;
  register_logger = add_logger;
  create = λ sink name r. done (
    record { name = name; sinks = sink ∷ []; level = trace },
    record { name = name; sinks = sink ∷ []; level = trace } ∷ r,
  );
  env_level = λ name level. level;
  load_env_levels = λ r. r;
}

with_env_level-same : (o : Option Logger) → o ≡ with_env_level spdlog o
with_env_level-same none = refl
with_env_level-same (some l) = refl

pub spdlog-IsSpdlog : IsSpdlog spdlog
spdlog-IsSpdlog = record {
  register_free = λ l r e. (l ∷ r, simp e refl, λ name. refl);
  register_taken = λ l other r e. simp e refl;
  create_free = λ sink name r e. (_, _, refl, refl, refl, λ n. refl);
  load_env = λ name r. with_env_level-same (find_logger name r);
}

logger_init_lem_example :
    (r' : List Logger) × (logger_init spdlog (λ file. true) "hhctrl" "/log" [] ≡ done (tt, r'))
    × ((n : String)
        → spdlog.get n r'
          ≡ with_env_level spdlog
              (found_in spdlog spdlog-IsSpdlog (λ file. true) "hhctrl" "/log" n loggers none))
    × (logger_init spdlog (λ file. true) "hhctrl" "/tmp" r' ≡ thrown)
logger_init_lem_example =
    logger_init_lem spdlog spdlog-IsSpdlog (λ file. true) "hhctrl" "/log" "/tmp" [] (λ e. refl)
      (refl, (refl, (refl, (refl, (refl, (refl, (refl, tt)))))))

abbrev pub logging : Logging
logging = record { spdlog = spdlog; registry = []; opens = λ file. true; current_name = "hhctrl" }

pub logging-CanLog : CanLog logging "/log"
logging-CanLog = record {
  works = spdlog-IsSpdlog;
  writable = λ e. refl;
  free = (refl, (refl, (refl, (refl, (refl, (refl, (refl, tt)))))));
}
