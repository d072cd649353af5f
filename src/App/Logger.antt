-- ===== src/App/Logger.antt =====
-- src/app/logger.cpp: the loggers of the program, on any registry of loggers. The name of the process,
-- which `current_name` reads, and the constructor of a file sink, which opens its file, are parameters.
pub mod Laws
use Prim.Native.String.{◌++◌}
use hhctrl_mgmt.Base.{
  ℕ, ◌*◌, Bool, true, false, List, [], ◌∷◌, ◌++◌ as append, String, str_eq, if◌then◌else◌, not,
}
use hhctrl_mgmt.Base.Outcome.{Outcome, done, thrown, after, M, lift, modify, ◌>>=◌, ◌>>◌, pure}
use hhctrl_mgmt.Utils.Logging.{
  Level, trace, debug, Sink, stdout_color_sink, rotating_file_sink, Logger, Spdlog,
}

abbrev pub rotate_size : ℕ
rotate_size = 1024 * 1024 * 10

abbrev pub max_files : ℕ
max_files = 3

module _ (S : Spdlog) (opens : String → Bool) (current_name : String) where
  -- `make_shared<rotating_file_sink_mt>`.
  abbrev pub make_file_sink : String → Outcome Sink
  make_file_sink filename =
      if opens filename then done (rotating_file_sink filename rotate_size max_files) else thrown

  unfoldable pub setup_sinks : Level → String → Outcome (List Sink)
  setup_sinks level log_dir =
      let sinks = stdout_color_sink level ∷ [] in
      if not (str_eq log_dir "")
      then after (make_file_sink (log_dir ++ "/" ++ current_name ++ ".txt"))
          (λ sink. done (append sinks (sink ∷ [])))
      else done sinks

  unfoldable pub setup_logger : String → Level → String → M (S.Registry) (Unit {0})
  unfolding setup_sinks
  setup_logger logger_name level log_dir r = after (setup_sinks level log_dir) λ sinks.
      after (S.register_logger (record { name = logger_name; sinks = sinks; level = trace }) r)
        λ r'. done (tt, r')

  unfoldable pub logger_init : String → M (S.Registry) (Unit {0})
  unfolding setup_logger
  logger_init log_dir = do
    setup_logger "mgmt" debug log_dir
    setup_logger "mgmt:app" debug log_dir
    setup_logger "mgmt:home_assistant_adapter" trace log_dir
    setup_logger "mgmt:poller" debug log_dir
    setup_logger "mgmt:device" debug log_dir
    setup_logger "async_mqtt_client" debug log_dir
    setup_logger "entity" debug log_dir
    modify S.load_env_levels

-- What the machine gives for the start of the loggers.
pub record Logging : Type 1 where
  pub spdlog : Spdlog
  pub registry : spdlog.Registry
  pub opens : String → Bool
  pub current_name : String

-- `logger_init`, from the registry as it is when the program starts.
abbrev pub start_loggers : (l : Logging) → String → Outcome (Unit {0} × l.spdlog.Registry)
start_loggers l log_dir = logger_init l.spdlog l.opens l.current_name log_dir l.registry
