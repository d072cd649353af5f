-- ===== src/App/Logger/Laws.antt =====
-- The loggers that there are after the start.
use Prim.Native.String.{◌++◌}
use hhctrl_mgmt.Base.{
  ◌≡◌, refl, Bool, true, false, Option, none, some, List, [], ◌∷◌, ◌++◌ as append, String, str_eq,
  if◌then◌else◌, All, arith, eq_iff,
}
use hhctrl_mgmt.Base.Outcome.{done, thrown, M, modify, ◌>>◌}
use hhctrl_mgmt.Utils.Logging.{
  Level, trace, debug, Sink, stdout_color_sink, rotating_file_sink, Logger, Spdlog, IsSpdlog,
  with_env_level,
}
use hhctrl_mgmt.App.Logger.{
  rotate_size, max_files, setup_sinks, setup_logger, logger_init, Logging, start_loggers,
}

-- The loggers' names, with the levels of their consoles.
abbrev pub loggers : List (String × Level)
loggers =
    ("mgmt", debug)
    ∷ ("mgmt:app", debug)
    ∷ ("mgmt:home_assistant_adapter", trace)
    ∷ ("mgmt:poller", debug)
    ∷ ("mgmt:device", debug)
    ∷ ("async_mqtt_client", debug)
    ∷ ("entity", debug)
    ∷ []

abbrev pub AreFree : (S : Spdlog) → List (String × Level) → S.Registry → Type 0
AreFree S ls r = All (λ l. S.get l.0 r ≡ none) ls

-- Every name differs from those behind it.
abbrev pub AreUnlike : List (String × Level) → Type 0
AreUnlike [] = Unit
AreUnlike ((n, l) ∷ ls) = All (λ k. str_eq k.0 n ≡ false) ls × AreUnlike ls

module _ (S : Spdlog) (W : IsSpdlog S) (opens : String → Bool) (current_name : String) where
  open W use {register_free, register_taken, load_env}

  -- The logger of this name: on the console from this level on, and in a file if there is a directory.
  abbrev pub logger : String → String → Level → Logger
  logger log_dir name level = record {
    name = name;
    sinks = append (stdout_color_sink level ∷ []) (
        if str_eq log_dir ""
        then []
        else rotating_file_sink (log_dir ++ "/" ++ current_name ++ ".txt") rotate_size max_files
          ∷ []);
    level = trace;
  }

  -- What a name leads to when these loggers have been added.
  abbrev pub found_in : String → String → List (String × Level) → Option Logger → Option Logger
  found_in log_dir n [] before = before
  found_in log_dir n ((name, level) ∷ ls) before =
      if str_eq n name then some (logger log_dir name level) else found_in log_dir n ls before

  setup_all : String → List (String × Level) → M (S.Registry) (Unit {0}) → M (S.Registry) (Unit {0})
  setup_all log_dir [] rest = rest
  setup_all log_dir ((name, level) ∷ ls) rest = do
    setup_logger S opens current_name name level log_dir
    setup_all log_dir ls rest

  abbrev pub IsWritable : String → Type 0
  IsWritable log_dir =
      str_eq log_dir "" ≡ false → opens (log_dir ++ "/" ++ current_name ++ ".txt") ≡ true

  setup_logger_lem :
      (log_dir name : String) (level : Level) (r : S.Registry)
      → IsWritable log_dir
      → S.get name r ≡ none
      → (r' : S.Registry) × (setup_logger S opens current_name name level log_dir r ≡ done (tt, r'))
        × ((n : String)
            → S.get n r' ≡ (if str_eq n name then some (logger log_dir name level) else S.get n r))
  unfolding setup_logger
  setup_logger_lem log_dir name level r w e =
      let (r', made, found) = register_free (logger log_dir name level) r e in
      (r', ground (arith, w, made), found)

  found_in-absent :
      (log_dir n name : String) (ls : List (String × Level)) (before : Option Logger)
      → str_eq n name ≡ true
      → All (λ k. str_eq k.0 name ≡ false) ls
      → found_in log_dir n ls before ≡ before
  found_in-absent log_dir n name [] before same u = refl
  found_in-absent log_dir n name ((other, level) ∷ ls) before same u = ground (
    arith,
    eq_iff n name,
    eq_iff n other,
    eq_iff other name,
    u.0,
    found_in-absent log_dir n name ls before same u.1,
  )

  AreFree-kept :
      (name : String) (l : Logger) (ls : List (String × Level)) (r r' : S.Registry)
      → ((n : String) → S.get n r' ≡ (if str_eq n name then some l else S.get n r))
      → All (λ k. str_eq k.0 name ≡ false) ls
      → AreFree S ls r
      → AreFree S ls r'
  AreFree-kept name l [] r r' found u f = tt
  AreFree-kept name l ((other, level) ∷ ls) r r' found u f =
      (ground (arith, found other, u.0, f.0), AreFree-kept name l ls r r' found u.1 f.1)

  setup_all_lem :
      (log_dir : String) (ls : List (String × Level)) (rest : M (S.Registry) (Unit {0}))
      (r : S.Registry)
      → IsWritable log_dir
      → AreFree S ls r
      → AreUnlike ls
      → (r' : S.Registry) × (setup_all log_dir ls rest r ≡ rest r')
        × ((n : String) → S.get n r' ≡ found_in log_dir n ls (S.get n r))
  unfolding setup_all
  setup_all_lem log_dir [] rest r w f u = (r, refl, λ n. refl)
  setup_all_lem log_dir ((name, level) ∷ ls) rest r w f u =
      let (r₁, made, found) = setup_logger_lem log_dir name level r w f.0 in
      let (r', others, all) =
        setup_all_lem log_dir ls rest r₁ w
          (AreFree-kept name (logger log_dir name level) ls r r₁ found u.0 f.1) u.1 in
      (
        r',
        simp (made, others) refl,
        λ n. ground (
          arith,
          all n,
          found n,
          found_in-absent log_dir n name ls (some (logger log_dir name level)) _ u.0,
        ),
      )

  setup_logger-taken :
      (log_dir name : String) (level : Level) (r : S.Registry) (other : Logger)
      → S.get name r ≡ some other
      → setup_logger S opens current_name name level log_dir r ≡ thrown
  unfolding setup_logger setup_sinks
  setup_logger-taken log_dir name level r other e =
      let refused = λ (sinks : List Sink).
        register_taken (record { name = name; sinks = sinks; level = trace }) other r e in
      ground (
        arith,
        refused (stdout_color_sink level ∷ []),
        refused (
            append (stdout_color_sink level ∷ []) (
              rotating_file_sink (log_dir ++ "/" ++ current_name ++ ".txt") rotate_size max_files
              ∷ [])),
      )

  -- Over spdlog as it is documented, where none of the seven names is taken and the file of the log can
  -- be opened if there is a directory for it: the start of the loggers returns. Each of the seven names
  -- then leads to a logger with a console of its level and, if there is a directory, the rotating
  -- file, with the level that the environment gives it; every other name leads to what it led to
  -- before, with its level from the environment. A second start, in any directory, throws.
  pub logger_init_lem :
      (log_dir again : String) (r : S.Registry)
      → IsWritable log_dir
      → AreFree S loggers r
      → (r' : S.Registry) × (logger_init S opens current_name log_dir r ≡ done (tt, r'))
        × ((n : String) → S.get n r' ≡ with_env_level S (found_in log_dir n loggers (S.get n r)))
        × (logger_init S opens current_name again r' ≡ thrown)
  unfolding logger_init setup_all
  logger_init_lem log_dir again r w f =
      let (r₁, all, found) =
        setup_all_lem log_dir loggers (modify S.load_env_levels) r w f (ground arith) in
      (
        S.load_env_levels r₁,
        all,
        λ n. cc (load_env n r₁, found n),
        simp
            (setup_logger-taken again "mgmt" debug (S.load_env_levels r₁)
              (record (logger log_dir "mgmt" debug) { level = S.env_level "mgmt" trace })
              (cc (load_env "mgmt" r₁, found "mgmt")))
            refl,
      )

-- spdlog is as it is documented, no name is taken, and the file of the log can be opened.
pub record CanLog (l : Logging) (log_dir : String) : Type 0 where
  pub works : IsSpdlog l.spdlog
  pub writable : IsWritable l.spdlog works l.opens l.current_name log_dir
  pub free : AreFree l.spdlog loggers l.registry

-- The program's own logger is there when it is used.
pub mgmt-found :
    (l : Logging) (log_dir : String)
    → CanLog l log_dir
    → (r : l.spdlog.Registry) × (log : Logger) × (start_loggers l log_dir ≡ done (tt, r))
      × (l.spdlog.get "mgmt" r ≡ some log)
mgmt-found l log_dir c =
    let (r, started, found, twice) =
      logger_init_lem l.spdlog c.works l.opens l.current_name log_dir log_dir l.registry c.writable
        c.free in
    (
      r,
      record (logger l.spdlog c.works l.opens l.current_name log_dir "mgmt" debug) {
        level = l.spdlog.env_level "mgmt" trace;
      },
      started,
      found "mgmt",
    )
