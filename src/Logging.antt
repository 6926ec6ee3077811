-- ===== src/Logging.antt =====
-- log/MM_Log.h and log/MM_Log.cpp: loggers that are configured once. log4cplus is the section's
-- parameter, by the calls that the code makes of it.
pub mod Once
use option_hedge.Base.{◌++◌, Bool, true, false, if◌then◌else◌}
use option_hedge.Base.Text.{Text, codes}
use option_hedge.Constants.{optionhedge_root_dir}

abbrev pub log_configuration_file : Text
log_configuration_file = optionhedge_root_dir ++ codes "configFiles/loggerConfig.properties"

-- The severities of the macros.
pub data Level : Type 0 where
  fatal_level error_level info_level debug_level : Level

-- log4cplus: PropertyConfigurator::doConfigure, Logger::getInstance, and what the macros do.
pub record Log4cplus : Type 1 where
  pub State : Type 0
  pub Logger : Type 0
  pub configure : Text → State → State
  pub get_instance : Text → State → Logger × State
  pub emit : Level → Logger → Text → State → State

module _ (lib : Log4cplus) where
  -- `configured`, and the library's state.
  pub record Logs : Type 0 where
    pub configured : Bool
    pub state : lib.State

  -- The member of `Log`.
  pub record Log : Type 0 where
    pub logger : lib.Logger

  -- Log::doConfigure
  unfoldable pub do_configure : Text → Logs → Bool × Logs
  do_configure configure_file s =
      if s.configured
      then (false, s)
      else (true, record s { configured = true; state = lib.configure configure_file s.state })

  -- The constructor.
  unfoldable pub new_log : Text → Logs → Log × Logs
  new_log name s =
      let (done, t) = do_configure log_configuration_file s in
      let (logger, u) = lib.get_instance name t.state in
      (record { logger = logger }, record t { state = u })

  -- Log::getLogger
  unfoldable pub get_logger : Text → Logs → Log × Logs
  get_logger name s = new_log name s

  log_at : Level → Text → Log → Logs → Logs
  log_at level message log s = record s { state = lib.emit level log.logger message s.state }

  unfoldable pub fatal : Text → Log → Logs → Logs
  unfolding log_at
  fatal message log s = log_at fatal_level message log s

  unfoldable pub error : Text → Log → Logs → Logs
  unfolding log_at
  error message log s = log_at error_level message log s

  unfoldable pub info : Text → Log → Logs → Logs
  unfolding log_at
  info message log s = log_at info_level message log s

  unfoldable pub debug : Text → Log → Logs → Logs
  unfolding log_at
  debug message log s = log_at debug_level message log s
