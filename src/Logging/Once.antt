-- ===== src/Logging/Once.antt =====
-- The configuration of log/MM_Log.cpp is read once, before the first logger is made.
use option_hedge.Base.{◌≡◌, refl, ap, true, false, List, [], ◌∷◌}
use option_hedge.Base.Text.{Text}
use option_hedge.Logging.{
  Level, Log4cplus, fatal_level, error_level, info_level, debug_level, Logs, Log, do_configure,
  get_logger, new_log, fatal, error, info, debug, log_configuration_file,
}

module _ (lib : Log4cplus) where
  -- What a program does with the logs.
  pub data Use : Type 0 where
    configures : Text → Use
    gets : Text → Use
    logs : Level → Text → Log lib → Use

  abbrev pub perform : Use → Logs lib → Logs lib
  perform (configures file) s = (do_configure lib file s).1
  perform (gets name) s = (get_logger lib name s).1
  perform (logs fatal_level message log) s = fatal lib message log s
  perform (logs error_level message log) s = error lib message log s
  perform (logs info_level message log) s = info lib message log s
  perform (logs debug_level message log) s = debug lib message log s

  abbrev pub perform_all : List Use → Logs lib → Logs lib
  perform_all [] s = s
  perform_all (u ∷ us) s = perform_all us (perform u s)

  -- The library's calls for the same uses once it is configured.
  abbrev pub plain : Use → lib.State → lib.State
  plain (configures file) st = st
  plain (gets name) st = (lib.get_instance name st).1
  plain (logs level message log) st = lib.emit level log.logger message st

  abbrev pub plain_all : List Use → lib.State → lib.State
  plain_all [] st = st
  plain_all (u ∷ us) st = plain_all us (plain u st)

  -- Uses as the library sees them from the start: the first one that needs a configuration reads it,
  -- an explicit one the file that it names, and a logger the default file.
  abbrev pub fresh_all : List Use → lib.State → lib.State
  fresh_all [] st = st
  fresh_all (configures file ∷ us) st = plain_all us (lib.configure file st)
  fresh_all (gets name ∷ us) st =
      plain_all (gets name ∷ us) (lib.configure log_configuration_file st)
  fresh_all (logs level message log ∷ us) st = fresh_all us (lib.emit level log.logger message st)

  perform_all-configured :
      (us : List Use) (st : lib.State)
      → perform_all us (record { configured = true; state = st })
        ≡ record { configured = true; state = plain_all us st }
  unfolding do_configure get_logger new_log fatal error info debug
  perform_all-configured [] st = refl
  perform_all-configured (configures file ∷ us) st = perform_all-configured us st
  perform_all-configured (gets name ∷ us) st =
      perform_all-configured us (lib.get_instance name st).1
  perform_all-configured (logs fatal_level message log ∷ us) st =
      perform_all-configured us (lib.emit fatal_level log.logger message st)
  perform_all-configured (logs error_level message log ∷ us) st =
      perform_all-configured us (lib.emit error_level log.logger message st)
  perform_all-configured (logs info_level message log ∷ us) st =
      perform_all-configured us (lib.emit info_level log.logger message st)
  perform_all-configured (logs debug_level message log ∷ us) st =
      perform_all-configured us (lib.emit debug_level log.logger message st)

  -- However a program uses the logs, the library is configured at most once: by the first use that needs
  -- it, before the first logger is made, with the file that an explicit call names or else with the
  -- default file. Every later call to configure it is without effect.
  pub perform_all-fresh :
      (us : List Use) (st : lib.State)
      → (perform_all us (record { configured = false; state = st })).state ≡ fresh_all us st
  unfolding do_configure get_logger new_log fatal error info debug
  perform_all-fresh [] st = refl
  perform_all-fresh (configures file ∷ us) st =
      ap (λ s. s.state) (perform_all-configured us (lib.configure file st))
  perform_all-fresh (gets name ∷ us) st =
      ap (λ s. s.state)
        (perform_all-configured us
          (lib.get_instance name (lib.configure log_configuration_file st)).1)
  perform_all-fresh (logs fatal_level message log ∷ us) st =
      perform_all-fresh us (lib.emit fatal_level log.logger message st)
  perform_all-fresh (logs error_level message log ∷ us) st =
      perform_all-fresh us (lib.emit error_level log.logger message st)
  perform_all-fresh (logs info_level message log ∷ us) st =
      perform_all-fresh us (lib.emit info_level log.logger message st)
  perform_all-fresh (logs debug_level message log ∷ us) st =
      perform_all-fresh us (lib.emit debug_level log.logger message st)
