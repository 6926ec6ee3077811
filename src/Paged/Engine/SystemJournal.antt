-- ===== src/Paged/Engine/SystemJournal.antt =====
-- The system journal of paged/PageEngine.cpp: its writer is a JournalWriter of journal/JournalWriter.cpp.
use option_hedge.Base.{ℕ, none, Bool, true, false}
use option_hedge.Base.Text.{Text}
use option_hedge.Os.{M, Os, ◌>>=◌, pure}
use option_hedge.Journal.Writer.{create_default, Writer, write_frame}
use option_hedge.Paged.Engine.{Engine, on_sys, SystemWriter}

abbrev flag_of : Bool → ℕ
flag_of true = 1
flag_of false = 0

module _ (os : Os) (matches : Text → Text → Bool) (pages fuel : ℕ) where
  -- What the engine asks of its writer, by `write_frame` with its defaults.
  abbrev pub journal_system : SystemWriter os
  journal_system = record {
    State = Writer os;
    write_frame = λ bytes source msg_type is_last req w. do
      (v, time) ← write_frame os matches pages fuel bytes source msg_type (flag_of is_last) req w
      pure v;
  }

  -- The writer's creation in the build without USE_PAGED_SERVICE, where the engine has no part in it.
  unfoldable pub create_system_writer : Text → Text → M (Engine os journal_system) (Writer os)
  create_system_writer dir jname =
      on_sys os journal_system (create_default os matches pages fuel none dir jname)
