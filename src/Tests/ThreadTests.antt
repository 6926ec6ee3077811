-- ===== src/Tests/ThreadTests.antt =====
-- The theorems on the engine's threads and on the loggers at concrete inputs.
use option_hedge.Base.{
  ◌<◌, ◌^◌, ℕ, none, inl, arith, ◌≡◌, refl, true, false, some, [], ◌∷◌, if◌then◌else◌, ◌==◌, List,
}
use option_hedge.Base.Text.{Text, codes}
use option_hedge.Os.{ok}
use option_hedge.Journal.PageUtil.{file_exists}
use option_hedge.Timer.{get_nano_time, get_instance, get_local_diff, get_time_now, get_nano}
use option_hedge.Paged.Msg.{zero_msg, comm_size, comm_status_code}
use option_hedge.Paged.Engine.{
  Engine, new_engine, reg_client, reg_journal, find_raw, link_journal, take_index,
}
use option_hedge.Paged.Engine.Files.{initiate_page, find_mapping}
use option_hedge.Paged.Engine.Requests.{give_up_old, has_old_page}
use option_hedge.Paged.Engine.Reach.{Reach}
use option_hedge.Paged.Engine.Threads.{Threads, comm_thread, answer_request, noting, accepting}
use option_hedge.Paged.Engine.Program.{started, no_clients}
use option_hedge.Paged.Engine.Sound.{IsSound}
use option_hedge.Paged.Engine.Counts.{IsSingle}
use option_hedge.Paged.Engine.SocketThread.{engine_util, start_socket, start_socket-IsSound}
use option_hedge.Paged.Socket.Server.{
  Handler, new_handler, get_handler, open_handler, handle_connections, run_handler,
}
use option_hedge.Paged.Socket.Exchange.{handle_accept-register_journal}
use option_hedge.Tests.SocketTests.{journal_request, journal_IsRequest, journal_bytes, sevens}
use option_hedge.Logging.{Log4cplus, info_level, log_configuration_file}
use option_hedge.Logging.Once.{Use, gets, configures, logs, perform_all, perform_all-fresh}
use option_hedge.Tests.Toy.{toy_os, toy_writer, toy_sys, toy_engine}
use option_hedge.Tests.PagedTests.{quotes, reading}
use option_hedge.Tests.ProgramTests.{no_dump}

-- A reader asks for a page that does not exist.
abbrev one_reader : Engine toy_os toy_writer
one_reader = record toy_engine { comm = λ i. if i == 0 then reading else zero_msg }

-- A client registers between the test of the reader's message and its answer.
registered :
    (f : Engine toy_os toy_writer) × (reg_client toy_os toy_writer quotes 42 true one_reader
      ≡ ok (some ([], comm_size), f))
unfolding reg_client get_nano_time get_instance get_local_diff get_time_now get_nano
registered = (_, refl)

answered :
    (f : Engine toy_os toy_writer) × (answer_request toy_os toy_writer 0 registered.0 ≡ ok (tt, f))
unfolding answer_request give_up_old has_old_page initiate_page file_exists registered find_mapping
answered = (_, refl)

abbrev before_note : Threads toy_os toy_writer
before_note = record {
  engine = answered.0;
  comm = noting 0;
  socket = accepting;
  mutex = some comm_thread;
}

-- A library that remembers its calls, the last one first.
abbrev tracing : Log4cplus
tracing = record {
  State = List Text;
  Logger = Text;
  configure = λ file calls. file ∷ calls;
  get_instance = λ name calls. (name, name ∷ calls);
  emit = λ level logger message calls. message ∷ calls;
}

abbrev uses : List (Use tracing)
uses =
    gets (codes "PageEngine")
    ∷ configures (codes "other.properties")
    ∷ logs info_level (codes "(start)") (record { logger = codes "PageEngine" })
    ∷ []

perform_all-fresh_example :
    (perform_all tracing uses (record { configured = false; state = [] })).state
    ≡ codes "(start)" ∷ codes "PageEngine" ∷ log_configuration_file ∷ []
perform_all-fresh_example = perform_all-fresh tracing uses []

abbrev fresh : Engine toy_os toy_writer
fresh = started toy_os toy_writer no_dump toy_sys toy_sys

abbrev joined : Engine toy_os toy_writer
joined = (reg_journal toy_os toy_writer quotes fresh).1

refused : (reg_journal toy_os toy_writer quotes fresh).0 < 2 ^ 32
unfolding reg_journal new_engine find_raw link_journal take_index comm_status_code
refused = omega arith

-- A connection that registers a journal for a client that is not known.
served :
    (r : Handler × List (List ℕ)) × (start_socket toy_os toy_writer no_dump 9
        (journal_bytes ∷ [])
        none
        fresh
      ≡ ok (r, joined))
unfolding start_socket run_handler handle_connections get_handler open_handler
served =
    let (g, reply, handled, read) =
      handle_accept-register_journal (engine_util toy_os toy_writer no_dump) 9 journal_request
        sevens sevens 500 (open_handler new_handler) fresh journal_IsRequest refl (omega arith)
        (omega arith) refused in
    ((g, reply ∷ []), ground (arith, handled))

start_socket-IsSound_example :
    IsSound toy_os toy_writer no_dump joined × IsSingle joined.file_writer_counts
unfolding new_engine
start_socket-IsSound_example =
    start_socket-IsSound toy_os toy_writer no_dump 9 0 (journal_bytes ∷ []) none served.0 fresh
      joined (no_clients toy_os toy_writer no_dump fresh (λ c. refl)) (λ key. inl refl)
      (λ i lo hi. refl) (omega arith) served.1
