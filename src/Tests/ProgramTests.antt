-- ===== src/Tests/ProgramTests.antt =====
-- The theorem on the program of the page engine at a concrete input.
use option_hedge.Base.{ℕ, ◌≡◌, refl, arith, true, some, [], ◌∷◌, ◌%◌}
use option_hedge.Base.Word.{int_lt}
use option_hedge.Base.Text.{Text}
use option_hedge.Os.{Sys, ok, err, missing_return}
use option_hedge.Timer.{get_nano_time, get_instance, get_local_diff, get_time_now, get_nano}
use option_hedge.Journal.PageUtil.{load_page_buffer, advise_or_lock}
use option_hedge.Paged.Msg.{comm_size}
use option_hedge.Paged.Engine.{
  Engine, comm_file_name, new_engine, start_threads, reg_client, reg_journal,
}
use option_hedge.Paged.Engine.Slots.{IsRaw}
use option_hedge.Paged.Engine.Sound.{IsSound}
use option_hedge.Paged.Engine.Counts.{IsSingle}
use option_hedge.Paged.Engine.Reach.{Reach, here, next, registers, joins}
use option_hedge.Paged.Engine.Program.{main, started, with_writer, main-IsSound, main-undefined}
use option_hedge.Base.Word.{minus_one_int}
use option_hedge.Constants.{msg_type_code, paged_start}
use option_hedge.Paged.Engine.{SystemWriter}
use option_hedge.Paged.Engine.SystemJournal.{journal_system}
use option_hedge.Journal.Writer.{FrameArgs, Writer, write_frame}
use option_hedge.Journal.Writer.Run.{write_frame_full-in_page}
use option_hedge.Tests.JournalTests.{quote, quoting, quote_writer, first_page}
use option_hedge.Tests.RunTests.{empty-IsPlaced}
use option_hedge.Tests.Toy.{toy_os, toy_writer, toy_sys}
use option_hedge.Tests.PagedTests.{quotes}

abbrev pub no_dump : Text → Text → ℕ → ℕ → ℕ → Text
no_dump a b c d e = []

table_mapped :
    load_page_buffer toy_os comm_file_name comm_size true true toy_sys ≡ ok (some 4096, toy_sys)
unfolding load_page_buffer advise_or_lock
table_mapped = refl

abbrev up : Engine toy_os toy_writer
up = started toy_os toy_writer no_dump toy_sys toy_sys

-- A client registers, and then its journal.
registered :
    (f : Engine toy_os toy_writer) × (reg_client toy_os toy_writer quotes 42 true up
      ≡ ok (some (comm_file_name, comm_size), f))
    × IsRaw f.comm 0
unfolding reg_client get_nano_time get_instance get_local_diff get_time_now get_nano new_engine
registered = (_, refl, refl)

abbrev joined : Engine toy_os toy_writer
joined = (reg_journal toy_os toy_writer quotes registered.0).1

two_steps : Reach toy_os toy_writer no_dump up joined
two_steps =
    next
      (next here
        (registers quotes 42 true (some (comm_file_name, comm_size)) registered.0 registered.1))
      (joins quotes 0 (omega arith) registered.2)

-- The engine's own writer is made as a client that takes the first message.
main-IsSound_example :
    (start_threads toy_os toy_writer (new_engine toy_os toy_writer toy_sys) ≡ ok (tt, up))
    × IsSound toy_os toy_writer no_dump joined
    × IsSingle joined.file_writer_counts
    × IsSound toy_os toy_writer no_dump (with_writer toy_os toy_writer no_dump tt joined)
    × IsSingle joined.file_writer_counts
main-IsSound_example =
    main-IsSound toy_os toy_writer no_dump toy_sys toy_sys (some 4096) tt joined
      (with_writer toy_os toy_writer no_dump tt joined) table_mapped two_steps here

abbrev quote_system : SystemWriter toy_os
quote_system = journal_system toy_os (λ _ _. true) 1 1

-- What the first note comes to.
abbrev start_note : FrameArgs
start_note = record quote {
  bytes = 0 ∷ [];
  source_arg = 0;
  msg_type_arg = msg_type_code paged_start % 256;
  last_flag_arg = 1;
}

noted :
    (u : Writer toy_os) × (s3 : Sys toy_os) × (quote_system.write_frame
        (0 ∷ [])
        0
        (msg_type_code paged_start % 256)
        true
        minus_one_int
        quote_writer
        toy_sys
      ≡ ok (u, s3))
unfolding write_frame msg_type_code
noted =
    let (t, s', q, wrote, placed, buffer, position, inside, outside) =
      write_frame_full-in_page toy_os (λ _ _. true) 0 0 start_note quote_writer quoting first_page
        toy_sys 1000 [] refl refl refl refl empty-IsPlaced (omega arith) (omega arith) (omega arith)
        (omega arith) in
    (
      record quote_writer { journal = some (record quoting { cur_page = some q }) },
      s',
      ground (arith, wrote),
    )

abbrev quote_up : Engine toy_os quote_system
quote_up = started toy_os quote_system no_dump toy_sys toy_sys

quote_interval : int_lt 0 quote_up.microsec_freq ≡ true
unfolding new_engine
quote_interval = refl

-- With a JournalWriter on an empty page.
main-undefined_example :
    main toy_os quote_system no_dump (λ dir name e. ok (quote_writer, e)) toy_sys
    ≡ err missing_return
main-undefined_example =
    main-undefined toy_os quote_system no_dump (λ dir name e. ok (quote_writer, e)) toy_sys toy_sys
      noted.1 (some 4096) quote_writer noted.0 quote_up table_mapped refl quote_interval noted.2
