-- ===== src/Paged/Engine/Program.antt =====
-- PageEngine/main.cpp: the program that makes a page engine and starts it. The endless loop behind the
-- start, in which the engine's threads work, has no step of its own.
use option_hedge.Base.{ℕ, ◌≡◌, ◌%◌, refl, arith, inl, true, none, [], ◌∷◌, Option, some}
use option_hedge.Base.Text.{Text}
use option_hedge.Base.Word.{minus_one_int, int_lt}
use option_hedge.Constants.{paged_journal_folder, paged_journal_name, paged_start, msg_type_code}
use option_hedge.Os.{Os, Sys, M, Result, ok, err, missing_return}
use option_hedge.Journal.PageUtil.{load_page_buffer}
use option_hedge.Paged.Msg.{comm_size, zero_msg}
use option_hedge.Paged.Engine.{
  SystemWriter, Engine, new_engine, start, start_threads, write_system, write, comm_file_name,
  paged_socket_file,
}
use option_hedge.Paged.Engine.Sound.{IsSound}
use option_hedge.Paged.Engine.Counts.{IsSingle}
use option_hedge.Paged.Engine.Single.{Reach-IsSingle}
use option_hedge.Paged.Engine.Reach.{Reach, Reach-IsSound}

module _ (os : Os) (system : SystemWriter os) (dump : Text → Text → ℕ → ℕ → ℕ → Text) where
  -- Up to the loop.
  unfoldable pub main :
      (Text → Text → M (Engine os system) system.State)
      → Sys os
      → Result (Unit {0} × Engine os system)
  main create_writer s = start os system create_writer (new_engine os system s)

  pub no_clients :
      (e : Engine os system) → ((c : Text) → e.client_journals c ≡ none) → IsSound os system dump e
  no_clients e none_yet = record {
    linked = λ c info at. cc (at, none_yet c);
    alone = λ c d info other i at_c. cc (at_c, none_yet c);
  }

  -- The engine when its threads are up: no clients yet, a table of zeros and no writer.
  abbrev pub started : Sys os → Sys os → Engine os system
  started s s1 = record (new_engine os system s) {
    sys = s1;
    comm_running = true;
    comm = λ _. zero_msg;
  }

  -- The engine once its writer is made.
  abbrev pub with_writer : system.State → Engine os system → Engine os system
  with_writer v e = record e { writer = some v; task_running = true }

  -- The engine's threads come up where the table's file is mapped, on a table of zeros. In every state that
  -- the engine reaches from there, while its own writer is made and, once that is set, from then on, each
  -- message on a client's list is in use and on no other client's list, and no page is counted to have
  -- more than one writer. The engine itself may be among the clients. The runs are those in which no step
  -- fails, a journal is registered only while one of the first 1000 messages is raw, and clients write
  -- only to messages that are in use, which stay so.
  pub main-IsSound :
      (s s1 : Sys os) (buffer : Option ℕ) (v : system.State) (e f : Engine os system)
      → load_page_buffer os comm_file_name comm_size true true
          (record s { world = os.remove paged_socket_file s.world })
        ≡ ok (buffer, s1)
      → Reach os system dump (started s s1) e
      → Reach os system dump (with_writer v e) f
      → (start_threads os system (new_engine os system s) ≡ ok (tt, started s s1))
        × IsSound os system dump e
        × IsSingle e.file_writer_counts
        × IsSound os system dump f
        × IsSingle f.file_writer_counts
  unfolding start_threads new_engine
  main-IsSound s s1 buffer v e f mapped run later_run =
      let sound =
        Reach-IsSound os system dump (started s s1) e (no_clients (started s s1) (λ c. refl)) run in
      let single = Reach-IsSingle os system dump (started s s1) e (λ key. inl refl) run in
      (
        ground (arith, mapped),
        sound,
        single,
        Reach-IsSound os system dump (with_writer v e) f
            (record { linked = sound.linked; alone = sound.alone }) later_run,
        Reach-IsSingle os system dump (with_writer v e) f single later_run,
      )

  -- Where the table's file is mapped and the writer is made, the program runs into undefined behaviour: its
  -- first note to the system journal is written, and `write` then ends without a return statement. It is
  -- stated for a positive interval, and a writer that can write the note.
  pub main-undefined :
      (create_writer : Text → Text → M (Engine os system) system.State)
      → (s s1 s3 : Sys os) (buffer : Option ℕ) (v u : system.State) (e : Engine os system)
      → load_page_buffer os comm_file_name comm_size true true
          (record s { world = os.remove paged_socket_file s.world })
        ≡ ok (buffer, s1)
      → create_writer paged_journal_folder paged_journal_name (started s s1) ≡ ok (v, e)
      → int_lt 0 e.microsec_freq ≡ true
      → system.write_frame (0 ∷ []) 0 (msg_type_code paged_start % 256) true minus_one_int v e.sys
        ≡ ok (u, s3)
      → main create_writer s ≡ err missing_return
  unfolding main start start_threads new_engine write_system write msg_type_code
  main-undefined create_writer s s1 s3 buffer v u e mapped made positive wrote =
      ground (arith, mapped, made, positive, wrote)
