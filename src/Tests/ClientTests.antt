-- ===== src/Tests/ClientTests.antt =====
-- The theorems on a client and its engine at concrete inputs.
use option_hedge.Base.{ℕ, ◌≡◌, ◌≢◌, ◌≤◌, refl, arith, true, none, some, []}
use option_hedge.Base.Text.{Text}
use option_hedge.Os.{ok, err, ◌>>◌, cannot_register_client}
use option_hedge.Base.Memory.{load}
use option_hedge.Timer.{get_nano_time, get_instance, get_local_diff, get_time_now, get_nano}
use option_hedge.Journal.Page.{Page, load_page, get_header, header_width, page_status_code}
use option_hedge.Journal.PageUtil.{load_page_buffer}
use option_hedge.Paged.Msg.{comm_status_code, holding, key_of, set_msg}
use option_hedge.Paged.Engine.{Engine}
use option_hedge.Paged.Engine.Files.{initiate_page, count_user, count_writer}
use option_hedge.Paged.Engine.Requests.{serve, give_up_old, has_old_page}
use option_hedge.Paged.Engine.Slots.{IsRaw}
use option_hedge.Paged.Client.Exit.{client_exit_client-refused}
use option_hedge.Paged.Client.{
  client_exit_client, client_register_client, ClientPageProvider, client_register_journal,
  client_get_page, wait_answer, take_answer, asked,
}
use option_hedge.Paged.Client.Rounds.{
  Both, engine_service, engine_asked, client_get_page-answered, client_get_page-writer,
}
use option_hedge.Paged.Client.Register.{client_register_journal-free}
use option_hedge.Tests.Toy.{toy_os, toy_writer, toy_sys}
use option_hedge.Tests.PagedTests.{folder, quotes, mapped_page, holding_client, known}

abbrev no_text : Text → Text → ℕ → ℕ → ℕ → Text
no_text a b c d e = []

abbrev writing_client : ClientPageProvider
writing_client = record { client_name = quotes; is_writer = true; revise_allowed = true }

abbrev both : Both toy_os toy_writer
both = record { client = toy_sys; engine = mapped_page }

client_register_journal-free_example :
    (idx : ℕ) × (b' : Both toy_os toy_writer) × (client_register_journal toy_os
        (engine_service toy_os toy_writer no_text 0)
        writing_client
        folder
        quotes
        both
      ≡ ok (idx, b'))
    × (idx ≤ 1)
    × IsRaw mapped_page.comm idx
    × ((b'.engine.comm idx).status ≡ holding)
    × ((b'.engine.comm idx).folder ≡ folder)
    × ((b'.engine.comm idx).name ≡ quotes)
    × ((b'.engine.comm idx).is_writer ≡ true)
    × ((b'.engine.comm idx).last_page_num ≡ 0)
    × ((i : ℕ) → i ≢ idx → b'.engine.comm i ≡ mapped_page.comm i)
client_register_journal-free_example =
    client_register_journal-free toy_os toy_writer no_text 0 writing_client folder quotes both
      holding_client 1 (omega arith) (omega arith) (omega arith) known (omega arith) refl

served_asked :
    (f : Engine toy_os toy_writer) × (serve toy_os toy_writer 0
        (engine_asked toy_os toy_writer no_text 0 1 both)
      ≡ ok (tt, f))
unfolding serve give_up_old has_old_page initiate_page count_user count_writer comm_status_code
    set_msg
served_asked = (_, refl)

client_get_page-answered_example :
    client_get_page toy_os
      (engine_service toy_os toy_writer no_text 0)
      2
      writing_client
      folder
      quotes
      0
      1
      both
    ≡ take_answer toy_os
        (engine_service toy_os toy_writer no_text 0)
        writing_client
        folder
        quotes
        1
        (served_asked.0.comm 0)
        (record {
          client = record toy_sys { world = served_asked.0.sys.world };
          engine = served_asked.0;
        })
client_get_page-answered_example =
    client_get_page-answered toy_os toy_writer no_text 0 writing_client folder quotes 0 1 both
      served_asked.0 served_asked.1

-- The client is given the page: what the call comes to.
given :
    (p : Page) × (b' : Both toy_os toy_writer) × (client_get_page toy_os
        (engine_service toy_os toy_writer no_text 0)
        2
        writing_client
        folder
        quotes
        0
        1
        both
      ≡ ok (some p, b'))
unfolding client_get_page wait_answer take_answer serve give_up_old has_old_page initiate_page
    count_user count_writer comm_status_code set_msg load_page load_page_buffer get_header load
    header_width page_status_code get_nano_time get_instance get_local_diff get_time_now get_nano
given = (_, _, refl)

client_get_page-writer_example :
    (mapped_page.file_writer_counts (key_of (asked 1 (mapped_page.comm 0))) ≡ none)
    × (given.1.engine.file_writer_counts (key_of (asked 1 (mapped_page.comm 0))) ≡ some 1)
unfolding has_old_page
client_get_page-writer_example =
    client_get_page-writer toy_os toy_writer no_text 0 writing_client folder quotes 0 1 both given.1
      given.0 refl refl given.2

client_exit_client-refused_example :
    (client_exit_client toy_os (engine_service toy_os toy_writer no_text 0) writing_client
        >> client_register_client toy_os
            (engine_service toy_os toy_writer no_text 0)
            42
            writing_client)
      both
    ≡ err cannot_register_client
client_exit_client-refused_example =
    client_exit_client-refused toy_os toy_writer no_text 0 42 writing_client both holding_client
      (omega arith) known
