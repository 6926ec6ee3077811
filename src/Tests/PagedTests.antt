-- ===== src/Tests/PagedTests.antt =====
-- The page engine's theorems at concrete inputs.
use option_hedge.Base.{
  ℕ, ◌≡◌, ◌≢◌, ◌⊎◌, ◌<◌, ◌≤◌, refl, arith, true, false, none, some, [], ◌∷◌, if◌then◌else◌, ◌==◌,
}
use option_hedge.Base.Text.{Text, codes, text_eq}
use option_hedge.Base.Map.{insert, text_key, nat_eq}
use option_hedge.Os.{ok, err, foreign_iterator}
use option_hedge.Journal.PageUtil.{gen_page_full_path, release_page_buffer}
use option_hedge.Paged.Msg.{
  occupied, requesting, allocated, non_exist, more_than_one_write, cannot_rename_from_temp,
  comm_status_code, PageCommMsg, FileKey, file_key, key_of, zero_msg, comm_size,
}
use option_hedge.Paged.Engine.{PageClientInfo, empty_client, Engine, reg_journal, reg_client}
use option_hedge.Paged.Engine.Files.{
  initiate_page, release_page, count_user, count_writer, count_reader, last_user_gone, drop_address,
}
use option_hedge.Paged.Engine.Requests.{exit_client, serve, start_comm, has_old_page, give_up_old}
use option_hedge.Paged.Engine.Slots.{reg_journal-free, reg_journal-full, reg_journal-unknown, IsRaw}
use option_hedge.Paged.Engine.Clients.{IsRegistered, IsTidy, reg_client-new, exit_client-reg_client}
use option_hedge.Paged.Engine.Pages.{initiate_page-writer, initiate_page-reader, readers_of}
use option_hedge.Paged.Engine.Release.{
  release_page-reader, release_page-reader_undefined, release_page-keeps_address,
}
use option_hedge.Paged.Engine.Serve.{Served, serve-Served}
use option_hedge.Paged.Engine.Loop.{start_comm-answers}
use option_hedge.Paged.Engine.Refused.{serve-refused_writer}
use option_hedge.Tests.Toy.{toy_os, toy_writer, toy_engine}

abbrev pub folder : Text
folder = codes "/var/tmp"

abbrev pub quotes : Text
quotes = codes "quotes"

-- A writer's message that asks for a page.
abbrev asking : ℕ → ℕ → PageCommMsg
asking last page = record {
  status = requesting;
  folder = folder;
  name = quotes;
  is_writer = true;
  page_num = page;
  last_page_num = last;
}

abbrev pub reading : PageCommMsg
reading = record (asking 0 1) { is_writer = false }

abbrev pub holding_client : PageClientInfo
holding_client = record empty_client { reg_nano = 5; is_writing = true; pid = 42 }

-- One registered client, and a table of which the first message is in use.
abbrev pub one_client : Engine toy_os toy_writer
one_client = record toy_engine {
  client_journals = insert quotes holding_client (λ _. none);
  pid_client = insert 42 (quotes ∷ []) (λ _. none);
  comm = λ i. if i == 0 then asking 0 1 else zero_msg;
}

pub known : one_client.client_journals quotes ≡ some holding_client
unfolding text_eq
known = refl

reg_journal-free_example :
    let (idx, f) = reg_journal toy_os toy_writer quotes one_client in
    (idx ≤ 1)
    × IsRaw one_client.comm idx
    × ((i : ℕ) → i < idx → ¬ IsRaw one_client.comm i)
    × ((f.comm idx).status ≡ occupied)
    × ((f.comm idx).last_page_num ≡ 0)
    × ((i : ℕ) → i ≢ idx → f.comm i ≡ one_client.comm i)
    × (f.client_journals quotes ≡ some (record holding_client { user_index_vec = idx ∷ [] }))
    × ((other : Text) → other ≢ quotes → f.client_journals other ≡ one_client.client_journals other)
    × (idx ≤ f.max_idx)
reg_journal-free_example =
    reg_journal-free toy_os toy_writer one_client quotes holding_client 1 known (omega arith) refl

-- The same client before a table in which everything is in use.
abbrev full_table : Engine toy_os toy_writer
full_table = record one_client { comm = λ i. asking 0 1 }

reg_journal-full_example : (reg_journal toy_os toy_writer quotes full_table).0 ≡ 1000
reg_journal-full_example =
    (reg_journal-full toy_os toy_writer full_table quotes holding_client known (λ i h r. cc r)).0

reg_journal-unknown_example : (reg_journal toy_os toy_writer folder one_client).0 ≡ 4294967295
unfolding text_eq
reg_journal-unknown_example =
    (reg_journal-unknown toy_os toy_writer one_client folder 1 refl (omega arith) refl).0

registered :
    (f : Engine toy_os toy_writer) × (reg_client toy_os toy_writer folder 42 false one_client
      ≡ ok (some ([], comm_size), f))
    × IsRegistered toy_os toy_writer folder 42 false one_client f
unfolding text_eq
registered = reg_client-new toy_os toy_writer folder 42 false one_client refl

tidy : IsTidy one_client.pid_client
tidy p e = ground arith

exit_client-reg_client_example :
    (g : Engine toy_os toy_writer) × (exit_client toy_os toy_writer
        (λ _ _ _ _ _. [])
        folder
        registered.0
      ≡ ok (tt, g))
    × ((c : Text) → g.client_journals c ≡ one_client.client_journals c)
    × ((p : ℕ) → g.pid_client p ≡ one_client.pid_client p)
    × (g.comm ≡ one_client.comm)
    × (g.file_writer_counts ≡ one_client.file_writer_counts)
    × (g.file_reader_counts ≡ one_client.file_reader_counts)
unfolding text_eq
exit_client-reg_client_example =
    exit_client-reg_client toy_os toy_writer (λ _ _ _ _ _. []) folder 42 false one_client
      registered.0 refl (ground arith) tidy registered.1

-- A page that nobody uses is mapped.
abbrev path : Text
path = gen_page_full_path folder quotes 1

abbrev pub mapped_page : Engine toy_os toy_writer
mapped_page = record one_client { file_addrs = λ p. some (some 4096) }

-- The same page with its writer.
abbrev written_page : Engine toy_os toy_writer
written_page = record mapped_page {
  file_writer_counts = insert (key_of (asking 0 1)) 1 (λ _. none);
}

opens : initiate_page toy_os toy_writer (asking 0 1) mapped_page ≡ ok (allocated, written_page)
unfolding initiate_page count_user count_writer
opens = refl

initiate_page-writer_example :
    (((allocated ≡ allocated)
        × (mapped_page.file_writer_counts (key_of (asking 0 1)) ≡ none)
        × (written_page.file_writer_counts
            ≡ insert (key_of (asking 0 1)) 1 mapped_page.file_writer_counts))
      ⊎ (((allocated ≡ more_than_one_write)
            × (mapped_page.file_writer_counts (key_of (asking 0 1)) ≢ none)
            × (written_page.file_writer_counts ≡ mapped_page.file_writer_counts))
          ⊎ ((allocated ≡ cannot_rename_from_temp)
              × (written_page.file_writer_counts ≡ mapped_page.file_writer_counts))))
    × (written_page.file_reader_counts ≡ mapped_page.file_reader_counts)
    × (written_page.client_journals ≡ mapped_page.client_journals)
    × (written_page.comm ≡ mapped_page.comm)
initiate_page-writer_example =
    initiate_page-writer toy_os toy_writer (asking 0 1) mapped_page written_page allocated refl
      opens

abbrev read_page : Engine toy_os toy_writer
read_page = record mapped_page { file_reader_counts = insert (key_of reading) 1 (λ _. none) }

opens_reader : initiate_page toy_os toy_writer reading mapped_page ≡ ok (allocated, read_page)
unfolding initiate_page count_user count_reader
opens_reader = refl

initiate_page-reader_example :
    (((allocated ≡ allocated) × (readers_of toy_os toy_writer (key_of reading) read_page ≡ 1))
      ⊎ ((allocated ≡ non_exist) × (read_page.file_reader_counts ≡ mapped_page.file_reader_counts)))
    × ((key : FileKey)
        → key ≢ key_of reading
        → read_page.file_reader_counts key ≡ mapped_page.file_reader_counts key)
    × (read_page.file_writer_counts ≡ mapped_page.file_writer_counts)
    × (read_page.client_journals ≡ mapped_page.client_journals)
    × (read_page.comm ≡ mapped_page.comm)
unfolding text_eq
initiate_page-reader_example =
    initiate_page-reader toy_os toy_writer reading mapped_page read_page allocated refl
      (omega arith) opens_reader

one_writer : written_page.file_writer_counts (key_of (asking 0 1)) ≡ some 1
unfolding text_eq
one_writer = refl

abbrev Closes : Type 0
Closes =
    (g : Engine toy_os toy_writer) × (release_page toy_os toy_writer (asking 0 1) written_page
      ≡ ok (tt, g))

closed : Closes
unfolding release_page last_user_gone drop_address release_page_buffer text_eq gen_page_full_path
closed = (_, refl)

release_page-keeps_address_example : closed.0.file_addrs path ≡ some (some 4096)
release_page-keeps_address_example =
    release_page-keeps_address toy_os toy_writer (asking 0 1) written_page closed.0
      (codes "var/tmp") (codes "uotes") b'q' refl refl (λ e. omega (arith, e)) refl one_writer
      closed.1

release_page-reader_example : read_page.file_reader_counts ≡ read_page.file_reader_counts
unfolding release_page
release_page-reader_example =
    (release_page-reader toy_os toy_writer reading read_page read_page refl refl).0

release_page-reader_undefined_example :
    release_page toy_os toy_writer reading written_page ≡ err foreign_iterator
unfolding text_eq
release_page-reader_undefined_example =
    release_page-reader_undefined toy_os toy_writer reading written_page refl refl

-- A table where message 0 asks for page 1.
served : (f : Engine toy_os toy_writer) × (serve toy_os toy_writer 0 mapped_page ≡ ok (tt, f))
unfolding serve give_up_old has_old_page initiate_page count_user count_writer comm_status_code
served = (_, refl)

serve-Served_example : Served toy_os toy_writer 0 mapped_page served.0
serve-Served_example = serve-Served toy_os toy_writer 0 mapped_page served.0 served.1

turned :
    (next : ℕ) × (f : Engine toy_os toy_writer) × (start_comm toy_os toy_writer 1 0 mapped_page
      ≡ ok (next, f))
unfolding start_comm serve give_up_old has_old_page initiate_page count_user count_writer
    comm_status_code
turned = (_, _, refl)

start_comm-answers_example : (turned.1.comm 0).status ≢ requesting
start_comm-answers_example =
    start_comm-answers toy_os toy_writer 0 turned.0 0 mapped_page turned.1 refl (omega arith)
      (omega arith) turned.2

-- Message 0 was refused page 1, which message 1 holds, and asks for page 2.
abbrev contended : Engine toy_os toy_writer
contended = record written_page {
  comm = λ i. if i == 0 then asking 1 2 else record (asking 1 1) { status = allocated };
}

moved_on : (f : Engine toy_os toy_writer) × (serve toy_os toy_writer 0 contended ≡ ok (tt, f))
unfolding serve give_up_old has_old_page initiate_page count_user count_writer comm_status_code
    release_page last_user_gone drop_address release_page_buffer text_eq gen_page_full_path
moved_on = (_, refl)

serve-refused_writer_example :
    ((moved_on.0.comm 1).status ≡ allocated)
    × (moved_on.0.file_writer_counts (key_of (asking 0 1)) ≡ none)
unfolding has_old_page
serve-refused_writer_example =
    serve-refused_writer toy_os toy_writer 0 1 (asking 1 2) contended moved_on.0 refl
      (λ e. omega (arith, e)) refl refl refl refl refl one_writer moved_on.1
