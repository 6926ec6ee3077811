-- ===== src/Paged/Client.antt =====
-- journal/PageProvider.cpp: ClientPageProvider, the page provider that asks the engine. It talks to
-- the engine over the socket and through the table of messages, which both processes map.
pub mod Rounds
pub mod Register
pub mod Exit
use option_hedge.Base.{
  ℕ, zero, suc, ◌+◌, Bool, true, false, ◌&&◌, ◌||◌, Option, none, some, List, if◌then◌else◌, ◌==◌,
  ltb, length,
}
use option_hedge.Base.Text.{Text}
use option_hedge.Constants.{
  journal_short_name_max_length, journal_folder_max_length, journal_page_size,
}
use option_hedge.Os.{
  Os, Sys, M, ok, err, ◌>>=◌, ◌>>◌, pure, fail, get, modify, field_overflow, indeterminate,
  out_of_fuel, more_than_one_writer, cannot_register_client, cannot_register_journal,
  server_buffer_not_allocated,
}
use option_hedge.Journal.PageUtil.{load_page_buffer, release_page_buffer}
use option_hedge.Journal.Page.{Page, load_page}
use option_hedge.Paged.Msg.{
  occupied, holding, requesting, allocated, more_than_one_write, is_status, PageCommMsg, CommTable,
  set_msg,
}
use option_hedge.Paged.Socket.{
  RequestType, reader_register, writer_register, client_exit, journal_register, request_type_code,
  PagedSocketRequest, Response, rsp_client, rsp_journal, rsp_strategy, unanswered,
}

-- What a client shares with the engine, over a state that has both: the table, the client's own
-- process, a request sent and answered over the socket, and a step of everybody else.
pub record Service (os : Os) (S : Type 0) : Type 1 where
  pub table : S → CommTable
  pub set_table : CommTable → S → S
  pub on_client : {A : Type 0} → M (Sys os) A → M S A
  pub exchange : PagedSocketRequest → M S Response
  pub others_step : M S (Unit {0})

-- The members of ClientPageProvider but for the address of the table.
pub record ClientPageProvider : Type 0 where
  pub client_name : Text
  pub is_writer : Bool
  pub revise_allowed : Bool

abbrev same_type : RequestType → RequestType → Bool
same_type a b = request_type_code a == request_type_code b

abbrev pub request : RequestType → ℕ → PagedSocketRequest
request t pid = record { type = t; name = List.[]; pid = pid; source = 0 }

abbrev pub held : ClientPageProvider → Text → Text → PageCommMsg → PageCommMsg
held c dir jname msg = record msg {
  folder = dir;
  name = jname;
  is_writer = c.is_writer;
  status = holding;
}

abbrev pub asked : ℕ → PageCommMsg → PageCommMsg
asked page_num msg = record msg { page_num = page_num; status = requesting }

module _ {S : Type 0} (os : Os) (service : Service os S) where
  -- getSocketRspOnReq: the name is copied with its NUL.
  unfoldable pub get_socket_rsp_on_req : PagedSocketRequest → Text → M S Response
  get_socket_rsp_on_req req name =
      if ltb (length name) journal_short_name_max_length
      then service.exchange (record req { name = name })
      else fail field_overflow

  -- The response read as PagedSocketRspClient. `pid` is what getpid () answers.
  unfoldable pub register_client_on : RequestType → Response → M S (Unit {0})
  register_client_on t (rsp_client u success comm_file size) =
      if same_type u t && success
      then elim size [
        | none ↦ fail indeterminate
        | some n ↦ do
          buffer ← service.on_client (load_page_buffer os comm_file n true false)
          pure tt
      ]
      else fail cannot_register_client
  register_client_on t (rsp_journal u success idx) =
      if same_type u t && success then fail indeterminate else fail cannot_register_client
  register_client_on t (rsp_strategy u success from to) =
      if same_type u t && success then fail indeterminate else fail cannot_register_client
  register_client_on t (unanswered req) =
      if same_type req.type t then fail indeterminate else fail cannot_register_client

  unfoldable pub client_register_client : ℕ → ClientPageProvider → M S (Unit {0})
  client_register_client pid c = do
    let t = if c.is_writer then writer_register else reader_register
    rsp ← get_socket_rsp_on_req (request t pid) c.client_name
    register_client_on t rsp

  -- The constructor.
  unfoldable pub client_page_provider : ℕ → Text → Bool → Bool → M S ClientPageProvider
  client_page_provider pid name is_writing revise_allowed = do
    let c : ClientPageProvider = record {
      client_name = name;
      is_writer = is_writing;
      revise_allowed = is_writing || revise_allowed;
    }
    client_register_client pid c
    pure c

  unfoldable pub client_exit_client : ClientPageProvider → M S (Unit {0})
  client_exit_client c = do
    rsp ← get_socket_rsp_on_req (request client_exit 0) c.client_name
    pure tt

  -- The response read as PagedSocketRspJournal: the index in the table.
  unfoldable pub comm_idx_of : Response → M S ℕ
  comm_idx_of (rsp_journal u success idx) =
      if same_type u journal_register && success then pure idx else fail cannot_register_journal
  comm_idx_of (rsp_client u success comm_file size) =
      if same_type u journal_register && success
      then fail indeterminate
      else fail cannot_register_journal
  comm_idx_of (rsp_strategy u success from to) =
      if same_type u journal_register && success
      then fail indeterminate
      else fail cannot_register_journal
  comm_idx_of (unanswered req) =
      if same_type req.type journal_register
      then fail indeterminate
      else fail cannot_register_journal

  -- The message at the index is filled in, if the engine has marked it.
  unfoldable pub hold_message : ClientPageProvider → Text → Text → ℕ → M S ℕ
  hold_message c dir jname idx s =
      let msg = service.table s idx in
      if is_status msg.status occupied
      then if ltb (length dir) journal_folder_max_length
          && ltb (length jname) journal_short_name_max_length
        then ok (idx, service.set_table (set_msg idx (held c dir jname msg) (service.table s)) s)
        else err field_overflow
      else err server_buffer_not_allocated

  unfoldable pub client_register_journal : ClientPageProvider → Text → Text → M S ℕ
  client_register_journal c dir jname = do
    rsp ← get_socket_rsp_on_req (request journal_register 0) c.client_name
    idx ← comm_idx_of rsp
    hold_message c dir jname idx

  -- The loop that waits for the engine; a round is a step of everybody else.
  unfoldable pub wait_answer : ℕ → ℕ → M S (Unit {0})
  wait_answer zero idx s = err out_of_fuel
  wait_answer (suc fuel) idx s = elim (is_status (service.table s idx).status requesting) [
    | false ↦ ok (tt, s)
    | true ↦ elim (service.others_step s) [ ok (u, s') ↦ wait_answer fuel idx s' | err x ↦ err x ]
  ]

  -- What is done about the answer.
  unfoldable pub take_answer :
      ClientPageProvider → Text → Text → ℕ → PageCommMsg → M S (Option Page)
  take_answer c dir jname page_num msg =
      if is_status msg.status allocated
      then service.on_client (load_page os dir jname page_num c.revise_allowed true)
      else if is_status msg.status more_than_one_write
      then fail more_than_one_writer
      else pure none

  unfoldable pub client_get_page : ℕ → ClientPageProvider → Text → Text → ℕ → ℕ → M S (Option Page)
  client_get_page fuel c dir jname idx page_num = do
    modify (λ s.
        service.set_table (set_msg idx (asked page_num (service.table s idx)) (service.table s)) s)
    wait_answer fuel idx
    s ← get
    take_answer c dir jname page_num (service.table s idx)

  unfoldable pub client_release_page : ℕ → ℕ → M S (Unit {0})
  client_release_page buffer size = service.on_client (release_page_buffer os buffer size true)
