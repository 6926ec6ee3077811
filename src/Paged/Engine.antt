-- ===== src/Paged/Engine.antt =====
-- paged/PageEngine.h and paged/PageEngine.cpp: the state of the engine and its operations. The mutex
-- that the source takes around a request makes each operation one step.
pub mod Files
pub mod Requests
pub mod Slots
pub mod Clients
pub mod Pages
pub mod Release
pub mod Serve
pub mod Loop
pub mod Refused
pub mod Links
pub mod Exit
pub mod Sound
pub mod Reach
pub mod Counts
pub mod Single
pub mod SystemJournal
pub mod Program
pub mod Threads
pub mod SocketThread
use option_hedge.Base.{
  ℕ, zero, suc, ◌+◌, ◌-◌, ◌%◌, ◌^◌, Bool, true, false, ◌&&◌, not, Option, none, some, List, [], ◌∷◌,
  ◌++◌, if◌then◌else◌, ◌==◌, ltb, length,
}
use option_hedge.Base.Text.{Text, codes, text_eq}
use option_hedge.Base.Map.{Map, insert, erase, text_key, nat_eq}
use option_hedge.Base.Word.{to_int, int_lt, short_lt, minus_one_int}
use option_hedge.Constants.{
  optionhedge_journal_folder, optionhedge_socket_folder, paged_journal_folder, paged_journal_name,
  journal_page_size, MsgType, paged_start, paged_end, strategy_end, msg_type_code,
}
use option_hedge.Os.{
  Os, Sys, M, Result, ok, err, ◌>>=◌, ◌>>◌, pure, fail, get, modify, when, foreign_iterator,
  out_of_range, unaccepted_interval, missing_return,
}
use option_hedge.Timer.{get_nano_time}
use option_hedge.Journal.PageUtil.{
  gen_page_full_path, load_page_buffer, release_page_buffer, file_exists,
}
use option_hedge.Paged.Msg.{
  CommStatus, raw, occupied, requesting, allocated, non_exist, more_than_one_write,
  cannot_rename_from_temp, PageCommMsg, FileKey, file_key, key_of, CommTable, set_msg,
  set_comm_status, is_status, max_comm_user_number, comm_size, zero_msg,
}

abbrev pub comm_file_name : Text
comm_file_name = optionhedge_journal_folder ++ codes "PAGE_ENGINE_COMM"

abbrev pub temp_page : Text
temp_page = optionhedge_journal_folder ++ codes "TEMP_PAGE"

abbrev pub paged_socket_file : Text
paged_socket_file = optionhedge_socket_folder ++ codes "paged.sock"

-- 1000000, in microseconds
abbrev pub interval_in_millisec : ℕ
interval_in_millisec = 1000000

pub record PageClientInfo : Type 0 where
  pub user_index_vec : List ℕ
  pub reg_nano : ℕ
  pub pid : ℕ
  pub hash_code : ℕ
  pub is_writing : Bool
  pub is_strategy : Bool
  pub rid_start : ℕ
  pub rid_end : ℕ
  pub trade_engine_vec : List ℕ

-- What a map's `operator []` makes.
abbrev pub empty_client : PageClientInfo
empty_client = record {
  user_index_vec = [];
  reg_nano = 0;
  pid = 0;
  hash_code = 0;
  is_writing = false;
  is_strategy = false;
  rid_start = 0;
  rid_end = 0;
  trade_engine_vec = [];
}

-- The writer of the system journal, once it is made. The arguments of `write_frame` are the data, the
-- source, the message type, the last flag and the request id.
pub record SystemWriter (os : Os) : Type 1 where
  pub State : Type 0
  pub write_frame : List ℕ → ℕ → ℕ → Bool → ℕ → State → M (Sys os) State

-- The loop for a free index, with the rounds that are left.
unfoldable pub find_raw : ℕ → ℕ → CommTable → ℕ
find_raw zero idx t = idx
find_raw (suc rounds) idx t =
    let later = find_raw rounds (idx + 1) t in if is_status (t idx).status raw then idx else later

abbrev pub add_to_pid : ℕ → Text → Map ℕ (List Text) → Map ℕ (List Text)
add_to_pid pid client_name m =
    insert pid (elim (m pid) [ none ↦ client_name ∷ [] | some names ↦ names ++ client_name ∷ [] ]) m

module _ (os : Os) (system : SystemWriter os) where
  -- The members of `PageEngine` but for its logger and threads; `comm` is what `commBuffer` maps. A
  -- mapped address is `none` where it is the null pointer.
  pub record Engine : Type 0 where
    pub sys : Sys os
    pub client_journals : Map Text PageClientInfo
    pub pid_client : Map ℕ (List Text)
    pub file_writer_counts : Map FileKey ℕ
    pub file_reader_counts : Map FileKey ℕ
    pub file_addrs : Map Text (Option ℕ)
    pub writer : Option system.State
    pub comm : CommTable
    pub comm_file : Text
    pub max_idx : ℕ
    pub microsec_freq : ℕ
    pub task_running : Bool
    pub comm_running : Bool

  -- The constructor. Before `start` there is no table, which is modelled as a zero one.
  unfoldable pub new_engine : Sys os → Engine
  new_engine s = record {
    sys = s;
    client_journals = λ _. none;
    pid_client = λ _. none;
    file_writer_counts = λ _. none;
    file_reader_counts = λ _. none;
    file_addrs = λ _. none;
    writer = none;
    comm = λ _. zero_msg;
    comm_file = comm_file_name;
    max_idx = 0;
    microsec_freq = interval_in_millisec;
    task_running = false;
    comm_running = false;
  }

  abbrev pub on_sys : {A : Type 0} → M (Sys os) A → M Engine A
  on_sys m e = elim (m e.sys) [ ok (a, s) ↦ ok (a, record e { sys = s }) | err f ↦ err f ]

  -- With a writer the function ends without a return statement.
  unfoldable pub write : Text → ℕ → Bool → ℕ → M Engine Bool
  write content msg_type is_last source e = elim e.writer [
    | none ↦ ok (false, e)
    | some w ↦
        elim (system.write_frame (content ++ 0 ∷ []) source (msg_type % 256) is_last minus_one_int w
          e.sys) [ ok (v, s) ↦ err missing_return | err f ↦ err f ]
  ]

  write_system : MsgType → M Engine (Unit {0})
  unfolding write msg_type_code
  write_system t = do r ← write [] (msg_type_code t) true 0; pure tt

  -- `start` up to the end of its wait, when both threads are up.
  unfoldable pub start_threads : M Engine (Unit {0})
  start_threads = do
    modify (λ e. record e {
      sys = record (e.sys) { world = os.remove paged_socket_file (e.sys.world) };
    })
    e ← get
    buffer ← on_sys (load_page_buffer os e.comm_file comm_size true true)
    modify (λ e. record e { comm = λ _. zero_msg; comm_running = true })

  -- `create_writer` is what JournalWriter::create comes to, with what the threads do in the meantime: in
  -- the build with USE_PAGED_SERVICE the writer is a client of the engine itself.
  unfoldable pub start : (Text → Text → M Engine system.State) → M Engine (Unit {0})
  unfolding write_system start_threads
  start create_writer = do
    start_threads
    w ← create_writer paged_journal_folder paged_journal_name
    modify (λ e. record e { writer = some w })
    f ← get
    when (not (int_lt 0 f.microsec_freq)) (fail unaccepted_interval)
    modify (λ e. record e { task_running = true })
    write_system paged_start

  unfoldable pub stop : M Engine (Unit {0})
  unfolding write_system
  stop = do
    write_system paged_end
    modify (λ e. record e { writer = none; task_running = false; comm_running = false })

  -- `scaled` is the conversion of a double, multiplied by a million, to an int.
  unfoldable pub set_freq : {Double : Type 0} → (Double → ℕ) → Double → M Engine (Unit {0})
  set_freq scaled second_freq = modify (λ e. record e { microsec_freq = scaled second_freq })

  -- The message at the index is taken before the client is looked up.
  unfoldable pub take_index : ℕ → Engine → Engine
  take_index idx e = record e {
    max_idx = if ltb e.max_idx idx then idx else e.max_idx;
    comm = set_msg idx (record (e.comm idx) { status = occupied; last_page_num = 0 }) e.comm;
  }

  unfoldable pub link_journal : Text → ℕ → Engine → ℕ × Engine
  link_journal client_name idx e = elim (e.client_journals client_name) [
    | none ↦ (minus_one_int, e)
    | some info ↦ (
      to_int idx,
      record e {
        client_journals =
            insert client_name
              (record info { user_index_vec = info.user_index_vec ++ to_int idx ∷ [] })
              e.client_journals;
      },
    )
  ]

  unfoldable pub reg_journal : Text → Engine → ℕ × Engine
  unfolding take_index link_journal
  reg_journal client_name e =
      let idx = find_raw max_comm_user_number 0 e.comm in
      if ltb max_comm_user_number idx
      then (minus_one_int, e)
      else link_journal client_name idx (take_index idx e)

  register : Text → ℕ → Bool → M Engine (Option (Text × ℕ))
  register client_name pid is_writer = do
    modify (λ e. record e { pid_client = add_to_pid pid client_name e.pid_client })
    nano ← on_sys (get_nano_time os)
    modify (λ e. record e {
      client_journals =
          insert client_name
            (record empty_client {
              reg_nano = nano;
              is_writing = is_writer;
              rid_start = minus_one_int;
              rid_end = minus_one_int;
              pid = pid;
            })
            e.client_journals;
    })
    e ← get
    pure (some (e.comm_file, comm_size))

  -- `none` is the result false, with which the two out parameters are left unset.
  unfoldable pub reg_client : Text → ℕ → Bool → M Engine (Option (Text × ℕ))
  unfolding register
  reg_client client_name pid is_writer e = elim (e.client_journals client_name) [
    | some info ↦ ok (none, e)
    | none ↦ register client_name pid is_writer e
  ]
