-- ===== src/Paged/Socket.antt =====
-- paged/PageSocketStruct.h, paged/PageSocketHandler.h and paged/PageSocketHandler.cpp: the requests
-- that clients send over the socket, and the handler that answers them. The engine enters as the
-- interface `IPageSocketUtil`.
pub mod Wire
pub mod Server
pub mod Request
pub mod Reply
pub mod Exchange
pub mod Steps
use option_hedge.Base.{ℕ, Bool, true, false, Option, none, some, if◌then◌else◌, List}
use option_hedge.Base.Text.{Text}
use option_hedge.Base.Word.{int_lt}
use option_hedge.Os.{M, ok, err, pure}

abbrev pub socket_message_max_length : ℕ
socket_message_max_length = 500

abbrev pub socket_error_max_length : ℕ
socket_error_max_length = 100

-- PAGED_SOCKET_* and TIMER_SEC_DIFF_REQUEST, and any other byte.
pub data RequestType : Type 0 where
  connection_test : RequestType
  strategy_register journal_register reader_register writer_register client_exit : RequestType
  subscribe subscribe_tbc td_login : RequestType
  timer_sec_diff : RequestType
  unknown : ℕ → RequestType

unfoldable pub request_type_code : RequestType → ℕ
request_type_code connection_test = 0
request_type_code strategy_register = 10
request_type_code journal_register = 11
request_type_code reader_register = 12
request_type_code writer_register = 13
request_type_code client_exit = 19
request_type_code subscribe = 20
request_type_code subscribe_tbc = 21
request_type_code td_login = 22
request_type_code timer_sec_diff = 99
request_type_code (unknown n) = n

pub record PagedSocketRequest : Type 0 where
  pub type : RequestType
  pub name : Text
  pub pid : ℕ
  pub source : ℕ

-- PageSocketResponse with the members of the responses that extend it. The handler never sets an
-- error message. `none` is a member that is sent unset.
pub data Response : Type 0 where
  rsp_client : RequestType → Bool → Text → Option ℕ → Response
  rsp_journal : RequestType → Bool → ℕ → Response
  rsp_strategy : RequestType → Bool → ℕ → ℕ → Response
  -- The buffer is sent back as it came in.
  unanswered : PagedSocketRequest → Response

-- IPageSocketUtil, but for its logger and its mutex.
pub record PageSocketUtil (E : Type 0) : Type 0 where
  pub reg_journal : Text → E → ℕ × E
  pub register_strategy : Text → E → (ℕ × ℕ) × E
  pub reg_client : Text → ℕ → Bool → M E (Option (Text × ℕ))
  pub exit_client : Text → M E (Unit {0})
  pub sub_md : List Text → ℕ → ℕ → Bool → E → Bool × E
  pub login_td : Text → ℕ → E → Bool × E

module _ {E : Type 0} (util : PageSocketUtil E) where
  register_journal : PagedSocketRequest → M E Response
  register_journal req e =
      let (idx, f) = util.reg_journal req.name e in
      ok (rsp_journal req.type (if int_lt idx 0 then false else true) idx, f)

  register_client : PagedSocketRequest → Bool → M E Response
  register_client req is_writer e = elim (util.reg_client req.name req.pid is_writer e) [
    | err x ↦ err x
    | ok (none, f) ↦ ok (rsp_client req.type false List.[] none, f)
    | ok (some (comm_file, file_size), f) ↦
        ok (rsp_client req.type true comm_file (some file_size), f)
  ]

  handle : RequestType → PagedSocketRequest → M E Response
  unfolding register_journal register_client
  handle journal_register req = register_journal req
  handle reader_register req = register_client req false
  handle writer_register req = register_client req true
  handle _ req = pure (unanswered req)

  unfoldable pub process_msg : PagedSocketRequest → M E Response
  unfolding handle
  process_msg req = handle req.type req
