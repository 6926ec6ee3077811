-- ===== src/Paged/Socket/Wire.antt =====
-- The layout of the structs of paged/PageSocketStruct.h in a socket's buffer, `boost::array <char, 500>`:
-- how the client fills it with a request and reads the response, and the handler the other way round.
-- A struct that is initialised with `{}` is zero, also where it has padding.
use option_hedge.Base.{
  ℕ, zero, suc, ◌-◌, Bool, true, false, not, Option, none, some, if◌then◌else◌, ◌==◌, [], ◌∷◌, ◌++◌,
}
use option_hedge.Base.Text.{Text}
use option_hedge.Base.Memory.{Mem, load, store, blit}
use option_hedge.Paged.Socket.{
  RequestType, connection_test, strategy_register, journal_register, reader_register,
  writer_register, client_exit, subscribe, subscribe_tbc, td_login, timer_sec_diff, unknown,
  request_type_code, PagedSocketRequest, Response, rsp_client, rsp_journal, rsp_strategy,
  unanswered, socket_message_max_length,
}

unfoldable pub type_of : ℕ → RequestType
type_of n =
    if n == 0
    then connection_test
    else if n == 10
    then strategy_register
    else if n == 11
    then journal_register
    else if n == 12
    then reader_register
    else if n == 13
    then writer_register
    else if n == 19
    then client_exit
    else if n == 20
    then subscribe
    else if n == 21
    then subscribe_tbc
    else if n == 22
    then td_login
    else if n == 99
    then timer_sec_diff
    else unknown n

-- `memset (a, 0, n)`
unfoldable pub clear : ℕ → ℕ → Mem → Mem
clear zero a m = m
clear (suc n) a m = clear n (suc a) (store 1 a 0 m)

-- sizeof (PagedSocketRequest), which is packed
abbrev pub request_length : ℕ
request_length = 37

-- The struct, zero but for its fields, at the front of the buffer.
unfoldable pub write_request : PagedSocketRequest → Mem → Mem
write_request req m = store 2 35 req.source (
    store 4 31 req.pid (
      blit 1 (req.name ++ 0 ∷ [])
        (store 1 0 (request_type_code req.type) (clear request_length 0 m))))

-- The text at `a` up to its NUL, which is looked for in the next `n` bytes.
unfoldable pub text_at : ℕ → ℕ → Mem → Option Text
text_at zero a m = none
text_at (suc n) a m =
    let rest = text_at n (suc a) m in
    if m a == 0 then some [] else elim rest [ none ↦ none | some cs ↦ some (m a ∷ cs) ]

-- The cases of the handler that use the name of a request.
unfoldable pub reads_name : RequestType → Bool
reads_name journal_register = true
reads_name reader_register = true
reads_name writer_register = true
reads_name _ = false

abbrev request_at : Mem → Text → PagedSocketRequest
request_at m name = record {
  type = type_of (load 1 0 m);
  name = name;
  pid = load 4 31 m;
  source = load 2 35 m;
}

-- The buffer cast to a request: `none` if a name is used that has no NUL in front of the end of the
-- buffer.
unfoldable pub read_request : Mem → Option PagedSocketRequest
read_request m = elim (text_at (socket_message_max_length - 1) 1 m) [
  | none ↦ if reads_name (type_of (load 1 0 m)) then none else some (request_at m [])
  | some name ↦ some (request_at m name)
]

abbrev pub bool_code : Bool → ℕ
bool_code true = 1
bool_code false = 0

-- PageSocketResponse, the base of the responses.
unfoldable pub write_base : RequestType → Bool → Mem → Mem
write_base t success m = store 1 1 (bool_code success) (store 1 0 (request_type_code t) m)

-- The response copied to the front of the buffer. `unset` is what an int holds that is not set.
unfoldable pub write_response : ℕ → Response → Mem → Mem
write_response unset (rsp_client t success comm_file file_size) m =
    let size : ℕ = elim file_size [ none ↦ unset | some n ↦ n ] in
    blit 102 (comm_file ++ 0 ∷ []) (store 4 204 size (write_base t success (clear 208 0 m)))
write_response unset (rsp_journal t success comm_idx) m =
    store 4 104 comm_idx (write_base t success (clear 108 0 m))
write_response unset (rsp_strategy t success rid_start rid_end) m =
    store 4 108 rid_end (store 4 104 rid_start (write_base t success (clear 112 0 m)))
write_response unset (unanswered req) m = m

-- The buffer cast to PagedSocketRspJournal and to PagedSocketRspClient.
unfoldable pub read_rsp_journal : Mem → Response
read_rsp_journal m = rsp_journal (type_of (load 1 0 m)) (not (load 1 1 m == 0)) (load 4 104 m)

unfoldable pub read_rsp_client : Mem → Option Response
read_rsp_client m = elim (text_at (socket_message_max_length - 102) 102 m) [
  | none ↦ none
  | some comm_file ↦
      some
        (rsp_client (type_of (load 1 0 m)) (not (load 1 1 m == 0)) comm_file (some (load 4 204 m)))
]
