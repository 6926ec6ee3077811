-- ===== src/Tests/SocketTests.antt =====
-- The theorems on the socket's bytes, and on calendar times, at concrete inputs.
use option_hedge.Base.{ℕ, suc, ◌≡◌, refl, arith, true, some, List, take}
use option_hedge.Base.Text.{codes}
use option_hedge.Base.Memory.{Mem, blit, bytes_at}
use option_hedge.Os.{ok, err}
use option_hedge.Paged.Socket.{
  reader_register, journal_register, request_type_code, PagedSocketRequest, rsp_journal,
  PageSocketUtil, process_msg, socket_message_max_length,
}
use option_hedge.Paged.Socket.Wire.{type_of, write_request, read_rsp_journal}
use option_hedge.Paged.Socket.Request.{IsRequest}
use option_hedge.Paged.Socket.Server.{Handler, new_handler, receive, replied, handle_accept}
use option_hedge.Paged.Socket.Exchange.{handle_accept-process_msg, handle_accept-register_journal}

-- An engine that counts the journals, and takes every client.
abbrev counting : PageSocketUtil ℕ
counting = record {
  reg_journal = λ name e. (e, suc e);
  register_strategy = λ name e. ((0, 0), e);
  reg_client = λ name pid is_writer e. ok (some (codes "/comm", 4000), e);
  exit_client = λ name e. ok (tt, e);
  sub_md = λ tickers source msg_type is_last e. (true, e);
  login_td = λ name source e. (true, e);
}

abbrev pub journal_request : PagedSocketRequest
journal_request = record { type = journal_register; name = codes "quotes"; pid = 42; source = 0 }

abbrev reader_request : PagedSocketRequest
reader_request = record journal_request { type = reader_register }

pub journal_IsRequest : IsRequest journal_request
unfolding type_of request_type_code
journal_IsRequest = record {
  type_known = refl;
  type_byte = omega arith;
  name_fits = omega arith;
  name_text = omega arith;
  pid_int = omega arith;
  source_short = omega arith;
}

reader_IsRequest : IsRequest reader_request
unfolding type_of request_type_code
reader_IsRequest = record {
  type_known = refl;
  type_byte = omega arith;
  name_fits = omega arith;
  name_text = omega arith;
  pid_int = omega arith;
  source_short = omega arith;
}

-- What the two ends' buffers hold before.
abbrev pub sevens : Mem
sevens = λ _. 7

abbrev pub journal_bytes : List ℕ
journal_bytes = bytes_at 500 0 (write_request journal_request sevens)

abbrev reader_bytes : List ℕ
reader_bytes = bytes_at 37 0 (write_request reader_request sevens)

processed : process_msg counting journal_request 5 ≡ ok (rsp_journal journal_register true 5, 6)
unfolding process_msg
processed = refl

handle_accept-process_msg_example :
    handle_accept counting 9 journal_bytes new_handler 5
    ≡ elim (process_msg counting journal_request 5) [
      | err x ↦ err x
      | ok (rsp, f) ↦ ok (replied counting 9 rsp (receive journal_bytes new_handler), f)
    ]
handle_accept-process_msg_example =
    handle_accept-process_msg counting 9 journal_request sevens 500 new_handler 5 journal_IsRequest
      (omega arith) (omega arith)

handle_accept-register_journal_example :
    (g : Handler) × (reply : List ℕ) × (handle_accept counting 9 journal_bytes new_handler 5
      ≡ ok ((g, reply), 6))
    × (read_rsp_journal (blit 0 (take socket_message_max_length reply) sevens)
        ≡ rsp_journal journal_register true 5)
handle_accept-register_journal_example =
    handle_accept-register_journal counting 9 journal_request sevens sevens 500 new_handler 5
      journal_IsRequest refl (omega arith) (omega arith) (omega arith)
