-- ===== src/Paged/Socket/Server.antt =====
-- paged/PageSocketHandler.cpp but for `process_msg`: the handler's life, and one connection after the
-- other. The sockets of boost::asio enter as the bytes that `read_some` gives at each connection.
use option_hedge.Base.{ℕ, Bool, true, false, Option, none, some, List, [], ◌∷◌, take}
use option_hedge.Base.Memory.{Mem, blit, bytes_at}
use option_hedge.Os.{M, ok, err, field_overflow}
use option_hedge.Paged.Socket.{
  PagedSocketRequest, Response, PageSocketUtil, process_msg, socket_message_max_length,
}
use option_hedge.Paged.Socket.Wire.{read_request, write_response}

-- `_data` and `io_running`, and whether `_io`, `_acceptor` and `_socket` are set and not closed.
pub record Handler : Type 0 where
  pub buffer : Mem
  pub io_running : Bool
  pub io : Bool
  pub acceptor : Bool
  pub socket : Bool

-- The constructor; the statics are zero.
unfoldable pub new_handler : Handler
new_handler = record {
  buffer = λ _. 0;
  io_running = false;
  io = false;
  acceptor = false;
  socket = false;
}

-- getInstance, where the option is what `m_ptr` holds.
unfoldable pub get_handler : Option Handler → Handler
get_handler (some h) = h
get_handler none = new_handler

unfoldable pub is_running : Handler → Bool
is_running h = h.io_running

unfoldable pub stop_handler : Handler → Handler
stop_handler h = record h { io_running = false; acceptor = false; socket = false }

-- `run` up to `_io->run ()`.
unfoldable pub open_handler : Handler → Handler
open_handler h = record h { io_running = true; io = true; acceptor = true; socket = true }

-- The bytes of one `read_some`, over what the buffer held.
unfoldable pub receive : List ℕ → Handler → Handler
receive bytes h = record h { buffer = blit 0 (take socket_message_max_length bytes) h.buffer }

-- The whole buffer is sent.
unfoldable pub reply_of : Handler → List ℕ
reply_of h = bytes_at socket_message_max_length 0 h.buffer

module _ {E : Type 0} (util : PageSocketUtil E) (unset : ℕ) where
  -- The response in the buffer, and the buffer sent.
  abbrev pub replied : Response → Handler → Handler × List ℕ
  replied rsp h =
      let g : Handler = record h { buffer = write_response unset rsp h.buffer } in (g, reply_of g)

  -- `process_msg` on the request in the buffer, and the answer.
  unfoldable pub answer : Option PagedSocketRequest → Handler → M E (Handler × List ℕ)
  answer none h e = err field_overflow
  answer (some req) h e = elim (process_msg util req e) [
    | err x ↦ err x
    | ok (rsp, f) ↦ ok (replied rsp h, f)
  ]

  unfoldable pub handle_accept : List ℕ → Handler → M E (Handler × List ℕ)
  handle_accept bytes h = answer (read_request (receive bytes h).buffer) (receive bytes h)

  -- The connections that `_io->run ()` handles, with the replies.
  unfoldable pub handle_connections : List (List ℕ) → Handler → M E (Handler × List (List ℕ))
  handle_connections [] h e = ok ((h, []), e)
  handle_connections (bytes ∷ later) h e = elim (handle_accept bytes h e) [
    | err x ↦ err x
    | ok ((g, reply), f) ↦ elim (handle_connections later g f) [
      | err x ↦ err x
      | ok ((k, replies), o) ↦ ok ((k, reply ∷ replies), o)
    ]
  ]

  unfoldable pub run_handler : List (List ℕ) → Handler → M E (Handler × List (List ℕ))
  run_handler connections h = handle_connections connections (open_handler h)
