-- ===== src/Paged/Socket/Exchange.antt =====
-- What a client and the handler make of each other's bytes: paged/PageSocketStruct.h,
-- `getSocketRspOnReq` of journal/PageProvider.cpp and `handle_accept` of paged/PageSocketHandler.cpp.
use option_hedge.Base.{
  ℕ, ◌^◌, ◌<◌, ◌≤◌, ◌≡◌, refl, ap, ◌∙◌, arith, Bool, true, false, some, if◌then◌else◌, List, length,
  All, take,
}
use option_hedge.Base.Text.{Text}
use option_hedge.Base.Memory.{Mem, blit, bytes_at}
use option_hedge.Base.Word.{int_lt}
use option_hedge.Os.{ok, err}
use option_hedge.Paged.Socket.{
  journal_register, request_type_code, PagedSocketRequest, rsp_journal, rsp_client, PageSocketUtil,
  process_msg, handle, register_journal, register_client, reader_register, writer_register,
  socket_message_max_length,
}
use option_hedge.Paged.Socket.Wire.{
  type_of, write_request, read_rsp_journal, read_rsp_client, request_length,
}
use option_hedge.Paged.Socket.Request.{received, IsRequest, read_request_of}
use option_hedge.Paged.Socket.Reply.{read_rsp_journal_of, read_rsp_client_of}
use option_hedge.Paged.Socket.Server.{Handler, receive, reply_of, replied, answer, handle_accept}

module _ {E : Type 0} (util : PageSocketUtil E) (unset : ℕ) where
  -- The handler answers the bytes of a request as `process_msg` answers the request, whatever its
  -- buffer held before and whatever the client's buffer held behind the request. The struct's bytes are
  -- to arrive with the first read.
  pub handle_accept-process_msg :
      (req : PagedSocketRequest) (junk : Mem) (n : ℕ) (h : Handler) (e : E)
      → IsRequest req
      → request_length ≤ n
      → n ≤ socket_message_max_length
      → let bytes = bytes_at n 0 (write_request req junk) in
        handle_accept util unset bytes h e ≡ elim (process_msg util req e) [
          | err x ↦ err x
          | ok (rsp, f) ↦ ok (replied util unset rsp (receive bytes h), f)
        ]
  unfolding handle_accept answer receive
  handle_accept-process_msg req junk n h e is_request whole fits =
      let read =
        read_request_of req junk is_request
          (blit 0 (take socket_message_max_length (bytes_at n 0 (write_request req junk))) h.buffer)
          (λ x inside. received n (write_request req junk) h.buffer x fits (omega arith)) in
      ap (λ r. answer util unset r (receive (bytes_at n 0 (write_request req junk)) h) e) read

  -- Registering a journal over the wire: the client sends the bytes of its request, and what it reads out
  -- of the bytes of the reply is the index that the engine gives for the client's name, with success
  -- where the index is not negative. The engine takes the step of `reg_journal` and no other.
  pub handle_accept-register_journal :
      (req : PagedSocketRequest) (junk buffer : Mem) (n : ℕ) (h : Handler) (e : E)
      → IsRequest req
      → req.type ≡ journal_register
      → request_length ≤ n
      → n ≤ socket_message_max_length
      → (util.reg_journal req.name e).0 < 2 ^ 32
      → (g : Handler) × (reply : List ℕ) × (handle_accept util unset
            (bytes_at n 0 (write_request req junk))
            h
            e
          ≡ ok ((g, reply), (util.reg_journal req.name e).1))
        × (read_rsp_journal (blit 0 (take socket_message_max_length reply) buffer)
            ≡ rsp_journal journal_register
                (if int_lt (util.reg_journal req.name e).0 0 then false else true)
                (util.reg_journal req.name e).0)
  unfolding process_msg handle register_journal reply_of
  handle_accept-register_journal req junk buffer n h e is_request for_journal whole fits idx_int =
      let bytes = bytes_at n 0 (write_request req junk) in
      let (idx, f) = util.reg_journal req.name e in
      let success = if int_lt idx 0 then false else true in
      let rsp = rsp_journal journal_register success idx in
      let (g, reply) = replied util unset rsp (receive bytes h) in
      let processed : process_msg util req e ≡ ok (rsp, f) = rw for_journal refl in
      (
        g,
        reply,
        handle_accept-process_msg req junk n h e is_request whole fits ∙ rw processed refl,
        read_rsp_journal_of unset journal_register success idx (receive bytes h).buffer
            (blit 0 (take socket_message_max_length reply) buffer)
            (unfold type_of request_type_code in refl) (unfold request_type_code in omega arith)
            idx_int
            (λ x inside. received socket_message_max_length g.buffer buffer x (omega arith) inside),
      )

  -- Registering a client over the wire: where the engine takes the name, the client reads success, and
  -- the name and the size of the file that holds the table, out of the bytes of the reply. The file's
  -- name is a text that fits the response.
  pub handle_accept-register_client :
      (req : PagedSocketRequest) (junk buffer : Mem) (n : ℕ) (h : Handler) (e f : E)
      (writing : Bool) (file : Text) (size : ℕ)
      → IsRequest req
      → req.type ≡ (if writing then writer_register else reader_register)
      → request_length ≤ n
      → n ≤ socket_message_max_length
      → util.reg_client req.name req.pid writing e ≡ ok (some (file, size), f)
      → length file < 100
      → All (λ c. 0 < c) file
      → size < 2 ^ 32
      → (g : Handler) × (reply : List ℕ) × (handle_accept util unset
            (bytes_at n 0 (write_request req junk))
            h
            e
          ≡ ok ((g, reply), f))
        × (read_rsp_client (blit 0 (take socket_message_max_length reply) buffer)
            ≡ some (rsp_client req.type true file (some size)))
  unfolding process_msg handle register_client reply_of
  handle_accept-register_client req junk buffer n h e f writing file size is_request of_type whole
        fits taken file_fits text size_int =
      let bytes = bytes_at n 0 (write_request req junk) in
      let rsp = rsp_client req.type true file (some size) in
      let (g, reply) = replied util unset rsp (receive bytes h) in
      (
        g,
        reply,
        handle_accept-process_msg req junk n h e is_request whole fits
            ∙ rw (processed writing of_type taken) refl,
        read_rsp_client_of unset req.type true file size (receive bytes h).buffer
            (blit 0 (take socket_message_max_length reply) buffer) is_request.type_known
            is_request.type_byte file_fits text size_int
            (λ x inside. received socket_message_max_length g.buffer buffer x (omega arith) inside),
      )
    where
      processed :
          (writing : Bool)
          → req.type ≡ (if writing then writer_register else reader_register)
          → util.reg_client req.name req.pid writing e ≡ ok (some (file, size), f)
          → process_msg util req e ≡ ok (rsp_client req.type true file (some size), f)
      processed true is_type took = ground (arith, is_type, took)
      processed false is_type took = ground (arith, is_type, took)
