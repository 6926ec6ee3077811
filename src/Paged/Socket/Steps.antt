-- ===== src/Paged/Socket/Steps.antt =====
-- What a handled request does to the engine: `process_msg` of paged/PageSocketHandler.cpp.
use option_hedge.Base.{ℕ, ◌≡◌, inl, inr, sym, subst, arith, Bool, true, false, some, none, Option}
use option_hedge.Base.Text.{Text}
use option_hedge.Os.{ok, Result-cases}
use option_hedge.Paged.Socket.{
  RequestType, journal_register, reader_register, writer_register, PagedSocketRequest, Response,
  PageSocketUtil, process_msg, handle, register_journal, register_client,
}

module _ {E : Type 0} (util : PageSocketUtil E) where
  -- The engine after a request that is handled: as before, with a journal, or with a client.
  pub data Handled (e : E) : E → Type 0 where
    left : Handled e e
    joined : (name : Text) → Handled e (util.reg_journal name e).1
    registered :
        (name : Text) (pid : ℕ) (is_writer : Bool) (r : Option (Text × ℕ)) (f : E)
        → util.reg_client name pid is_writer e ≡ ok (r, f)
        → Handled e f

  register_client-Handled :
      (req : PagedSocketRequest) (is_writer : Bool) (rsp : Response) (e f : E)
      → register_client util req is_writer e ≡ ok (rsp, f)
      → Handled e f
  unfolding register_client
  register_client-Handled req is_writer rsp e f h =
      elim (Result-cases (util.reg_client req.name req.pid is_writer e)) [
        | inl (x, failed) ↦ ground (arith, h, failed)
        | inr ((none, g), done) ↦
            let same : f ≡ g = ground (arith, h, done) in
            subst (Handled e) (sym same) (registered req.name req.pid is_writer none g done)
        | inr ((some (file, size), g), done) ↦
            let same : f ≡ g = ground (arith, h, done) in
            subst (Handled e) (sym same)
              (registered req.name req.pid is_writer (some (file, size)) g done)
      ]

  handle-Handled :
      (t : RequestType) (req : PagedSocketRequest) (rsp : Response) (e f : E)
      → handle util t req e ≡ ok (rsp, f)
      → Handled e f
  unfolding handle register_journal
  handle-Handled journal_register req rsp e f h =
      let same : f ≡ (util.reg_journal req.name e).1 = ground (arith, h) in
      subst (Handled e) (sym same) (joined req.name)
  handle-Handled reader_register req rsp e f h = register_client-Handled req false rsp e f h
  handle-Handled writer_register req rsp e f h = register_client-Handled req true rsp e f h
  handle-Handled _ req rsp e f h =
      let same : f ≡ e = ground (arith, h) in subst (Handled e) (sym same) left

  pub process_msg-Handled :
      (req : PagedSocketRequest) (rsp : Response) (e f : E)
      → process_msg util req e ≡ ok (rsp, f)
      → Handled e f
  unfolding process_msg
  process_msg-Handled req rsp e f h = handle-Handled req.type req rsp e f h
