-- ===== src/Paged/Client/Exit.antt =====
-- `exit_client` of journal/PageProvider.cpp joined with the socket handler of
-- paged/PageSocketHandler.cpp, which has no case for the request.
use option_hedge.Base.{◌<◌, ◌≡◌, arith, ℕ, some, Bool-cases, inl, inr, length}
use option_hedge.Base.Text.{Text}
use option_hedge.Constants.{journal_short_name_max_length}
use option_hedge.Os.{Os, err, ◌>>◌, cannot_register_client}
use option_hedge.Paged.Engine.{PageClientInfo, SystemWriter, reg_client}
use option_hedge.Paged.Socket.{process_msg, request_type_code}
use option_hedge.Paged.Client.{
  ClientPageProvider, get_socket_rsp_on_req, register_client_on, client_register_client,
  client_exit_client,
}
use option_hedge.Paged.Client.Rounds.{Both, engine_service}

module _ (os : Os) (system : SystemWriter os) (dump : Text → Text → ℕ → ℕ → ℕ → Text) where
  -- A registered client that exits, and registers again under its name, is refused: the request to
  -- exit changes nothing of the engine, so the name is still taken.
  pub client_exit_client-refused :
      (turn pid : ℕ) (c : ClientPageProvider) (b : Both os system) (info : PageClientInfo)
      → length c.client_name < journal_short_name_max_length
      → b.engine.client_journals c.client_name ≡ some info
      → (client_exit_client os (engine_service os system dump turn) c
            >> client_register_client os (engine_service os system dump turn) pid c)
          b
        ≡ err cannot_register_client
  unfolding client_exit_client client_register_client get_socket_rsp_on_req register_client_on
      process_msg request_type_code reg_client
  client_exit_client-refused turn pid c b info fits known = elim (Bool-cases c.is_writer) [
    | inl writes ↦ ground (arith, fits, known, writes)
    | inr reads ↦ ground (arith, fits, known, reads)
  ]
