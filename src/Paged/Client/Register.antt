-- ===== src/Paged/Client/Register.antt =====
-- `register_journal` of journal/PageProvider.cpp joined with the socket handler and `reg_journal` of the
-- engine: a message of the table goes from raw to holding.
use option_hedge.Base.{ℕ, ◌<◌, ◌≤◌, ◌≡◌, ◌≢◌, refl, arith, some, length}
use option_hedge.Base.Text.{Text}
use option_hedge.Constants.{journal_short_name_max_length, journal_folder_max_length}
use option_hedge.Os.{Os, ok}
use option_hedge.Paged.Msg.{occupied, holding, comm_status_code, set_msg, max_comm_user_number}
use option_hedge.Paged.Engine.{PageClientInfo, SystemWriter, Engine, reg_journal}
use option_hedge.Paged.Engine.Slots.{IsRaw, reg_journal-free}
use option_hedge.Paged.Socket.{request_type_code, process_msg}
use option_hedge.Paged.Client.{
  ClientPageProvider, get_socket_rsp_on_req, comm_idx_of, hold_message, held,
  client_register_journal,
}
use option_hedge.Paged.Client.Rounds.{Both, engine_service}

module _ (os : Os) (system : SystemWriter os) (dump : Text → Text → ℕ → ℕ → ℕ → Text) where
  -- The engine as the socket handler finds it.
  abbrev called : Both os system → Engine os system
  called b = record (b.engine) { sys = record (b.engine.sys) { world = b.client.world } }

  -- The state when a journal is registered.
  abbrev pub journal_held :
      ClientPageProvider → Text → Text → Both os system → ℕ → Engine os system → Both os system
  journal_held c dir jname b idx f = record {
    client = record (b.client) { world = f.sys.world };
    engine = record f { comm = set_msg idx (held c dir jname (f.comm idx)) f.comm };
  }

  -- What the client's call comes to, if the engine answers with an index whose message is occupied.
  client_register_journal-answered :
      (turn : ℕ) (c : ClientPageProvider) (dir jname : Text) (b : Both os system) (idx : ℕ)
      (f : Engine os system)
      → length c.client_name < journal_short_name_max_length
      → length dir < journal_folder_max_length
      → length jname < journal_short_name_max_length
      → reg_journal os system c.client_name (called b) ≡ (idx, f)
      → idx < max_comm_user_number
      → (f.comm idx).status ≡ occupied
      → client_register_journal os (engine_service os system dump turn) c dir jname b
        ≡ ok (idx, journal_held c dir jname b idx f)
  unfolding client_register_journal get_socket_rsp_on_req comm_idx_of hold_message process_msg
      request_type_code comm_status_code
  client_register_journal-answered turn c dir jname b idx f name_fits dir_fits jname_fits h small
        at =
      ground (arith, h, at)

  -- A registered client that registers a journal, while a message among the first 1000 is raw, is
  -- answered the first raw index; the message there holds the journal's folder and name and the
  -- client's kind, with no last page, and every other message is as it was. The client's name, the
  -- folder and the journal's name must fit their fields.
  pub client_register_journal-free :
      (turn : ℕ) (c : ClientPageProvider) (dir jname : Text) (b : Both os system)
      (info : PageClientInfo) (k : ℕ)
      → length c.client_name < journal_short_name_max_length
      → length dir < journal_folder_max_length
      → length jname < journal_short_name_max_length
      → b.engine.client_journals c.client_name ≡ some info
      → k < max_comm_user_number
      → IsRaw b.engine.comm k
      → (idx : ℕ) × (b' : Both os system) × (client_register_journal os
            (engine_service os system dump turn)
            c
            dir
            jname
            b
          ≡ ok (idx, b'))
        × (idx ≤ k)
        × IsRaw b.engine.comm idx
        × ((b'.engine.comm idx).status ≡ holding)
        × ((b'.engine.comm idx).folder ≡ dir)
        × ((b'.engine.comm idx).name ≡ jname)
        × ((b'.engine.comm idx).is_writer ≡ c.is_writer)
        × ((b'.engine.comm idx).last_page_num ≡ 0)
        × ((i : ℕ) → i ≢ idx → b'.engine.comm i ≡ b.engine.comm i)
  unfolding set_msg
  client_register_journal-free turn c dir jname b info k name_fits dir_fits jname_fits known small
        r =
      let (idx, f) = reg_journal os system c.client_name (called b) in
      let (below, is_raw, before, marked, no_page, others, listed, unlisted, covered) =
        reg_journal-free os system (called b) c.client_name info k known small r in
      (
        idx,
        journal_held c dir jname b idx f,
        client_register_journal-answered turn c dir jname b idx f name_fits dir_fits jname_fits refl
            (omega arith) marked,
        below,
        is_raw,
        ground arith,
        ground arith,
        ground arith,
        ground arith,
        ground (arith, no_page),
        λ i n. ground (arith, others i n),
      )
