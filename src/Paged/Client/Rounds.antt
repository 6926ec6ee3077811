-- ===== src/Paged/Client/Rounds.antt =====
-- The client of journal/PageProvider.cpp joined with the engine of paged/PageEngine.cpp and the socket
-- handler of paged/PageSocketHandler.cpp: what a call of the client comes to.
use option_hedge.Base.{ℕ, suc, ◌≡◌, ◌≢◌, inl, inr, arith, true, false, none, some, refl, sym, ◌∙◌}
use option_hedge.Base.Text.{Text}
use option_hedge.Paged.Engine.Pages.{initiate_page-writer}
use option_hedge.Os.{Failure, Os, Sys, M, ok, err, Result-cases}
use option_hedge.Journal.Page.{Page, load_page}
use option_hedge.Paged.Msg.{
  CommStatus, requesting, allocated, comm_status_code, is_status, PageCommMsg, key_of, key_beq_iff,
  CommTable, set_msg,
}
use option_hedge.Paged.Engine.{SystemWriter, Engine}
use option_hedge.Paged.Engine.Files.{initiate_page}
use option_hedge.Paged.Engine.Requests.{serve, has_old_page, give_up_old}
use option_hedge.Paged.Engine.Serve.{serve-Served}
use option_hedge.Paged.Engine.SocketThread.{engine_util}
use option_hedge.Paged.Socket.{process_msg}
use option_hedge.Paged.Client.{
  Service, ClientPageProvider, client_get_page, wait_answer, take_answer, asked,
}

module _ (os : Os) (system : SystemWriter os) where
  -- The two processes. The world that they call is one.
  pub record Both : Type 0 where
    pub client : Sys os
    pub engine : Engine os system

module _ (os : Os) (system : SystemWriter os) (dump : Text → Text → ℕ → ℕ → ℕ → Text) where
  abbrev on_engine : {A : Type 0} → M (Engine os system) A → M (Both os system) A
  on_engine m b =
      elim (m (record (b.engine) { sys = record (b.engine.sys) { world = b.client.world } })) [
        | err x ↦ err x
        | ok (a, e) ↦
            ok (a, record { client = record (b.client) { world = e.sys.world }; engine = e })
      ]

  abbrev on_client_of : {A : Type 0} → M (Sys os) A → M (Both os system) A
  on_client_of m b = elim (m b.client) [
    | err x ↦ err x
    | ok (a, s) ↦ ok (a, record b { client = s })
  ]

  -- The engine's comm thread is at `turn` in each round.
  abbrev pub engine_service : ℕ → Service os (Both os system)
  engine_service turn = record {
    table = λ b. b.engine.comm;
    set_table = λ t b. record b { engine = record (b.engine) { comm = t } };
    on_client = on_client_of;
    exchange = λ req. on_engine (process_msg (engine_util os system dump) req);
    others_step = on_engine (serve os system turn);
  }

  -- The engine as it stands when the client has asked for a page, before its thread's next round.
  abbrev pub engine_asked : ℕ → ℕ → (Both os system) → Engine os system
  engine_asked idx page_num b = record (b.engine) {
    comm = set_msg idx (asked page_num (b.engine.comm idx)) b.engine.comm;
    sys = record (b.engine.sys) { world = b.client.world };
  }

  set_msg-same : (idx : ℕ) (msg : PageCommMsg) (t : CommTable) → set_msg idx msg t idx ≡ msg
  unfolding set_msg
  set_msg-same idx msg t = ground arith

  asked-status :
      (idx page_num : ℕ) (msg : PageCommMsg) (t : CommTable)
      → is_status (set_msg idx (asked page_num msg) t idx).status requesting ≡ true
  unfolding set_msg comm_status_code
  asked-status idx page_num msg t = ground arith

  done-status : (s : CommStatus) → s ≢ requesting → is_status s requesting ≡ false
  unfolding comm_status_code
  done-status s n = ground arith

  -- A client's wait is over after one round of the engine's thread at its message, whatever the
  -- engine answers: `getPage` comes to what the client does about the answer.
  pub client_get_page-answered :
      (fuel : ℕ) (c : ClientPageProvider) (dir jname : Text) (idx page_num : ℕ) (b : Both os system)
      (f : Engine os system)
      → serve os system idx (engine_asked idx page_num b) ≡ ok (tt, f)
      → client_get_page os (engine_service idx) (suc (suc fuel)) c dir jname idx page_num b
        ≡ take_answer os
            (engine_service idx)
            c
            dir
            jname
            page_num
            (f.comm idx)
            (record { client = record (b.client) { world = f.sys.world }; engine = f })
  unfolding client_get_page wait_answer
  client_get_page-answered fuel c dir jname idx page_num b f h =
      let s = serve-Served os system idx (engine_asked idx page_num b) f h in
      ground (
        arith,
        asked-status idx page_num (b.engine.comm idx) b.engine.comm,
        h,
        done-status (f.comm idx).status s.done,
      )

  serve-opens :
      (idx : ℕ) (msg : PageCommMsg) (e f : Engine os system)
      → e.comm idx ≡ msg
      → msg.status ≡ requesting
      → msg.is_writer ≡ true
      → has_old_page msg ≡ false
      → serve os system idx e ≡ ok (tt, f)
      → (f.comm idx).status ≡ allocated
      → (e.file_writer_counts (key_of msg) ≡ none) × (f.file_writer_counts (key_of msg) ≡ some 1)
  unfolding serve give_up_old comm_status_code set_msg
  serve-opens idx msg e f at asks writes first h opened =
      elim (Result-cases (initiate_page os system msg e)) [
        | inl (x, failed) ↦ ground (arith, failed)
        | inr ((s, k), answered) ↦
            let kinds = initiate_page-writer os system msg e k s writes answered in
            ground (arith, answered, kinds, (key_beq_iff (key_of msg) (key_of msg)).1 refl)
      ]

  serve-fails :
      (fuel : ℕ) (c : ClientPageProvider) (dir jname : Text) (idx page_num : ℕ) (b : Both os system)
      (x : Failure)
      → serve os system idx (engine_asked idx page_num b) ≡ err x
      → client_get_page os (engine_service idx) (suc (suc fuel)) c dir jname idx page_num b ≡ err x
  unfolding client_get_page wait_answer
  serve-fails fuel c dir jname idx page_num b x h =
      ground (arith, asked-status idx page_num (b.engine.comm idx) b.engine.comm, h)

  -- A page that is given leaves the engine as its thread left it, and means that it was allocated.
  take_answer-page :
      (idx : ℕ) (c : ClientPageProvider) (dir jname : Text) (page_num : ℕ) (msg : PageCommMsg)
      (b b' : Both os system) (p : Page)
      → take_answer os (engine_service idx) c dir jname page_num msg b ≡ ok (some p, b')
      → (msg.status ≡ allocated) × (b'.engine ≡ b.engine)
  unfolding take_answer comm_status_code
  take_answer-page idx c dir jname page_num msg b b' p h =
      elim (Result-cases (load_page os dir jname page_num c.revise_allowed true b.client)) [
        | inl (x, failed) ↦ ground (arith, failed)
        | inr ((q, s), loaded) ↦ ground (arith, loaded)
      ]

  -- A client that is given a page as a writer is its only writer: before the request no writer was
  -- counted on the page, and now there is one. It is stated for a request that gives up no other page.
  pub client_get_page-writer :
      (fuel : ℕ) (c : ClientPageProvider) (dir jname : Text) (idx page_num : ℕ)
      (b b' : Both os system) (p : Page)
      → (b.engine.comm idx).is_writer ≡ true
      → has_old_page (asked page_num (b.engine.comm idx)) ≡ false
      → client_get_page os (engine_service idx) (suc (suc fuel)) c dir jname idx page_num b
        ≡ ok (some p, b')
      → let key = key_of (asked page_num (b.engine.comm idx)) in
        (b.engine.file_writer_counts key ≡ none) × (b'.engine.file_writer_counts key ≡ some 1)
  client_get_page-writer fuel c dir jname idx page_num b b' p writes first h =
      elim (Result-cases (serve os system idx (engine_asked idx page_num b))) [
        | inl (x, failed) ↦ ground (arith, serve-fails fuel c dir jname idx page_num b x failed, h)
        | inr ((u, f), served) ↦
            let (opened, same) =
              take_answer-page idx c dir jname page_num (f.comm idx)
                (record { client = record (b.client) { world = f.sys.world }; engine = f }) b' p
                (sym (client_get_page-answered fuel c dir jname idx page_num b f served) ∙ h) in
            let (before, after) =
              serve-opens idx (asked page_num (b.engine.comm idx)) (engine_asked idx page_num b) f
                (set_msg-same idx (asked page_num (b.engine.comm idx)) b.engine.comm) refl writes
                first served opened in
            (before, rw same after)
      ]
