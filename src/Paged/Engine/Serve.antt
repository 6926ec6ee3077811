-- ===== src/Paged/Engine/Serve.antt =====
-- The comm thread of paged/PageEngine.cpp: one request served.
use option_hedge.Base.{ℕ, ◌≡◌, ◌≢◌, ap, arith, Bool-cases, inl, inr, ◌∙◌}
use option_hedge.Os.{Os, Result-cases, ok}
use option_hedge.Paged.Msg.{
  CommStatus, raw, requesting, comm_status_code, is_status, PageCommMsg, file_key, key_of,
  CommTable, set_msg,
}
use option_hedge.Paged.Engine.{SystemWriter, Engine}
use option_hedge.Paged.Engine.Files.{initiate_page}
use option_hedge.Paged.Engine.Requests.{has_old_page, give_up_old, serve}
use option_hedge.Paged.Engine.Pages.{Kept, initiate_page-Kept}
use option_hedge.Paged.Engine.Release.{release_page-Kept}

module _ (os : Os) (system : SystemWriter os) where
  give_up_old-Kept :
      (msg : PageCommMsg) (e f : Engine os system)
      → give_up_old os system msg e ≡ ok (tt, f)
      → Kept os system e f
  unfolding give_up_old
  give_up_old-Kept msg e f h = elim (Bool-cases (has_old_page msg)) [
    | inl old ↦
        release_page-Kept os system (record msg { page_num = msg.last_page_num }) e f (ground arith)
    | inr fresh ↦ ground arith
  ]

  -- What a round of the loop that does not fail leaves of the state and of the table.
  pub record Served (idx : ℕ) (e f : Engine os system) : Type 0 where
    pub done : (f.comm idx).status ≢ requesting
    pub fills :
        (e.comm idx).status ≡ requesting
        → ((f.comm idx).last_page_num ≡ (e.comm idx).page_num)
          × (key_of (f.comm idx) ≡ key_of (e.comm idx))
          × ((f.comm idx).is_writer ≡ (e.comm idx).is_writer)
    pub others : (i : ℕ) → i ≢ idx → f.comm i ≡ e.comm i
    pub still_raw : (i : ℕ) → (f.comm i).status ≡ raw → (e.comm i).status ≡ raw
    pub clients : f.client_journals ≡ e.client_journals
    pub range : f.max_idx ≡ e.max_idx
    pub running : f.comm_running ≡ e.comm_running

  abbrev pub served : PageCommMsg → ℕ → CommStatus → Engine os system → Engine os system
  served msg idx s k = record k {
    comm = set_msg idx (record msg { status = s; last_page_num = msg.page_num }) k.comm;
  }

  served-Served :
      (idx : ℕ) (e k : Engine os system) (s : CommStatus)
      → k.comm ≡ e.comm
      → k.client_journals ≡ e.client_journals
      → k.max_idx ≡ e.max_idx
      → k.comm_running ≡ e.comm_running
      → s ≢ requesting
      → s ≢ raw
      → Served idx e (served (e.comm idx) idx s k)
  unfolding set_msg
  served-Served idx e k s table clients range running n r = record {
    done = ground arith;
    fills = λ asks. ground arith;
    others = λ i ne. ground (arith, ap (λ (t : CommTable). t i) table);
    still_raw = λ i h. ground (arith, ap (λ (t : CommTable). t i) table);
    clients = clients;
    range = range;
    running = running;
  }

  -- A round that returns has answered the request at its index, if there was one: the message is no
  -- longer requesting, its page has become its last page, and folder, name and kind are kept. No other
  -- message changes, no message becomes raw, and the clients and the range are as they were.
  pub serve-Served :
      (idx : ℕ) (e f : Engine os system) → serve os system idx e ≡ ok (tt, f) → Served idx e f
  unfolding serve set_msg comm_status_code
  serve-Served idx e f h = elim (Bool-cases (is_status (e.comm idx).status requesting)) [
    | inr idle ↦ ground arith
    | inl asks ↦ elim (Result-cases (give_up_old os system (e.comm idx) e)) [
      | inl (x, failed) ↦ ground arith
      | inr ((u, g), freed) ↦ elim (Result-cases (initiate_page os system (e.comm idx) g)) [
        | inl (x, failed) ↦ ground arith
        | inr ((s, k), answered) ↦
            let kept = give_up_old-Kept (e.comm idx) e g freed in
            let (kept', not_requesting, not_raw) =
              initiate_page-Kept os system (e.comm idx) g k s answered in
            let f_is : f ≡ served (e.comm idx) idx s k = ground (arith, freed, answered) in
            rw f_is (
              served-Served idx e k s (kept'.same_comm ∙ kept.same_comm)
                (kept'.same_clients ∙ kept.same_clients) (kept'.same_max_idx ∙ kept.same_max_idx)
                (kept'.same_running ∙ kept.same_running) not_requesting not_raw)
      ]
    ]
  ]
