-- ===== src/Paged/Engine/Requests.antt =====
-- paged/PageEngine.cpp: `exit_client`, the loop of the comm thread, and the operations that are still
-- stubs.
use option_hedge.Base.{
  ℕ, zero, suc, ◌+◌, ◌%◌, Bool, true, false, ◌&&◌, not, none, some, List, [], ◌∷◌, if◌then◌else◌,
  ◌==◌,
}
use option_hedge.Base.Text.{Text, text_eq}
use option_hedge.Base.Map.{Map, insert, erase, text_key, nat_eq}
use option_hedge.Base.Word.{short_lt}
use option_hedge.Constants.{strategy_end, msg_type_code}
use option_hedge.Os.{Os, M, ok, err, ◌>>=◌, ◌>>◌, pure, fail, get, modify, when, out_of_range}
use option_hedge.Paged.Msg.{
  raw, requesting, allocated, PageCommMsg, is_status, set_msg, set_comm_status,
}
use option_hedge.Paged.Engine.{PageClientInfo, SystemWriter, Engine, write}
use option_hedge.Paged.Engine.Files.{release_page, initiate_page}

-- `clients.erase (remove (...), clients.end ())`
unfoldable pub without : Text → List Text → List Text
without name [] = []
without name (x ∷ xs) = if text_eq x name then without name xs else x ∷ without name xs

abbrev is_empty : List Text → Bool
is_empty [] = true
is_empty (x ∷ xs) = false

-- `pidClient [pid]` makes an empty vector where there is none.
unfoldable pub leave_pid : ℕ → Text → Map ℕ (List Text) → Map ℕ (List Text)
unfolding without
leave_pid pid name m =
    let left = without name (elim (m pid) [ none ↦ [] | some names ↦ names ]) in
    if is_empty left then erase pid m else insert pid left m

-- The page that a client held before is given up when it asks for another one.
unfoldable pub has_old_page : PageCommMsg → Bool
has_old_page msg = short_lt 0 msg.last_page_num && not (msg.last_page_num == msg.page_num)

module _ (os : Os) (system : SystemWriter os) where
  abbrev E : Type 0
  E = Engine os system

  -- One round of the loop over the client's indices.
  unfoldable pub free_index : ℕ → M E (Unit {0})
  free_index idx e =
      let freed = λ (f : E). record f { comm = set_comm_status idx raw f.comm } in
      if is_status (e.comm idx).status allocated
      then elim (release_page os system (e.comm idx) e) [
        | ok (u, f) ↦ ok (tt, freed f)
        | err x ↦ err x
      ]
      else ok (tt, freed e)

  unfoldable pub free_indices : List ℕ → M E (Unit {0})
  free_indices [] = pure tt
  free_indices (idx ∷ ids) = do free_index idx; free_indices ids

  unfoldable pub forget_client : Text → ℕ → E → E
  forget_client name pid e = record e {
    pid_client = leave_pid pid name e.pid_client;
    client_journals = erase name e.client_journals;
  }

  module _ (dump : Text → Text → ℕ → ℕ → ℕ → Text) where
    -- The message about a strategy's end; `dump` is the JSON text of its five entries.
    unfoldable pub announce_end : PageClientInfo → List ℕ → M E (Unit {0})
    announce_end info [] = fail out_of_range
    announce_end info (idx ∷ ids) = do
      e ← get
      r ←
          write os system
            (dump (e.comm idx).name (e.comm idx).folder info.rid_start info.rid_end info.pid)
            (msg_type_code strategy_end) true 0
      pure tt

    unfoldable pub exit_client : Text → M E (Unit {0})
    unfolding announce_end
    exit_client name e = elim (e.client_journals name) [
      | none ↦ ok (tt, e)
      | some info ↦
          (when info.is_strategy (announce_end info info.user_index_vec)
              >> free_indices info.user_index_vec
              >> modify (forget_client name info.pid))
            e
    ]

  unfoldable pub give_up_old : PageCommMsg → M E (Unit {0})
  give_up_old msg =
      when (has_old_page msg) (release_page os system (record msg { page_num = msg.last_page_num }))

  -- One round of the loop of `start_comm`, at an index.
  unfoldable pub serve : ℕ → M E (Unit {0})
  serve idx e =
      let msg = e.comm idx in
      if is_status msg.status requesting
      then (give_up_old msg >> initiate_page os system msg >>= λ status. modify (λ f. record f {
        comm = set_msg idx (record msg { status = status; last_page_num = msg.page_num }) f.comm;
      }))
          e
      else ok (tt, e)

  -- `rounds` rounds of the loop, as long as `comm_running` holds.
  unfoldable pub start_comm : ℕ → ℕ → M E ℕ
  start_comm zero idx e = ok (idx, e)
  start_comm (suc rounds) idx e = elim e.comm_running [
    | false ↦ ok (idx, e)
    | true ↦ elim (serve idx e) [
      | ok (u, f) ↦ start_comm rounds ((idx + 1) % (f.max_idx + 1)) f
      | err x ↦ err x
    ]
  ]

  unfoldable pub register_strategy : Text → E → (ℕ × ℕ) × E
  register_strategy strategy_name e = ((0, 0), e)

  unfoldable pub sub_md : List Text → ℕ → ℕ → Bool → E → Bool × E
  sub_md tickers source msg_type is_last e = (true, e)

  unfoldable pub login_td : Text → ℕ → E → Bool × E
  login_td client_name source e = (true, e)
