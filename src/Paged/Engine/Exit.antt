-- ===== src/Paged/Engine/Exit.antt =====
-- `exit_client` of paged/PageEngine.cpp: which messages a client's exit frees.
use option_hedge.Base.{ℕ, ◌≡◌, ◌≢◌, inl, inr, arith, some, List, [], ◌∷◌, All, Bool-cases, ap, ◌∙◌}
use option_hedge.Base.Text.{Text}
use option_hedge.Base.Map.{erase, text_key}
use option_hedge.Os.{Os, ok, Result-cases}
use option_hedge.Paged.Msg.{allocated, is_status, set_msg, set_comm_status}
use option_hedge.Paged.Engine.{PageClientInfo, SystemWriter, Engine, write}
use option_hedge.Paged.Engine.Files.{release_page}
use option_hedge.Paged.Engine.Release.{release_page-Kept}
use option_hedge.Paged.Engine.Requests.{
  free_index, free_indices, exit_client, forget_client, announce_end,
}

module _ (os : Os) (system : SystemWriter os) where
  -- What the loop over a client's indices leaves alone.
  record Freed (ids : List ℕ) (e f : Engine os system) : Type 0 where
    pub same_clients : f.client_journals ≡ e.client_journals
    pub others : (i : ℕ) → All (λ k. i ≢ k) ids → f.comm i ≡ e.comm i

  free_index-Freed :
      (idx : ℕ) (e f : Engine os system)
      → free_index os system idx e ≡ ok (tt, f)
      → Freed (idx ∷ []) e f
  unfolding free_index set_comm_status set_msg
  free_index-Freed idx e f h = elim (Bool-cases (is_status (e.comm idx).status allocated)) [
    | inr idle ↦ record { same_clients = ground arith; others = λ i apart. ground (arith, apart.0) }
    | inl held ↦ elim (Result-cases (release_page os system (e.comm idx) e)) [
      | inl (x, failed) ↦ ground (arith, failed)
      | inr ((u, g), released) ↦
          let kept = release_page-Kept os system (e.comm idx) e g released in
          record {
            same_clients = ground (arith, released, kept.same_clients);
            others = λ i apart. ground (arith, released, apart.0, ap (λ t. t i) kept.same_comm);
          }
    ]
  ]

  free_indices-Freed :
      (ids : List ℕ) (e f : Engine os system)
      → free_indices os system ids e ≡ ok (tt, f)
      → Freed ids e f
  unfolding free_indices
  free_indices-Freed [] e f h = record {
    same_clients = ground arith;
    others = λ i apart. ground arith;
  }
  free_indices-Freed (idx ∷ ids) e f h = elim (Result-cases (free_index os system idx e)) [
    | inl (x, failed) ↦ ground (arith, failed)
    | inr ((u, g), freed) ↦
        let one = free_index-Freed idx e g freed in
        let rest = free_indices-Freed ids g f (ground (arith, freed)) in
        record {
          same_clients = rest.same_clients ∙ one.same_clients;
          others = λ i apart. rest.others i apart.1 ∙ one.others i (apart.0, tt);
        }
  ]

  module _ (dump : Text → Text → ℕ → ℕ → ℕ → Text) where
    announce_end-Freed :
        (info : PageClientInfo) (ids : List ℕ) (e f : Engine os system)
        → announce_end os system dump info ids e ≡ ok (tt, f)
        → Freed [] e f
    unfolding announce_end write
    announce_end-Freed info [] e f h = ground arith
    announce_end-Freed info (idx ∷ ids) e f h = record {
      same_clients = ground arith;
      others = λ i apart. ground arith;
    }

    -- A client's exit takes its name off, and leaves every other client and every message that is not
    -- on its list.
    pub exit_client-frees :
        (name : Text) (info : PageClientInfo) (e f : Engine os system)
        → e.client_journals name ≡ some info
        → exit_client os system dump name e ≡ ok (tt, f)
        → (f.client_journals ≡ erase name e.client_journals)
          × ((i : ℕ) → All (λ k. i ≢ k) info.user_index_vec → f.comm i ≡ e.comm i)
    unfolding exit_client forget_client
    exit_client-frees name info e f known h = elim (Bool-cases info.is_strategy) [
      | inr plain ↦ elim (Result-cases (free_indices os system info.user_index_vec e)) [
        | inl (x, failed) ↦ ground (arith, known, failed, plain)
        | inr ((u, g), freed) ↦
            let rest = free_indices-Freed info.user_index_vec e g freed in
            let f_is : f.client_journals ≡ erase name g.client_journals =
              ground (arith, known, plain, freed) in
            (
              f_is ∙ ap (erase name) rest.same_clients,
              λ i apart. ground (arith, known, plain, freed, rest.others i apart),
            )
      ]
      | inl strategy ↦
          elim (Result-cases (announce_end os system dump info info.user_index_vec e)) [
            | inl (x, failed) ↦ ground (arith, known, failed, strategy)
            | inr ((u, d), announced) ↦
                elim (Result-cases (free_indices os system info.user_index_vec d)) [
                  | inl (x, failed) ↦ ground (arith, known, failed, strategy, announced)
                  | inr ((v, g), freed) ↦
                      let told = announce_end-Freed info info.user_index_vec e d announced in
                      let rest = free_indices-Freed info.user_index_vec d g freed in
                      let f_is : f.client_journals ≡ erase name g.client_journals =
                        ground (arith, known, strategy, announced, freed) in
                      (
                        f_is ∙ ap (erase name) (rest.same_clients ∙ told.same_clients),
                        λ i apart. ground (
                          arith,
                          known,
                          strategy,
                          announced,
                          freed,
                          rest.others i apart,
                          told.others i tt,
                        ),
                      )
                ]
          ]
    ]
