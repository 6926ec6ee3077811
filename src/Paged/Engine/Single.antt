-- ===== src/Paged/Engine/Single.antt =====
-- The counts of writers in paged/PageEngine.cpp: a page has at most one writer, whatever the engine does.
use option_hedge.Base.{
  ℕ, ◌≡◌, inl, inr, arith, List, [], ◌∷◌, Bool, Bool-cases, Option, Option-cases, sym, subst,
}
use option_hedge.Base.Text.{Text}
use option_hedge.Base.Map.{text_key}
use option_hedge.Os.{Os, Result-cases, ok}
use option_hedge.Paged.Msg.{file_key}
use option_hedge.Paged.Engine.{
  PageClientInfo, SystemWriter, Engine, reg_journal, take_index, link_journal, reg_client, write,
}
use option_hedge.Paged.Engine.Clients.{reg_client-new, reg_client-known}
use option_hedge.Paged.Engine.Requests.{free_indices, forget_client, announce_end, exit_client}
use option_hedge.Paged.Engine.Reach.{
  Step, registers, joins, serves, exits, writes, Reach, here, next,
}
use option_hedge.Paged.Engine.Counts.{IsSingle, serve-IsSingle, free_indices-IsSingle}

module _ (os : Os) (system : SystemWriter os) where
  registers-IsSingle :
      (name : Text) (pid : ℕ) (is_writer : Bool) (r : Option (Text × ℕ)) (e f : Engine os system)
      → reg_client os system name pid is_writer e ≡ ok (r, f)
      → IsSingle e.file_writer_counts
      → IsSingle f.file_writer_counts
  registers-IsSingle name pid is_writer r e f h one = elim (Option-cases (e.client_journals name)) [
    | inr (info, known) ↦
        let counts : f.file_writer_counts ≡ e.file_writer_counts =
          ground (arith, h, reg_client-known os system name pid is_writer e info known) in
        subst IsSingle (sym counts) one
    | inl free ↦
        let (g, done, now) = reg_client-new os system name pid is_writer e free in
        let counts : f.file_writer_counts ≡ e.file_writer_counts =
          ground (arith, h, done, now.same_writers) in
        subst IsSingle (sym counts) one
  ]

  joins-IsSingle :
      (name : Text) (e : Engine os system)
      → IsSingle e.file_writer_counts
      → IsSingle ((reg_journal os system name e).1).file_writer_counts
  unfolding reg_journal take_index link_journal
  joins-IsSingle name e one =
      let counts : ((reg_journal os system name e).1).file_writer_counts ≡ e.file_writer_counts =
        ground arith in
      subst IsSingle (sym counts) one

  module _ (dump : Text → Text → ℕ → ℕ → ℕ → Text) where
    announce_end-writers :
        (info : PageClientInfo) (ids : List ℕ) (e f : Engine os system)
        → announce_end os system dump info ids e ≡ ok (tt, f)
        → f.file_writer_counts ≡ e.file_writer_counts
    unfolding announce_end write
    announce_end-writers info [] e f h = ground (arith, h)
    announce_end-writers info (idx ∷ ids) e f h = ground (arith, h)

    exits-IsSingle :
        (name : Text) (e f : Engine os system)
        → exit_client os system dump name e ≡ ok (tt, f)
        → IsSingle e.file_writer_counts
        → IsSingle f.file_writer_counts
    unfolding exit_client forget_client
    exits-IsSingle name e f h one = elim (Option-cases (e.client_journals name)) [
      | inl unknown ↦
          let counts : f.file_writer_counts ≡ e.file_writer_counts = ground (arith, h, unknown) in
          subst IsSingle (sym counts) one
      | inr (info, known) ↦ elim (Bool-cases info.is_strategy) [
        | inr plain ↦ elim (Result-cases (free_indices os system info.user_index_vec e)) [
          | inl (x, failed) ↦ ground (arith, known, failed, plain)
          | inr ((u, g), freed) ↦
              let counts : f.file_writer_counts ≡ g.file_writer_counts =
                ground (arith, known, plain, freed) in
              subst IsSingle (sym counts)
                (free_indices-IsSingle os system info.user_index_vec e g freed one)
        ]
        | inl strategy ↦
            elim (Result-cases (announce_end os system dump info info.user_index_vec e)) [
              | inl (x, failed) ↦ ground (arith, known, failed, strategy)
              | inr ((u, d), announced) ↦
                  elim (Result-cases (free_indices os system info.user_index_vec d)) [
                    | inl (x, failed) ↦ ground (arith, known, failed, strategy, announced)
                    | inr ((v, g), freed) ↦
                        let told = announce_end-writers info info.user_index_vec e d announced in
                        let counts : f.file_writer_counts ≡ g.file_writer_counts =
                          ground (arith, known, strategy, announced, freed) in
                        subst IsSingle (sym counts) (
                          free_indices-IsSingle os system info.user_index_vec d g freed
                            (subst IsSingle (sym told) one))
                  ]
            ]
      ]
    ]

    Step-IsSingle :
        (e f : Engine os system)
        → Step os system dump e f
        → IsSingle e.file_writer_counts
        → IsSingle f.file_writer_counts
    Step-IsSingle e f (registers name pid is_writer r _ h) =
        registers-IsSingle name pid is_writer r e f h
    Step-IsSingle e _ (joins name k small r) = joins-IsSingle name e
    Step-IsSingle e f (serves idx _ h) = serve-IsSingle os system idx e f h
    Step-IsSingle e f (exits name _ h) = exits-IsSingle name e f h
    Step-IsSingle e _ (writes idx msg held used) = λ one. one

    -- Every state of a run counts at most one writer on each page, if the first one does.
    pub Reach-IsSingle :
        (e f : Engine os system)
        → IsSingle e.file_writer_counts
        → Reach os system dump e f
        → IsSingle f.file_writer_counts
    Reach-IsSingle e _ one here = one
    Reach-IsSingle e f one (next {f = g} run step) =
        Step-IsSingle g f step (Reach-IsSingle e g one run)
