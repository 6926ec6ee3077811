-- ===== src/Paged/Engine/Counts.antt =====
-- The counts of writers in paged/PageEngine.cpp: a request and a release leave a page at most one.
use option_hedge.Base.{
  ℕ, ◌≡◌, ◌⊎◌, inl, inr, arith, some, none, List, [], ◌∷◌, Bool-cases, Option, ap, sym, ◌∙◌, subst,
}
use option_hedge.Base.Map.{Map, insert, text_key}
use option_hedge.Os.{Os, Result-cases, ok}
use option_hedge.Paged.Msg.{
  CommStatus, PageCommMsg, FileKey, file_key, key_of, key_beq, key_beq_iff, requesting, allocated,
  is_status,
}
use option_hedge.Paged.Engine.{SystemWriter, Engine}
use option_hedge.Paged.Engine.Files.{release_page, initiate_page}
use option_hedge.Paged.Engine.Pages.{initiate_page-writers}
use option_hedge.Paged.Engine.Release.{release_page-writer, release_page-reader_undefined}
use option_hedge.Paged.Engine.Requests.{give_up_old, has_old_page, serve, free_index, free_indices}

-- No page has a count of writers other than one.
abbrev pub IsSingle : Map FileKey ℕ → Type 0
IsSingle m = (key : FileKey) → (m key ≡ none) ⊎ (m key ≡ some 1)

IsSingle-insert : (k : FileKey) (m : Map FileKey ℕ) → IsSingle m → IsSingle (insert k 1 m)
IsSingle-insert k m one key = elim (Bool-cases (key_beq key k)) [
  | inl same ↦ inr (ground (arith, same))
  | inr apart ↦ rw apart (one key)
]

module _ (os : Os) (system : SystemWriter os) where
  pub release_page-IsSingle :
      (msg : PageCommMsg) (e f : Engine os system)
      → release_page os system msg e ≡ ok (tt, f)
      → IsSingle e.file_writer_counts
      → IsSingle f.file_writer_counts
  release_page-IsSingle msg e f h one = elim (one (key_of msg)) [
    | inl free ↦
        let counts : f.file_writer_counts ≡ e.file_writer_counts =
          unfold release_page in ground (arith, h, free) in
        subst IsSingle (sym counts) one
    | inr held ↦ elim (Bool-cases msg.is_writer) [
      | inr reads ↦ absurd (cc (h, release_page-reader_undefined os system msg e reads held))
      | inl writer ↦
          let (gone, others, readers, clients, table) =
            release_page-writer os system msg e f writer held h in
          λ key. elim (Bool-cases (key_beq key (key_of msg))) [
            | inl same ↦
                inl (ap f.file_writer_counts ((key_beq_iff key (key_of msg)).0 same) ∙ gone)
            | inr apart ↦
                let kept = others key (λ e. cc (apart, (key_beq_iff key (key_of msg)).1 e)) in
                subst (λ (x : Option ℕ). (x ≡ none) ⊎ (x ≡ some 1)) (sym kept) (one key)
          ]
    ]
  ]

  pub initiate_page-IsSingle :
      (msg : PageCommMsg) (e f : Engine os system) (s : CommStatus)
      → initiate_page os system msg e ≡ ok (s, f)
      → IsSingle e.file_writer_counts
      → IsSingle f.file_writer_counts
  initiate_page-IsSingle msg e f s h one = elim (initiate_page-writers os system msg e f s h) [
    | inl same ↦ subst IsSingle (sym same) one
    | inr counted ↦
        subst IsSingle (sym counted) (IsSingle-insert (key_of msg) e.file_writer_counts one)
  ]

  pub give_up_old-IsSingle :
      (msg : PageCommMsg) (e f : Engine os system)
      → give_up_old os system msg e ≡ ok (tt, f)
      → IsSingle e.file_writer_counts
      → IsSingle f.file_writer_counts
  unfolding give_up_old
  give_up_old-IsSingle msg e f h one = elim (Bool-cases (has_old_page msg)) [
    | inl old ↦
        release_page-IsSingle (record msg { page_num = msg.last_page_num }) e f
          (ground (arith, h, old)) one
    | inr fresh ↦
        let counts : f.file_writer_counts ≡ e.file_writer_counts = ground (arith, h, fresh) in
        subst IsSingle (sym counts) one
  ]

  pub serve-IsSingle :
      (idx : ℕ) (e f : Engine os system)
      → serve os system idx e ≡ ok (tt, f)
      → IsSingle e.file_writer_counts
      → IsSingle f.file_writer_counts
  unfolding serve
  serve-IsSingle idx e f h one = elim (Bool-cases (is_status (e.comm idx).status requesting)) [
    | inr idle ↦
        let counts : f.file_writer_counts ≡ e.file_writer_counts = ground (arith, h, idle) in
        subst IsSingle (sym counts) one
    | inl asks ↦ elim (Result-cases (give_up_old os system (e.comm idx) e)) [
      | inl (x, failed) ↦ ground (arith, failed)
      | inr ((u, g), freed) ↦ elim (Result-cases (initiate_page os system (e.comm idx) g)) [
        | inl (x, failed) ↦ ground (arith, failed)
        | inr ((s, k), answered) ↦
            let counts : f.file_writer_counts ≡ k.file_writer_counts =
              ground (arith, freed, answered) in
            subst IsSingle (sym counts) (
              initiate_page-IsSingle (e.comm idx) g k s answered
                (give_up_old-IsSingle (e.comm idx) e g freed one))
      ]
    ]
  ]

  pub free_index-IsSingle :
      (idx : ℕ) (e f : Engine os system)
      → free_index os system idx e ≡ ok (tt, f)
      → IsSingle e.file_writer_counts
      → IsSingle f.file_writer_counts
  unfolding free_index
  free_index-IsSingle idx e f h one = elim (Bool-cases (is_status (e.comm idx).status allocated)) [
    | inr idle ↦
        let counts : f.file_writer_counts ≡ e.file_writer_counts = ground (arith, h, idle) in
        subst IsSingle (sym counts) one
    | inl held ↦ elim (Result-cases (release_page os system (e.comm idx) e)) [
      | inl (x, failed) ↦ ground (arith, failed)
      | inr ((u, g), released) ↦
          let counts : f.file_writer_counts ≡ g.file_writer_counts =
            ground (arith, h, held, released) in
          subst IsSingle (sym counts) (release_page-IsSingle (e.comm idx) e g released one)
    ]
  ]

  pub free_indices-IsSingle :
      (ids : List ℕ) (e f : Engine os system)
      → free_indices os system ids e ≡ ok (tt, f)
      → IsSingle e.file_writer_counts
      → IsSingle f.file_writer_counts
  unfolding free_indices
  free_indices-IsSingle [] e f h one =
      let counts : f.file_writer_counts ≡ e.file_writer_counts = ground (arith, h) in
      subst IsSingle (sym counts) one
  free_indices-IsSingle (idx ∷ ids) e f h one = elim (Result-cases (free_index os system idx e)) [
    | inl (x, failed) ↦ ground (arith, failed)
    | inr ((u, g), freed) ↦
        free_indices-IsSingle ids g f (ground (arith, freed))
          (free_index-IsSingle idx e g freed one)
  ]
