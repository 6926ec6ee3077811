-- ===== src/Paged/Engine/Pages.antt =====
-- `initiate_page` and `release_page` of paged/PageEngine.cpp: who is counted, what is refused, and
-- which addresses the engine keeps.
use option_hedge.Base.{
  ℕ, ◌+◌, ◌<◌, ◌^◌, ◌≡◌, ◌≢◌, ◌⊎◌, inl, inr, refl, arith, Bool, true, false, none, some,
  Option-cases,
}
use option_hedge.Base.Text.{Text}
use option_hedge.Base.Map.{insert, text_key, beq_refl, beq_ne}
use option_hedge.Os.{Os, Result-cases, ok}
use option_hedge.Journal.PageUtil.{gen_page_full_path}
use option_hedge.Paged.Msg.{
  CommStatus, raw, requesting, allocated, non_exist, more_than_one_write, cannot_rename_from_temp,
  PageCommMsg, FileKey, file_key, key_of,
}
use option_hedge.Paged.Engine.{SystemWriter, Engine}
use option_hedge.Paged.Engine.Files.{
  Mapping, refused, mapped, find_mapping, create_mapping, from_temp, load_mapping, count_user,
  count_writer, count_reader, initiate_page,
}

module _ (os : Os) (system : SystemWriter os) where
  -- What neither a request nor a release of a page touches.
  pub record Kept (e f : Engine os system) : Type 0 where
    pub same_clients : f.client_journals ≡ e.client_journals
    pub same_comm : f.comm ≡ e.comm
    pub same_max_idx : f.max_idx ≡ e.max_idx
    pub same_running : f.comm_running ≡ e.comm_running

  -- The parts of the state that the search for a buffer leaves alone.
  record SameUsers (e f : Engine os system) : Type 0 where
    pub same_writers : f.file_writer_counts ≡ e.file_writer_counts
    pub same_readers : f.file_reader_counts ≡ e.file_reader_counts
    pub same_clients : f.client_journals ≡ e.client_journals
    pub same_comm : f.comm ≡ e.comm
    pub same_max_idx : f.max_idx ≡ e.max_idx
    pub same_running : f.comm_running ≡ e.comm_running

  -- The search for a buffer ends in a page's address, or in one of two refusals: a reader wants a file
  -- that is not there, or the temporary page cannot be renamed for a writer.
  abbrev IsOutcome : Bool → Mapping → Type 0
  IsOutcome w (mapped addr) = Unit
  IsOutcome w (refused s) =
      ((w ≡ false) × (s ≡ non_exist)) ⊎ ((w ≡ true) × (s ≡ cannot_rename_from_temp))

  find_mapping_lem :
      (path : Text) (w : Bool) (e f : Engine os system) (r : Mapping)
      → find_mapping os system path w e ≡ ok (r, f)
      → SameUsers e f × IsOutcome w r
  unfolding find_mapping create_mapping from_temp load_mapping
  find_mapping_lem path w e f r h = ground arith

  SameUsers-refl : (e : Engine os system) → SameUsers e e
  SameUsers-refl e = ground arith

  -- A successful request counts its user in a state that differs by the search, or was refused there.
  abbrev Counted : PageCommMsg → Engine os system → CommStatus → Engine os system → Type 0
  Counted msg e s f = (g : Engine os system) × SameUsers e g × (count_user os system msg g ≡ (s, f))

  after_mapping :
      (msg : PageCommMsg) (path : Text) (e f g : Engine os system) (s : CommStatus) (r : Mapping)
      → e.file_addrs path ≡ none
      → path ≡ gen_page_full_path msg.folder msg.name msg.page_num
      → find_mapping os system path msg.is_writer e ≡ ok (r, g)
      → initiate_page os system msg e ≡ ok (s, f)
      → Counted msg e s f ⊎ (SameUsers e f × IsOutcome msg.is_writer (refused s))
  unfolding initiate_page
  after_mapping msg path e f g s (refused t) absent p found h =
      let found' = rw p at found in
      let absent' = rw p at absent in
      let (same, outcome) = find_mapping_lem _ msg.is_writer e g (refused t) found' in
      inr (ground (arith, same), ground arith)
  after_mapping msg path e f g s (mapped addr) absent p found h =
      let (same, outcome) = find_mapping_lem _ msg.is_writer e g (mapped addr) found in
      inl (
        record g { file_addrs = insert path addr g.file_addrs },
        ground (arith, same),
        ground arith,
      )

  initiate_cases :
      (msg : PageCommMsg) (e f : Engine os system) (s : CommStatus)
      → initiate_page os system msg e ≡ ok (s, f)
      → Counted msg e s f ⊎ (SameUsers e f × IsOutcome msg.is_writer (refused s))
  unfolding initiate_page
  initiate_cases msg e f s h =
      let path = gen_page_full_path msg.folder msg.name msg.page_num in
      elim (Option-cases (e.file_addrs path)) [
        | inr (addr, known) ↦ inl (e, SameUsers-refl e, ground arith)
        | inl absent ↦ elim (Result-cases (find_mapping os system path msg.is_writer e)) [
          | inl (x, failed) ↦ ground arith
          | inr ((r, g), found) ↦ after_mapping msg path e f g s r absent refl found h
        ]
      ]

  pub initiate_page-Kept :
      (msg : PageCommMsg) (e f : Engine os system) (s : CommStatus)
      → initiate_page os system msg e ≡ ok (s, f)
      → Kept e f × (s ≢ requesting) × (s ≢ raw)
  unfolding initiate_page count_user count_writer count_reader
  initiate_page-Kept msg e f s h = (
    ground (arith, initiate_cases msg e f s h),
    λ r. ground (arith, initiate_cases msg e f s h),
    λ r. ground (arith, initiate_cases msg e f s h),
  )

  -- What a request does to the counts of writers: nothing, or its page, which nobody writes, has one.
  pub initiate_page-writers :
      (msg : PageCommMsg) (e f : Engine os system) (s : CommStatus)
      → initiate_page os system msg e ≡ ok (s, f)
      → (f.file_writer_counts ≡ e.file_writer_counts)
        ⊎ (f.file_writer_counts ≡ insert (key_of msg) 1 e.file_writer_counts)
  unfolding initiate_page count_user count_writer count_reader
  initiate_page-writers msg e f s h = ground (arith, initiate_cases msg e f s h)

  -- A request by a writer has three results. It is allocated, and counted, if nobody writes the page;
  -- it is refused if somebody does; or the temporary page could not be renamed. In the last two cases
  -- the writers are as they were, and in all of them so are the readers, the clients and the table.
  pub initiate_page-writer :
      (msg : PageCommMsg) (e f : Engine os system) (s : CommStatus)
      → msg.is_writer ≡ true
      → initiate_page os system msg e ≡ ok (s, f)
      → (((s ≡ allocated)
            × (e.file_writer_counts (key_of msg) ≡ none)
            × (f.file_writer_counts ≡ insert (key_of msg) 1 e.file_writer_counts))
          ⊎ (((s ≡ more_than_one_write)
                × (e.file_writer_counts (key_of msg) ≢ none)
                × (f.file_writer_counts ≡ e.file_writer_counts))
              ⊎ ((s ≡ cannot_rename_from_temp) × (f.file_writer_counts ≡ e.file_writer_counts))))
        × (f.file_reader_counts ≡ e.file_reader_counts)
        × (f.client_journals ≡ e.client_journals)
        × (f.comm ≡ e.comm)
  unfolding initiate_page count_user count_writer
  initiate_page-writer msg e f s w h = ground (arith, initiate_cases msg e f s h)

  -- The number of readers that the engine has counted on a page.
  abbrev pub readers_of : FileKey → Engine os system → ℕ
  readers_of key e = elim (e.file_reader_counts key) [ none ↦ 0 | some n ↦ n ]

  -- A request by a reader has two results: it is allocated, and the page's count of readers grows by
  -- one, while it stays an int, or there is no file, and nothing is counted. Every other page's count,
  -- the writers, the clients and the table are as they were.
  pub initiate_page-reader :
      (msg : PageCommMsg) (e f : Engine os system) (s : CommStatus)
      → msg.is_writer ≡ false
      → readers_of (key_of msg) e + 1 < 2 ^ 32
      → initiate_page os system msg e ≡ ok (s, f)
      → (((s ≡ allocated) × (readers_of (key_of msg) f ≡ readers_of (key_of msg) e + 1))
          ⊎ ((s ≡ non_exist) × (f.file_reader_counts ≡ e.file_reader_counts)))
        × ((key : FileKey) → key ≢ key_of msg → f.file_reader_counts key ≡ e.file_reader_counts key)
        × (f.file_writer_counts ≡ e.file_writer_counts)
        × (f.client_journals ≡ e.client_journals)
        × (f.comm ≡ e.comm)
  unfolding initiate_page count_user count_reader
  initiate_page-reader msg e f s r fits h = (
    ground (arith, initiate_cases msg e f s h, beq_refl (key_of msg)),
    λ key n. ground (arith, initiate_cases msg e f s h, beq_ne key (key_of msg) n),
    ground (arith, initiate_cases msg e f s h),
    ground (arith, initiate_cases msg e f s h),
    ground (arith, initiate_cases msg e f s h),
  )
