-- ===== src/Paged/Engine/Release.antt =====
-- `release_page` of paged/PageEngine.cpp: what a reader or a writer that gives a page up leaves behind.
use option_hedge.Base.{
  ℕ, ◌≡◌, ◌≢◌, sym, ap, arith, true, false, none, some, [], ◌∷◌, Option-cases, Bool-cases, inl, inr,
}
use option_hedge.Base.Text.{Text, text_eq_iff}
use option_hedge.Base.Map.{Map, insert, erase, text_key, beq_refl, beq_ne}
use option_hedge.Os.{Os, ok, err, foreign_iterator}
use option_hedge.Journal.PageUtil.{gen_page_full_path}
use option_hedge.Paged.Msg.{allocated, PageCommMsg, FileKey, file_key, key_of, key_beq, key_beq_iff}
use option_hedge.Paged.Engine.{SystemWriter, Engine}
use option_hedge.Paged.Engine.Files.{initiate_page, release_page, drop_address, last_user_gone}
use option_hedge.Paged.Engine.Pages.{Kept, initiate_page-writer}

abbrev first_code : Text → ℕ
first_code [] = 0
first_code (c ∷ s) = c

module _ (os : Os) (system : SystemWriter os) where
  drop_address_lem :
      (msg : PageCommMsg) (e f : Engine os system)
      → drop_address os system msg e ≡ ok (tt, f)
      → (f.file_writer_counts ≡ e.file_writer_counts)
        × (f.file_reader_counts ≡ e.file_reader_counts)
        × (f.client_journals ≡ e.client_journals)
        × (f.comm ≡ e.comm)
        × ((path : Text)
            → path ≢ gen_page_full_path msg.name msg.folder msg.page_num
            → f.file_addrs path ≡ e.file_addrs path)
  unfolding drop_address
  drop_address_lem msg e f h = (
    ground arith,
    ground arith,
    ground arith,
    ground arith,
    λ path n.
        ground (arith, text_eq_iff path (gen_page_full_path msg.name msg.folder msg.page_num)),
  )

  -- A reader that gives its page up is not uncounted, and no address is dropped: whatever the outcome
  -- changes, the counts of readers and the addresses are as they were.
  pub release_page-reader :
      (msg : PageCommMsg) (e f : Engine os system)
      → msg.is_writer ≡ false
      → release_page os system msg e ≡ ok (tt, f)
      → (f.file_reader_counts ≡ e.file_reader_counts) × (f.file_addrs ≡ e.file_addrs)
  unfolding release_page last_user_gone
  release_page-reader msg e f r h = ground arith

  -- While the page has its writer, a reader that gives it up runs into undefined behaviour: the
  -- writers' count falls to zero, and the iterator is erased from the other map.
  pub release_page-reader_undefined :
      (msg : PageCommMsg) (e : Engine os system)
      → msg.is_writer ≡ false
      → e.file_writer_counts (key_of msg) ≡ some 1
      → release_page os system msg e ≡ err foreign_iterator
  unfolding release_page last_user_gone
  release_page-reader_undefined msg e r h = ground (arith, beq_refl (key_of msg))

  -- The state in which the address is dropped, if no reader has the page.
  abbrev uncounted : PageCommMsg → Engine os system → Engine os system
  uncounted msg e = record e {
    file_writer_counts = erase (key_of msg) (insert (key_of msg) 0 e.file_writer_counts);
  }

  writer_release :
      (msg : PageCommMsg) (e f : Engine os system)
      → msg.is_writer ≡ true
      → e.file_writer_counts (key_of msg) ≡ some 1
      → release_page os system msg e ≡ ok (tt, f)
      → (f.file_writer_counts ≡ (uncounted msg e).file_writer_counts)
        × (f.file_reader_counts ≡ e.file_reader_counts)
        × (f.client_journals ≡ e.client_journals)
        × (f.comm ≡ e.comm)
        × ((path : Text)
            → path ≢ gen_page_full_path msg.name msg.folder msg.page_num
            → f.file_addrs path ≡ e.file_addrs path)
  unfolding release_page last_user_gone
  writer_release msg e f w one h = elim (Option-cases (e.file_reader_counts (key_of msg))) [
    | inl gone ↦ drop_address_lem msg (uncounted msg e) f (ground arith)
    | inr (n, stay) ↦
        let same : f ≡ uncounted msg e = ground arith in
        (
          ground (arith, same),
          ground (arith, same),
          ground (arith, same),
          ground (arith, same),
          λ path p. ground (arith, same),
        )
  ]

  -- A writer that gives its page up is uncounted, and the other pages' writers, the readers, the
  -- clients and the table are as they were.
  pub release_page-writer :
      (msg : PageCommMsg) (e f : Engine os system)
      → msg.is_writer ≡ true
      → e.file_writer_counts (key_of msg) ≡ some 1
      → release_page os system msg e ≡ ok (tt, f)
      → (f.file_writer_counts (key_of msg) ≡ none)
        × ((key : FileKey) → key ≢ key_of msg → f.file_writer_counts key ≡ e.file_writer_counts key)
        × (f.file_reader_counts ≡ e.file_reader_counts)
        × (f.client_journals ≡ e.client_journals)
        × (f.comm ≡ e.comm)
  unfolding release_page last_user_gone
  release_page-writer msg e f w one h =
      let (writers, readers, clients, table, addrs) = writer_release msg e f w one h in
      (
        ground (arith, ap (λ (m : Map FileKey ℕ). m (key_of msg)) writers, beq_refl (key_of msg)),
        λ key n.
            ground (arith, ap (λ (m : Map FileKey ℕ). m key) writers, beq_ne key (key_of msg) n),
        readers,
        clients,
        table,
      )

  -- The path of a page in an absolute folder is not the path with the folder and a relative name
  -- exchanged: the first characters differ.
  swapped_path :
      (folder name : Text) (n c : ℕ)
      → c ≢ b'/'
      → gen_page_full_path (b'/' ∷ folder) (c ∷ name) n
        ≢ gen_page_full_path (c ∷ name) (b'/' ∷ folder) n
  unfolding gen_page_full_path
  swapped_path folder name n c h e = h (sym (ap first_code e))

  -- A released page keeps its address: the engine looks it up under the exchanged path. So for an
  -- absolute folder, and a name that does not begin with a slash, the mapping is never dropped.
  pub release_page-keeps_address :
      (msg : PageCommMsg) (e f : Engine os system) (folder name : Text) (c : ℕ)
      → msg.folder ≡ b'/' ∷ folder
      → msg.name ≡ c ∷ name
      → c ≢ b'/'
      → msg.is_writer ≡ true
      → e.file_writer_counts (key_of msg) ≡ some 1
      → release_page os system msg e ≡ ok (tt, f)
      → let path = gen_page_full_path msg.folder msg.name msg.page_num in
        f.file_addrs path ≡ e.file_addrs path
  release_page-keeps_address msg e f folder name c at_folder at_name h w one done =
      (writer_release msg e f w one done).4 _
        (rw (at_folder, at_name) (swapped_path folder name msg.page_num c h))

  -- A writer that is allocated a page and gives it up leaves the writers' counts as they were.
  pub release-initiate :
      (msg : PageCommMsg) (e f g : Engine os system)
      → msg.is_writer ≡ true
      → initiate_page os system msg e ≡ ok (allocated, f)
      → release_page os system msg f ≡ ok (tt, g)
      → (key : FileKey) → g.file_writer_counts key ≡ e.file_writer_counts key
  release-initiate msg e f g w opened closed key =
      elim (initiate_page-writer os system msg e f allocated w opened).0 [
        | inr refused ↦ ground arith
        | inl (_, fresh, counted) ↦
            let here : f.file_writer_counts (key_of msg) ≡ some 1 =
              rw counted (ground (arith, beq_refl (key_of msg))) in
            let left = ap (λ (m : Map FileKey ℕ). m key) (writer_release msg f g w here closed).0 in
            let was = ap (λ (m : Map FileKey ℕ). m key) counted in
            elim (Bool-cases (key_beq key (key_of msg))) [
              | inl same ↦
                  let at_key : key ≡ key_of msg = (key_beq_iff key (key_of msg)).0 same in
                  ground (arith, left, fresh, ap e.file_writer_counts at_key)
              | inr other ↦ ground (arith, left, was)
            ]
      ]

  pub release_page-Kept :
      (msg : PageCommMsg) (e f : Engine os system)
      → release_page os system msg e ≡ ok (tt, f)
      → Kept os system e f
  unfolding release_page last_user_gone drop_address
  release_page-Kept msg e f h = ground arith
