-- ===== src/Paged/Engine/Files.antt =====
-- paged/PageEngine.cpp: `release_page` and `initiate_page`, the engine's bookkeeping of mapped files
-- and of the readers and writers of each page.
use option_hedge.Base.{ℕ, ◌+◌, ◌-◌, ◌^◌, Bool, true, false, Option, none, some, if◌then◌else◌, ◌==◌}
use option_hedge.Base.Text.{Text}
use option_hedge.Base.Map.{insert, erase, text_key}
use option_hedge.Base.Word.{to_int}
use option_hedge.Constants.{journal_page_size}
use option_hedge.Os.{Os, M, ok, err, ◌>>=◌, ◌>>◌, pure, modify, call, foreign_iterator}
use option_hedge.Journal.PageUtil.{
  gen_page_full_path, load_page_buffer, release_page_buffer, file_exists,
}
use option_hedge.Paged.Msg.{
  CommStatus, allocated, non_exist, more_than_one_write, cannot_rename_from_temp, PageCommMsg,
  FileKey, file_key, key_of,
}
use option_hedge.Paged.Engine.{SystemWriter, Engine, on_sys, temp_page}

-- What the look for a buffer ends in: a failure status, or the address to enter.
pub data Mapping : Type 0 where
  refused : CommStatus → Mapping
  mapped : Option ℕ → Mapping

module _ (os : Os) (system : SystemWriter os) where
  abbrev E : Type 0
  E = Engine os system

  -- The buffer is looked up under a path whose folder and name are exchanged.
  unfoldable pub drop_address : PageCommMsg → M E (Unit {0})
  drop_address msg e =
      let path = gen_page_full_path msg.name msg.folder msg.page_num in
      elim (e.file_addrs path) [
        | none ↦ ok (tt, e)
        | some addr ↦
            (on_sys os system (
                  release_page_buffer os (elim addr [ none ↦ 0 | some a ↦ a ]) journal_page_size
                    true)
                >> modify (λ e. record e { file_addrs = erase path e.file_addrs }))
              e
      ]

  -- The count reached zero. A reader's iterator is one of `fileWriterCounts`, and `erase` is called
  -- with it on `fileReaderCounts`, which C++ leaves undefined.
  unfoldable pub last_user_gone : PageCommMsg → M E (Unit {0})
  last_user_gone msg e =
      if msg.is_writer
      then elim (e.file_reader_counts (key_of msg)) [
        | none ↦
            drop_address msg
              (record e { file_writer_counts = erase (key_of msg) e.file_writer_counts })
        | some n ↦
            ok (tt, record e { file_writer_counts = erase (key_of msg) e.file_writer_counts })
      ]
      else err foreign_iterator

  -- Both branches of the source look the message up in `fileWriterCounts`.
  unfoldable pub release_page : PageCommMsg → M E (Unit {0})
  release_page msg e = elim (e.file_writer_counts (key_of msg)) [
    | none ↦ ok (tt, e)
    | some n ↦
        let left = to_int (n + 2 ^ 32 - 1) in
        let f = record e { file_writer_counts = insert (key_of msg) left e.file_writer_counts } in
        if left == 0 then last_user_gone msg f else ok (tt, f)
  ]

  -- A temporary page that stands ready is renamed to the new path.
  unfoldable pub from_temp : Text → Option ℕ → M E Mapping
  from_temp path addr = do
    renamed ← on_sys os system (call os (os.rename temp_page path))
    elim renamed [
      | false ↦ pure (refused cannot_rename_from_temp)
      | true ↦ do
        modify (λ e. record e { file_addrs = erase temp_page e.file_addrs })
        pure (mapped addr)
    ]

  unfoldable pub load_mapping : Text → Bool → M E Mapping
  load_mapping path is_writing = do
    buffer ← on_sys os system (load_page_buffer os path journal_page_size is_writing true)
    pure (mapped buffer)

  -- A null address of the temporary page leaves the buffer null, and the page is loaded after all.
  unfoldable pub create_mapping : Text → M E Mapping
  create_mapping path e = elim (e.file_addrs temp_page) [
    | none ↦ load_mapping path true e
    | some addr ↦ elim (from_temp path addr e) [
      | ok (mapped none, f) ↦ load_mapping path true f
      | ok (mapped (some a), f) ↦ ok (mapped (some a), f)
      | ok (refused s, f) ↦ ok (refused s, f)
      | err x ↦ err x
    ]
  ]

  unfoldable pub find_mapping : Text → Bool → M E Mapping
  find_mapping path is_writer = do
    exists ← on_sys os system (file_exists os path)
    elim exists [
      | true ↦ load_mapping path false
      | false ↦ elim is_writer [ true ↦ create_mapping path | false ↦ pure (refused non_exist) ]
    ]

  unfoldable pub count_writer : FileKey → E → CommStatus × E
  count_writer key e = elim (e.file_writer_counts key) [
    | none ↦ (allocated, record e { file_writer_counts = insert key 1 e.file_writer_counts })
    | some n ↦ (more_than_one_write, e)
  ]

  unfoldable pub count_reader : FileKey → E → CommStatus × E
  count_reader key e =
      let n : ℕ = elim (e.file_reader_counts key) [ none ↦ 1 | some n ↦ to_int (n + 1) ] in
      (allocated, record e { file_reader_counts = insert key n e.file_reader_counts })

  -- The part of `initiate_page` behind the buffer: the new reader or writer is counted.
  unfoldable pub count_user : PageCommMsg → E → CommStatus × E
  count_user msg e =
      if msg.is_writer then count_writer (key_of msg) e else count_reader (key_of msg) e

  unfoldable pub initiate_page : PageCommMsg → M E CommStatus
  initiate_page msg e =
      let path = gen_page_full_path msg.folder msg.name msg.page_num in
      elim (e.file_addrs path) [
        | some addr ↦ ok (count_user msg e)
        | none ↦ elim (find_mapping path msg.is_writer e) [
          | err x ↦ err x
          | ok (refused s, f) ↦ ok (s, f)
          | ok (mapped addr, f) ↦
              ok (count_user msg (record f { file_addrs = insert path addr f.file_addrs }))
        ]
      ]
