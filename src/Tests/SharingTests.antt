-- ===== src/Tests/SharingTests.antt =====
-- The shared page's theorems at concrete inputs: a quote has been written, and the writer has stored
-- two bytes of an error frame behind it.
use option_hedge.Base.{◌+◌, ◌≤◌, ◌≡◌, refl, arith, none, some, List, [], ◌∷◌, ◌++◌, drop, length}
use option_hedge.Base.Memory.{load, set_byte}
use option_hedge.Journal.Page.{
  Page, pass_frame, pass_written_frame, locate_writable_frame, locate_readable_frame,
}
use option_hedge.Journal.Frame.{get_field, frame_status_code, offset, width}
use option_hedge.Journal.Log.{Entry}
use option_hedge.Journal.Log.Append.{entry_of}
use option_hedge.Journal.Log.Scan.{pass_frame-Holds}
use option_hedge.Journal.Cursor.Read.{read_entry}
use option_hedge.Journal.Stores.{frame_stores}
use option_hedge.Journal.Sharing.{storing, Shared, call, put, look, read, start, Reach, here, later}
use option_hedge.Journal.Sharing.Invariant.{unfinished}
use option_hedge.Journal.Sharing.Safety.{reads_in_order, reads_all}
use option_hedge.Tests.JournalTests.{
  quoted, quoted-IsLog, quoted-raw, quote, quote_entries, failure, failure-IsArgs, first_page,
}

abbrev behind_quote : Page
behind_quote = record first_page { frame = 1041; position = 178; frame_num = 1 }

abbrev at_start : Shared
at_start = start quoted behind_quote first_page quote_entries

-- The locate functions on the quote's page.
writable_quote : locate_writable_frame 1 behind_quote quoted ≡ some (behind_quote, some 1041)
unfolding locate_writable_frame pass_written_frame frame_status_code get_field
writable_quote = ground (arith, quoted-raw)

readable_quote : locate_readable_frame first_page quoted ≡ some 1000
unfolding locate_readable_frame frame_status_code
readable_quote = ground (arith, quoted-IsLog.0.is_written)

-- The reader reads the quote, and the writer then begins the error frame.
abbrev quote_read : Shared
quote_read = record at_start {
  reader = pass_frame first_page quoted;
  got = read_entry 1000 quoted ∷ [];
}

reader_first : Reach at_start quote_read
reader_first = later (later here (look refl)) (read 1000 readable_quote)

abbrev in_call : Shared
in_call = record quote_read {
  pc = storing failure 6 (frame_stores 1041 failure 6);
  calls = quote_entries ++ entry_of failure 6 ∷ [];
}

writer_next : Reach at_start in_call
writer_next = later reader_first (
    call 1 behind_quote 1041 failure 6 refl writable_quote failure-IsArgs (omega arith)
      (omega arith))

abbrev two_stored : Shared
two_stored = record in_call {
  mem = set_byte 1043 0 (set_byte 1042 1 quoted);
  pc = storing failure 6 (drop 2 (frame_stores 1041 failure 6));
}

stores_begun : Reach at_start two_stored
unfolding frame_stores
stores_begun =
    later (later writer_next (put failure 6 (1042, 1) _ refl)) (put failure 6 (1043, 0) _ refl)

reads_in_order_example :
    (rest : List Entry) × (quote_entries ++ entry_of failure 6 ∷ []
      ≡ read_entry 1000 quoted ∷ [] ++ rest)
    × (1 ≤ length rest)
unfolding frame_stores
reads_in_order_example =
    reads_in_order quoted behind_quote first_page quote_entries two_stored quoted-IsLog quoted-raw
      stores_begun

nothing_readable : locate_readable_frame two_stored.reader two_stored.mem ≡ none
unfolding locate_readable_frame frame_status_code get_field load set_byte offset width
nothing_readable =
    rw (pass_frame-Holds first_page quoted (entry_of quote 5) quoted-IsLog.0)
      (ground (arith, quoted-raw))

reads_all_example : 2 ≡ 1 + unfinished two_stored.pc
reads_all_example =
    reads_all quoted behind_quote first_page quote_entries two_stored quoted-IsLog quoted-raw
      stores_begun nothing_readable
