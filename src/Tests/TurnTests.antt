-- ===== src/Tests/TurnTests.antt =====
-- The theorems on the opening and the change of pages at concrete inputs.
use option_hedge.Base.{
  Option, List, ℕ, ◌+◌, ◌-◌, ◌≡◌, refl, arith, true, false, none, some, [], ◌∷◌, ◌++◌, first, later,
}
use option_hedge.Base.Text.{codes}
use option_hedge.Base.Memory.{load, IsOutside}
use option_hedge.Constants.{journal_page_size, page_min_headroom, time_to_last}
use option_hedge.Os.{Os, Sys, ok}
use option_hedge.Journal.Frame.{status, get_field, width, offset}
use option_hedge.Journal.PageUtil.{
  gen_page_file_name, gen_page_full_path, get_page_file_name_pattern, collect_page_nums,
  read_page_nums, extract_page_num, substr, atoi, read_digits, digits, to_string, load_page_buffer,
  advise_or_lock,
}
use option_hedge.Journal.Page.{
  Page, HeaderField, get_header, header_width, new_page, load_page, page_header_length,
}
use option_hedge.Journal.Page.Load.{IsInited, load_page-new}
use option_hedge.Journal.Provider.{PageProvider}
use option_hedge.Journal.Cursor.{Journal, seek_time}
use option_hedge.Journal.Cursor.Seek.{seek_time-last}
use option_hedge.Journal.Writer.{Writer, write_frame_full}
use option_hedge.Journal.Writer.NextPage.{Releases, IsFull, IsFresh, IsClosed}
use option_hedge.Journal.Cursor.Read.{read_frames, texts_at}
use option_hedge.Journal.Writer.TurnRead.{IsFollowing, write_frame_full-read_frames}
use option_hedge.Journal.Writer.Turn.{write_frame_full-turns}
use option_hedge.Journal.Log.{entry_length, IsLog}
use option_hedge.Journal.Log.{Agree}
use option_hedge.Journal.Log.ErrorText.{HasErrorText}
use option_hedge.Journal.Frame.{padded, error_msg_max_length}
use option_hedge.Journal.Log.Append.{entry_of, publish_frame-IsLog}
use option_hedge.Journal.Log.Scan.{moved}
use option_hedge.Tests.Toy.{toy_os, toy_sys}
use option_hedge.Tests.JournalTests.{
  zeros, quote, failure, first_page, quoted, quote_entries, quoting, quote-IsArgs, failure-IsArgs,
  quoted-IsLog, quoted-raw, quoted-stop,
}

-- A file that is new is mapped at the address 4096.
mapped_new :
    load_page_buffer toy_os
      (gen_page_full_path (codes "/var/tmp") (codes "quotes") 1)
      journal_page_size
      true
      false
      toy_sys
    ≡ ok (some 4096, toy_sys)
unfolding load_page_buffer advise_or_lock
mapped_new = refl

zero_status : get_header HeaderField.status 4096 toy_sys.mem ≡ 0
unfolding get_header header_width load
zero_status = refl

load_page-new_example :
    (t : ℕ) × (s2 : Sys toy_os) × (load_page toy_os
        (codes "/var/tmp")
        (codes "quotes")
        1
        true
        false
        toy_sys
      ≡ ok (some (record (new_page 4096) { page_num = 1 }), s2))
    × IsInited s2.mem 4096 (codes "quotes") 1 t
    × ((x : ℕ) → IsOutside x 4096 page_header_length → s2.mem x ≡ 0)
load_page-new_example =
    load_page-new toy_os (codes "/var/tmp") (codes "quotes") 1 false 4096 toy_sys toy_sys mapped_new
      zero_status (omega arith) (omega arith)

-- A directory with two pages of the journal, of which the provider gives the second.
abbrev two_pages : Os
two_pages = record toy_os {
  list_directory = λ dir w.
      some (gen_page_file_name (codes "quotes") 1 ∷ gen_page_file_name (codes "quotes") 2 ∷ []);
}

abbrev pub gives : {os : Os} → Page → PageProvider os
gives q = record {
  is_writer = true;
  revise_allowed = true;
  get_page = λ dir name idx n s. ok (some q, s);
  release_page = λ buffer size idx s. ok (tt, s);
  register_journal = λ dir name s. ok (0, s);
  exit_client = λ s. ok (tt, s);
}

abbrev two_sys : Sys two_pages
two_sys = record { world = 0; mem = quoted; timer = none }

abbrev pub unplaced : Journal
unplaced = record quoting { cur_page = none; expired = true }

listed :
    read_page_nums
      (λ _ _. true)
      (get_page_file_name_pattern (codes "quotes"))
      (codes "quotes")
      (two_pages.list_directory (codes "/var/tmp") 0)
    ≡ ok (1 ∷ 2 ∷ [])
unfolding collect_page_nums extract_page_num substr atoi read_digits digits to_string
    gen_page_file_name
listed = refl

seek_time-last_example :
    seek_time two_pages (gives first_page) (λ _ _. true) 2 time_to_last unplaced two_sys
    ≡ ok (
      record unplaced { cur_page = some (moved first_page quote_entries); expired = false },
      two_sys,
    )
seek_time-last_example =
    seek_time-last two_pages (gives first_page) (λ _ _. true) 2 unplaced (1 ∷ 2 ∷ []) 2 first_page
      quote_entries 1041 two_sys two_sys two_sys refl listed (later (first refl)) (refl, (refl, tt))
      refl quoted-IsLog quoted-stop (omega arith)

-- A page that is full behind its first frame, and the next one.
abbrev pub full_page : Page
full_page = record first_page { position = journal_page_size - page_min_headroom }

abbrev next_page : Page
next_page = record {
  frame = 300_000_137;
  buffer = 300_000_000;
  position = 137;
  frame_num = 0;
  page_num = 2;
}

abbrev pub turning : Journal
turning = record quoting { cur_page = some full_page }

abbrev turning_writer : Writer toy_os
turning_writer = record {
  provider = gives next_page;
  journals = turning ∷ [];
  journal = some turning;
}

abbrev turning_sys : Sys toy_os
turning_sys = record toy_sys { mem = quoted }

pub quoted-outside : (x : ℕ) → IsOutside x 1000 42 → quoted x ≡ 0
quoted-outside x o =
    (publish_frame-IsLog 1000 1000 [] quote 5 zeros refl quote-IsArgs (omega arith) (omega arith)).2
      x (omega arith)

pub full : IsFull full_page quoted quote_entries 1041
full = record {
  log = quoted-IsLog;
  end_raw = quoted-raw;
  no_room = omega arith;
  position_int = omega arith;
  frame_num_int = omega arith;
  header_before = omega arith;
  end_inside = omega arith;
}

fresh : IsFresh full_page next_page quoted
unfolding get_field width offset load
fresh = record {
  first_raw = omega (arith, quoted-outside 300_000_137 (omega arith));
  room = omega arith;
  first_behind = omega arith;
  first_inside = omega arith;
  apart = omega arith;
  address_long = omega arith;
}

releases : Releases toy_os turning_writer.provider turning 863
releases x = (x, refl, refl)

write_frame_full-turns_example :
    (t : ℕ) × (s' : Sys toy_os) × (write_frame_full toy_os
        (λ _ _. true)
        2
        2
        failure
        turning_writer
        turning_sys
      ≡ ok (
        (
          record turning_writer {
            journal =
                some
                  (record turning { cur_page = some (moved next_page (entry_of failure t ∷ [])) });
          },
          t,
        ),
        s',
      ))
    × IsLog s'.mem 300_000_137
        (entry_of failure t ∷ [])
        (300_000_137 + entry_length (entry_of failure t))
    × (get_field status (300_000_137 + entry_length (entry_of failure t)) s'.mem ≡ 0)
    × IsClosed full_page s'.mem quote_entries 1041
    × HasErrorText s'.mem 300_000_137 failure
    × Agree s'.mem quoted 300_000_000 300_000_137
write_frame_full-turns_example =
    write_frame_full-turns toy_os (λ _ _. true) 0 1 failure turning_writer turning full_page
      next_page turning_sys turning_sys quote_entries 1041 refl refl refl refl full (omega arith)
      refl (λ x lo hi. refl) fresh releases failure-IsArgs (omega arith)

abbrev following : Journal
following = record turning { is_writing = false }

follows : IsFollowing following full_page full_page next_page next_page
follows = record { live = refl; reads = refl; at_page = refl; same_frame = refl; next_frame = refl }

-- The writer's call, its time and what it leaves.
turn :
    (v : Writer toy_os) × (t : ℕ) × (s' : Sys toy_os) × (write_frame_full toy_os
        (λ _ _. true)
        2
        2
        failure
        turning_writer
        turning_sys
      ≡ ok ((v, t), s'))
turn =
    let (t, s', written, log, next_raw, closed, text, before) =
      write_frame_full-turns toy_os (λ _ _. true) 0 1 failure turning_writer turning full_page
        next_page turning_sys turning_sys quote_entries 1041 refl refl refl refl full (omega arith)
        refl (λ x lo hi. refl) fresh releases failure-IsArgs (omega arith) in
    (_, t, s', written)

write_frame_full-read_frames_example :
    (text : Option (List ℕ)) × (read_frames toy_os (gives next_page) 3 0 1 following turn.2
      ≡ ok (
        (
          texts_at (turn.2).mem 1000 quote_entries ++ (entry_of failure turn.1, text) ∷ [],
          record following { cur_page = some (moved next_page (entry_of failure turn.1 ∷ [])) },
        ),
        turn.2,
      ))
    × (text ≡ some (padded error_msg_max_length (codes "no price")))
write_frame_full-read_frames_example =
    write_frame_full-read_frames toy_os (λ _ _. true) 0 1 failure turning_writer turning full_page
      next_page turning_sys turning_sys quote_entries 1041 (gives next_page) following full_page
      next_page turn.0 turn.1 turn.2 turn.2 turn.2 refl refl refl refl full (omega arith) refl
      (λ x lo hi. refl) fresh releases failure-IsArgs (omega arith) turn.3 follows refl refl refl
