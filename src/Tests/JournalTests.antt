-- ===== src/Tests/JournalTests.antt =====
-- The journal's theorems and the clock's at concrete inputs.
use option_hedge.Base.{ℕ, ◌≡◌, ◌≢◌, refl, arith, true, false, none, some, List, [], ◌∷◌, ◌++◌}
use option_hedge.Base.Text.{codes}
use option_hedge.Base.Memory.{Mem, IsOutside}
use option_hedge.Os.{Sys, ok}
use option_hedge.Journal.Frame.{status, get_field}
use option_hedge.Journal.Page.{Page}
use option_hedge.Journal.Provider.{local_page_provider}
use option_hedge.Journal.Cursor.{Journal}
use option_hedge.Journal.Writer.{FrameArgs, Writer, fill_frame, publish_frame, write_frame_full}
use option_hedge.Journal.Writer.Write.{write_frame_full-appends}
use option_hedge.Journal.Log.{Entry, IsLog}
use option_hedge.Journal.Log.ErrorText.{HasErrorText}
use option_hedge.Journal.Log.Append.{IsArgs, entry_of, publish_frame-IsLog}
use option_hedge.Tests.Toy.{toy_os, toy_sys}

abbrev pub zeros : Mem
zeros = λ _. 0

abbrev pub quote : FrameArgs
quote = record {
  bytes = 7 ∷ 8 ∷ 9 ∷ [];
  source_arg = 1;
  msg_type_arg = 51;
  last_flag_arg = 0;
  request_id = 4294967295;
  extra_nano_arg = 0;
  error_id = 0;
  error_msg = none;
}

abbrev pub failure : FrameArgs
failure = record quote { error_id = 3; error_msg = some (codes "no price") }

pub quote-IsArgs : IsArgs quote
quote-IsArgs = omega arith

pub failure-IsArgs : IsArgs failure
failure-IsArgs = omega arith

abbrev pub quoted : Mem
quoted = publish_frame 1000 5 (fill_frame 1000 quote zeros)

abbrev pub quote_entries : List Entry
quote_entries = entry_of quote 5 ∷ []

pub quoted-IsLog : IsLog quoted 1000 quote_entries 1041
quoted-IsLog =
    (publish_frame-IsLog 1000 1000 [] quote 5 zeros refl quote-IsArgs (omega arith) (omega arith)).0

pub quoted-raw : get_field status 1041 quoted ≡ 0
quoted-raw =
    (publish_frame-IsLog 1000 1000 [] quote 5 zeros refl quote-IsArgs (omega arith) (omega arith)).1

pub quoted-stop : get_field status 1041 quoted ≢ 1
quoted-stop e = omega (arith, e, quoted-raw)

-- An error frame behind a quote.
publish_frame-IsLog_example :
    IsLog
      (publish_frame 1041 6 (fill_frame 1041 failure quoted))
      1000
      (entry_of quote 5 ∷ entry_of failure 6 ∷ [])
      1182
publish_frame-IsLog_example =
    (publish_frame-IsLog 1000 1041 quote_entries failure 6 quoted quoted-IsLog failure-IsArgs
      (omega arith) (omega arith)).0

abbrev pub first_page : Page
first_page = record { frame = 1000; buffer = 863; position = 137; frame_num = 0; page_num = 1 }

abbrev pub quoting : Journal
quoting = record {
  directory = codes "/var/tmp";
  short_name = codes "quotes";
  service_idx = 0;
  is_writing = true;
  expired = false;
  cur_page = some first_page;
}

abbrev pub quote_writer : Writer toy_os
quote_writer = record {
  provider = local_page_provider toy_os true false;
  journals = quoting ∷ [];
  journal = some quoting;
}

write_frame_full-appends_example :
    (t : ℕ) × (s' : Sys toy_os) × (q : Page) × (write_frame_full toy_os
        (λ _ _. true)
        1
        2
        failure
        quote_writer
        (record toy_sys { mem = quoted })
      ≡ ok ((record quote_writer { journal = some (record quoting { cur_page = some q }) }, t), s'))
    × IsLog s'.mem 1000 (quote_entries ++ entry_of failure t ∷ []) q.frame
    × (get_field status q.frame s'.mem ≡ 0)
    × (q.position ≡ 319)
    × ((x : ℕ) → IsOutside x 1041 142 → s'.mem x ≡ quoted x)
    × HasErrorText s'.mem 1041 failure
write_frame_full-appends_example =
    write_frame_full-appends toy_os (λ _ _. true) 0 2 failure quote_writer quoting first_page
      (record toy_sys { mem = quoted }) quote_entries 1041 refl refl refl refl quoted-IsLog
      quoted-raw (omega arith) (omega arith) failure-IsArgs (omega arith)
