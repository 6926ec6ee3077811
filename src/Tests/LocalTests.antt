-- ===== src/Tests/LocalTests.antt =====
-- The turn of a writer to a next page with the local provider at a concrete input.
use option_hedge.Base.{ℕ, ◌+◌, ◌≡◌, refl, arith, true, false, none, some, [], ◌∷◌}
use option_hedge.Base.Text.{codes}
use option_hedge.Constants.{journal_page_size}
use option_hedge.Os.{Os, Sys, ok}
use option_hedge.Journal.Frame.{status, get_field}
use option_hedge.Journal.PageUtil.{
  gen_page_full_path, load_page_buffer, release_page_buffer, advise_or_lock,
}
use option_hedge.Journal.Page.{new_page}
use option_hedge.Journal.Provider.{local_page_provider}
use option_hedge.Journal.Writer.{Writer, write_frame_full}
use option_hedge.Journal.Writer.NextPage.{IsClosed}
use option_hedge.Journal.Writer.LocalTurn.{IsMapped, write_frame_full-local}
use option_hedge.Journal.Log.{entry_length, IsLog}
use option_hedge.Journal.Page.Load.{IsInited}
use option_hedge.Journal.Log.ErrorText.{HasErrorText}
use option_hedge.Journal.Log.Append.{entry_of}
use option_hedge.Journal.Log.Scan.{moved}
use option_hedge.Tests.Toy.{toy_os}
use option_hedge.Tests.JournalTests.{failure, quoted, quote_entries, failure-IsArgs}
use option_hedge.Tests.TurnTests.{full_page, turning, quoted-outside, full}

-- A system that maps new files far behind the page.
abbrev far_os : Os
far_os = record toy_os { map_file = λ size writable fd w m. (some 300_000_000, w, m) }

abbrev far_sys : Sys far_os
far_sys = record { world = 7; mem = quoted; timer = none }

mapped_far :
    load_page_buffer far_os
      (gen_page_full_path (codes "/var/tmp") (codes "quotes") 2)
      journal_page_size
      true
      false
      far_sys
    ≡ ok (some 300_000_000, far_sys)
unfolding load_page_buffer advise_or_lock
mapped_far = refl

far_away : IsMapped full_page 300_000_000 quoted quoted
far_away = record {
  zero_bytes = λ x lo hi. quoted-outside x (omega arith);
  apart = omega arith;
  address_long = omega arith;
  kept = λ x lo hi. refl;
}

abbrev local_writer : Writer far_os
local_writer = record {
  provider = local_page_provider far_os true false;
  journals = [];
  journal = some turning;
}

released :
    (x : Sys far_os)
    → (y : Sys far_os) × (release_page_buffer far_os 863 journal_page_size false x ≡ ok (tt, y))
      × (y.mem ≡ x.mem)
unfolding release_page_buffer
released x = (x, refl, refl)

write_frame_full-local_example :
    let q = record (new_page 300_000_000) { page_num = 2 } in
    (t : ℕ) × (s' : Sys far_os) × (write_frame_full far_os
        (λ _ _. true)
        2
        2
        failure
        local_writer
        far_sys
      ≡ ok (
        (
          record local_writer {
            journal = some (record turning { cur_page = some (moved q (entry_of failure t ∷ [])) });
          },
          t,
        ),
        s',
      ))
    × IsLog s'.mem q.frame (entry_of failure t ∷ []) (q.frame + entry_length (entry_of failure t))
    × (get_field status (q.frame + entry_length (entry_of failure t)) s'.mem ≡ 0)
    × IsClosed full_page s'.mem quote_entries 1041
    × HasErrorText s'.mem q.frame failure
    × (made : ℕ) × IsInited s'.mem 300_000_000 (codes "quotes") 2 made
write_frame_full-local_example =
    write_frame_full-local far_os (λ _ _. true) 0 1 false failure [] turning full_page 300_000_000
      far_sys far_sys quote_entries 1041 refl refl refl full (omega arith) mapped_far far_away
      (omega arith) released failure-IsArgs (omega arith)
