-- ===== src/Tests/RunTests.antt =====
-- The theorems on runs of writes and reads at concrete inputs.
use option_hedge.Base.{
  ℕ, ◌+◌, ◌≡◌, ◌<◌, refl, arith, true, Option, false, some, List, [], ◌∷◌, length,
}
use option_hedge.Base.Memory.{load, IsOutside}
use option_hedge.Constants.{journal_page_size}
use option_hedge.Os.{Sys, ok}
use option_hedge.Journal.Frame.{get_field, width, offset}
use option_hedge.Journal.Page.{Page}
use option_hedge.Journal.Cursor.{Journal}
use option_hedge.Journal.Cursor.Read.{read_frames}
use option_hedge.Journal.Writer.{FrameArgs, Writer, write_frame_full}
use option_hedge.Journal.Writer.Run.{frame_length, IsPlaced, write_all, write_frame_full-in_page}
use option_hedge.Journal.Writer.RoundTrip.{AreRead, write_all-read_frames}
use option_hedge.Journal.Log.Append.{entry_of}
use option_hedge.Journal.Log.{Entry}
use option_hedge.Tools.{TestData, content_length, new_test_data, zeros_of_length, write_rounds}
use option_hedge.Tools.Rounds.{IsNumbered, write_rounds-IsNumbered}
use option_hedge.Tests.Toy.{toy_os, toy_sys}
use option_hedge.Tests.JournalTests.{
  zeros, quote, failure, first_page, quoting, quote_writer, quote-IsArgs, failure-IsArgs,
}

-- The first page, with nothing on it.
pub empty-IsPlaced : IsPlaced first_page zeros 1000 []
unfolding get_field width offset load
empty-IsPlaced = record { log = refl; end_raw = refl; at = omega arith }

abbrev reading_quotes : Journal
reading_quotes = record quoting { is_writing = false }

abbrev two_calls : List FrameArgs
two_calls = quote ∷ failure ∷ []

write_all-read_frames_example :
    (ts : List ℕ) × (s' : Sys toy_os) × (v : Writer toy_os) × (k : Journal) × (write_all toy_os
        (λ _ _. true)
        1
        1
        two_calls
        quote_writer
        (record toy_sys { mem = zeros })
      ≡ ok ((v, ts), s'))
    × (length ts ≡ 2)
    × (rs : List (Entry × Option (List ℕ))) × (read_frames toy_os quote_writer.provider 3 0 0
          reading_quotes s'
        ≡ ok ((rs, k), s'))
    × AreRead two_calls ts rs
write_all-read_frames_example =
    write_all-read_frames toy_os (λ _ _. true) 0 0 3 two_calls quote_writer quoting reading_quotes
      first_page (record toy_sys { mem = zeros }) quote_writer.provider refl refl refl refl
      empty-IsPlaced (quote-IsArgs, (failure-IsArgs, tt)) (omega arith) (omega arith) refl refl refl
      (omega arith)

write_frame_full-in_page_example :
    (t : ℕ) × (s' : Sys toy_os) × (q : Page) × (write_frame_full toy_os
        (λ _ _. true)
        1
        1
        failure
        quote_writer
        (record toy_sys { mem = zeros })
      ≡ ok ((record quote_writer { journal = some (record quoting { cur_page = some q }) }, t), s'))
    × IsPlaced q s'.mem 1000 (entry_of failure t ∷ [])
    × (q.buffer ≡ 863)
    × (q.position ≡ 137 + frame_length failure)
    × (q.position < journal_page_size)
    × ((x : ℕ) → IsOutside x 863 journal_page_size → s'.mem x ≡ 0)
write_frame_full-in_page_example =
    write_frame_full-in_page toy_os (λ _ _. true) 0 0 failure quote_writer quoting first_page
      (record toy_sys { mem = zeros }) 1000 [] refl refl refl refl empty-IsPlaced (omega arith)
      failure-IsArgs (omega arith) (omega arith)

abbrev ThreeRounds : ℕ → TestData → Sys toy_os → Type 0
ThreeRounds i td s =
    (s' : Sys toy_os) × (q : Page) × (added : List Entry) × (write_rounds toy_os (λ _ _. true) 1 1 3
        i td quote_writer s
      ≡ ok (record quote_writer { journal = some (record quoting { cur_page = some q }) }, s'))
    × IsPlaced q s'.mem 1000 added
    × (length added ≡ 3)
    × IsNumbered i added
    × (q.position ≡ 1031)
    × ((x : ℕ) → IsOutside x 863 journal_page_size → s'.mem x ≡ s.mem x)

new_content : length new_test_data.content ≡ content_length
unfolding new_test_data zeros_of_length
new_content = refl

write_rounds-IsNumbered_example : ThreeRounds 0 new_test_data (record toy_sys { mem = zeros })
write_rounds-IsNumbered_example =
    write_rounds-IsNumbered toy_os (λ _ _. true) 0 0 3 0 new_test_data quote_writer quoting
      first_page (record toy_sys { mem = zeros }) 1000 [] refl refl refl refl empty-IsPlaced
      new_content (omega arith) (omega arith)
