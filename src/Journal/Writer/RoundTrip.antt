-- ===== src/Journal/Writer/RoundTrip.antt =====
-- journal/JournalWriter.cpp against journal/journal.h and journal/Frame.hpp: what a writer writes is what a
-- reader reads.
use option_hedge.Base.{
  ℕ, suc, ◌+◌, ◌^◌, ◌<◌, ◌≡◌, arith, true, false, some, List, [], ◌∷◌, All, length, Bool, Option,
  refl, ◌==◌,
}
use option_hedge.Base.Text.{Text}
use option_hedge.Constants.{journal_page_size, page_min_headroom}
use option_hedge.Os.{Os, Sys, ok}
use option_hedge.Journal.Page.{Page}
use option_hedge.Journal.Provider.{PageProvider}
use option_hedge.Journal.Cursor.{Journal}
use option_hedge.Journal.Cursor.Read.{read_frames, read_frames-IsLog, texts_at}
use option_hedge.Journal.Writer.{FrameArgs, Writer}
use option_hedge.Journal.Writer.Run.{
  frame_length, frames_length, HaveErrorTexts, entries_of, IsPlaced, write_all, write_all-appends,
}
use option_hedge.Base.Memory.{Mem}
use option_hedge.Journal.Log.{Entry}
use option_hedge.Journal.Log.ErrorText.{GivesText}
use option_hedge.Journal.Log.Append.{IsArgs, entry_of}
use option_hedge.Journal.Log.Scan.{moved}

length-entries_of :
    (args : List FrameArgs) (ts : List ℕ)
    → length ts ≡ length args
    → length (entries_of args ts) ≡ length args
length-entries_of [] ts h = omega arith
length-entries_of (a ∷ rest) [] h = absurd (omega arith)
length-entries_of (a ∷ rest) (t ∷ ts) h = omega (arith, length-entries_of rest ts (omega arith))

-- What the reader gets of a call: its entry at the time that it returned, and its error text.
abbrev pub AreRead : List FrameArgs → List ℕ → List (Entry × Option (List ℕ)) → Type 0
AreRead [] [] [] = Unit
AreRead (a ∷ args) (t ∷ ts) (r ∷ rs) =
    (r.0 ≡ entry_of a t) × GivesText (a.error_id == 0) a.error_msg r.1 × AreRead args ts rs
AreRead _ _ _ = ⊥

texts_at-AreRead :
    (m : Mem) (frame : ℕ) (args : List FrameArgs) (ts : List ℕ)
    → length ts ≡ length args
    → HaveErrorTexts m frame args
    → AreRead args ts (texts_at m frame (entries_of args ts))
texts_at-AreRead m frame [] [] h texts = tt
texts_at-AreRead m frame [] (t ∷ ts) h texts = absurd (omega arith)
texts_at-AreRead m frame (a ∷ rest) [] h texts = absurd (omega arith)
texts_at-AreRead m frame (a ∷ rest) (t ∷ ts) h (text, texts) =
    (refl, text.has_text, texts_at-AreRead m (frame + frame_length a) rest ts (omega arith) texts)

-- What is written on a new page is read from it: a writer's calls that the page has room for all return,
-- and a reader that goes over the page afterwards gets one entry for each call, in the order of the
-- calls, with the call's arguments and the time that the call returned, and then the null pointer. The
-- error text comes with it, cut or filled up to its place in the frame, where the call has an error
-- number and a text; without an error the reader gets the null pointer for it. It is stated for a reader that has the page mapped at the writer's address, and asks once more than
-- there are calls.
pub write_all-read_frames :
    (os : Os) (matches : Text → Text → Bool) (pages fuel calls : ℕ) (args : List FrameArgs)
    (w : Writer os) (j r : Journal) (p : Page) (s : Sys os) (provider : PageProvider os)
    → w.journal ≡ some j
    → j.expired ≡ false
    → j.is_writing ≡ true
    → j.cur_page ≡ some p
    → IsPlaced p s.mem p.frame []
    → All IsArgs args
    → p.position + frames_length args + page_min_headroom < journal_page_size
    → p.buffer + 2 ^ 33 < 2 ^ 64
    → r.expired ≡ false
    → r.is_writing ≡ false
    → r.cur_page ≡ some p
    → length args < calls
    → (ts : List ℕ) × (s' : Sys os) × (v : Writer os) × (k : Journal) × (write_all os matches
          (suc pages)
          (suc fuel)
          args
          w
          s
        ≡ ok ((v, ts), s'))
      × (length ts ≡ length args)
      × (rs : List (Entry × Option (List ℕ))) × (read_frames os provider calls pages fuel r s'
          ≡ ok ((rs, k), s'))
      × AreRead args ts rs
write_all-read_frames os matches pages fuel calls args w j r p s provider hj live writing at_p
      placed good room fits r_live r_reads r_at_p enough =
    let (ts, s', k, q, ran, at_k, count, placed', position, outside, texts, before) =
      write_all-appends os matches pages fuel args w j p s p.frame [] hj live writing at_p placed
        good room fits in
    (
      ts,
      s',
      record w { journal = some k },
      record r { cur_page = some (moved p (entries_of args ts)) },
      ran,
      count,
      texts_at s'.mem p.frame (entries_of args ts),
      read_frames-IsLog os provider calls pages fuel r p (entries_of args ts) q.frame s' r_live
          r_reads r_at_p placed'.log placed'.end_raw
          (omega (arith, length-entries_of args ts count)),
      texts_at-AreRead s'.mem p.frame args ts count texts,
    )
