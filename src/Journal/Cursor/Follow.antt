-- ===== src/Journal/Cursor/Follow.antt =====
-- A reader that comes to the end of a closed page and goes on to the next one: `locateFrame` and
-- `loadNextPage` of journal/journal.h and journal/journal.cpp.
use option_hedge.Base.{
  ℕ, zero, suc, ◌+◌, ◌<◌, ◌≡◌, ◌≢◌, refl, arith, List, [], ◌∷◌, ◌++◌, length, some, false, ap, ◌∙◌,
}
use option_hedge.Base.Memory.{Mem}
use option_hedge.Base.Word.{to_short}
use option_hedge.Constants.{journal_page_size}
use option_hedge.Os.{Os, Sys, ok}
use option_hedge.Journal.Frame.{status, get_field, frame_status_code}
use option_hedge.Journal.Log.{Entry, IsLog}
use option_hedge.Journal.Log.Scan.{moved, pass_frame-Holds}
use option_hedge.Journal.Page.{Page, is_at_page_end}
use option_hedge.Journal.Provider.{PageProvider}
use option_hedge.Journal.Cursor.{
  Journal, locate_frame, locate_readable, load_next_page, pass_journal_frame,
}
use option_hedge.Journal.Cursor.Read.{
  read_frames, texts_at, read_frames-IsLog, read_frame-Holds, locate_frame-Holds,
}

-- No log begins with the mark of a page's end.
not_closed :
    (m : Mem) (a : ℕ) (es : List Entry) (b : ℕ)
    → IsLog m a es b
    → get_field status b m ≡ 0
    → get_field status a m ≢ 2
not_closed m a [] b l raw e = omega (arith, e, raw, ap (λ x. get_field status x m) l)
not_closed m a (x ∷ es) b l raw e = omega (arith, e, l.0.is_written)

module _ (os : Os) (provider : PageProvider os) (pages fuel : ℕ) where
  -- At the mark of the end the journal goes to the next page and looks there.
  locate_frame-turn :
      (j : Journal) (p q : Page) (s s1 s2 : Sys os)
      → j.expired ≡ false
      → j.is_writing ≡ false
      → j.cur_page ≡ some p
      → get_field status p.frame s.mem ≡ 2
      → provider.get_page j.directory j.short_name j.service_idx (to_short (p.page_num + 1)) s
        ≡ ok (some q, s1)
      → provider.release_page p.buffer journal_page_size j.service_idx s1 ≡ ok (tt, s2)
      → get_field status q.frame s2.mem ≢ 2
      → locate_frame os provider pages fuel j s
        ≡ locate_frame os provider pages fuel (record j { cur_page = some q }) s2
  unfolding locate_frame locate_readable load_next_page is_at_page_end frame_status_code
  locate_frame-turn j p q s s1 s2 live reads at_p closed given released onward =
      ground (arith, closed, given, released, onward)

  module _ (q : Page) (b c : ℕ) (fs : List Entry) (s s1 s2 : Sys os) where
    -- A reader that goes over a closed page gets the page's entries and then, from the next page, the entries
    -- of that one, each with every field and byte and its error text, in their order, and then the null pointer; it stands
    -- on the next page, behind its last frame. It is so where the provider gives the next page and takes
    -- the old one back. One call more than there are frames is enough.
    pub read_frames-turns :
        (calls : ℕ) (j : Journal) (at : Page) (es : List Entry)
        → j.expired ≡ false
        → j.is_writing ≡ false
        → j.cur_page ≡ some at
        → IsLog s.mem at.frame es b
        → get_field status b s.mem ≡ 2
        → provider.get_page j.directory j.short_name j.service_idx (to_short (at.page_num + 1)) s
          ≡ ok (some q, s1)
        → provider.release_page at.buffer journal_page_size j.service_idx s1 ≡ ok (tt, s2)
        → IsLog s2.mem q.frame fs c
        → get_field status c s2.mem ≡ 0
        → length es + length fs < calls
        → read_frames os provider calls pages fuel j s
          ≡ ok (
            (
              texts_at s.mem at.frame es ++ texts_at s2.mem q.frame fs,
              record j { cur_page = some (moved q fs) },
            ),
            s2,
          )
    unfolding read_frames pass_journal_frame
    read_frames-turns zero j at es live reads at_p l closed given released next raw enough =
        absurd (omega arith)
    read_frames-turns (suc calls) j at [] live reads at_p l closed given released next raw enough =
        let turned =
          locate_frame-turn j at q s s1 s2 live reads at_p
            (ap (λ x. get_field status x s.mem) l ∙ closed) given released
            (not_closed s2.mem q.frame fs c next raw) in
        let rest =
          read_frames-IsLog os provider (suc calls) pages fuel (record j { cur_page = some q }) q fs
            c s2 live reads refl next raw (omega arith) in
        rw (read_frames, turned) rest
    read_frames-turns (suc calls) j at (e ∷ es) live reads at_p l closed given released next raw
          enough =
        let rest =
          read_frames-turns calls (record j { cur_page = some (moved at (e ∷ [])) })
            (moved at (e ∷ [])) es live reads refl l.1 closed given released next raw
            (omega arith) in
        ground (
          arith,
          locate_frame-Holds os provider pages fuel j at e s live reads at_p l.0,
          at_p,
          pass_frame-Holds at s.mem e l.0,
          read_frame-Holds at.frame s.mem e l.0,
          rest,
        )
