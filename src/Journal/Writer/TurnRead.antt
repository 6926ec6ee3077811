-- ===== src/Journal/Writer/TurnRead.antt =====
-- A writer that goes on to a next page, and a reader that follows it there: journal/JournalWriter.cpp and
-- journal/journal.h together.
use option_hedge.Base.{
  ap, sym, ℕ, suc, ◌+◌, ◌<◌, ◌≡◌, arith, List, [], ◌∷◌, ◌++◌, length, Option, some, true, false,
  Bool, subst, ◌∙◌, ◌==◌,
}
use option_hedge.Base.Text.{Text}
use option_hedge.Base.Word.{to_short}
use option_hedge.Constants.{journal_page_size, page_min_headroom}
use option_hedge.Os.{Os, Sys, ok}
use option_hedge.Journal.Frame.Data.{header_length}
use option_hedge.Journal.Page.{Page}
use option_hedge.Journal.Provider.{PageProvider}
use option_hedge.Journal.Cursor.{Journal}
use option_hedge.Journal.Cursor.Read.{read_frames, texts_at}
use option_hedge.Journal.Cursor.Follow.{read_frames-turns}
use option_hedge.Journal.Writer.{FrameArgs, Writer, write_frame_full}
use option_hedge.Journal.Log.{Entry, entry_length, IsLog, Agree}
use option_hedge.Journal.Frame.{get_field, status}
use option_hedge.Journal.Log.ErrorText.{HasErrorText, GivesText, read_error_text}
use option_hedge.Journal.Log.Append.{IsArgs, entry_of}
use option_hedge.Journal.Log.Scan.{moved}
use option_hedge.Journal.Writer.NextPage.{Releases, IsFull, IsFresh, IsClosed}
use option_hedge.Journal.Writer.Turn.{write_frame_full-turns}

-- The reader's journal stands on the page, and its provider's next page at the writer's.
pub record IsFollowing (k : Journal) (o p r q : Page) : Type 0 where
  pub live : k.expired ≡ false
  pub reads : k.is_writing ≡ false
  pub at_page : k.cur_page ≡ some o
  pub same_frame : o.frame ≡ p.frame
  pub next_frame : r.frame ≡ q.frame

-- A frame written on a next page, since its page is full, is read behind the frames of the full page: a reader
-- at the front of the full page gets the page's entries, goes over to the next page and gets the call's
-- entry with its time there, with its error text if it has an error with one, and then the null pointer.
-- The writer's call is one that returned, as it does for a turn of the page; the reader's provider then
-- gives the same next page at the same address, and takes the old one back. Two calls more than there
-- are frames on the full page are enough.
pub write_frame_full-read_frames :
    (os : Os) (matches : Text → Text → Bool) (pages fuel : ℕ) (a : FrameArgs) (w : Writer os)
    (j : Journal) (p q : Page) (s s1 : Sys os) (es : List Entry) (b : ℕ) (reader : PageProvider os)
    (k : Journal) (o r : Page) (v : Writer os) (t : ℕ) (s' s2 s3 : Sys os)
    → w.journal ≡ some j
    → j.expired ≡ false
    → j.is_writing ≡ true
    → j.cur_page ≡ some p
    → IsFull p s.mem es b
    → length es < suc fuel
    → w.provider.get_page j.directory j.short_name j.service_idx (to_short (p.page_num + 1)) s
      ≡ ok (some q, s1)
    → Agree s1.mem s.mem p.buffer (p.buffer + journal_page_size)
    → IsFresh p q s1.mem
    → Releases os w.provider j p.buffer
    → IsArgs a
    → header_length a.error_id + length a.bytes < page_min_headroom
    → write_frame_full os matches (suc (suc pages)) (suc fuel) a w s ≡ ok ((v, t), s')
    → IsFollowing k o p r q
    → reader.get_page k.directory k.short_name k.service_idx (to_short (o.page_num + 1)) s'
      ≡ ok (some r, s2)
    → reader.release_page o.buffer journal_page_size k.service_idx s2 ≡ ok (tt, s3)
    → s3.mem ≡ s'.mem
    → (text : Option (List ℕ)) × (read_frames os reader (suc (suc (length es))) pages fuel k s'
        ≡ ok (
          (
            texts_at s'.mem p.frame es ++ (entry_of a t, text) ∷ [],
            record k { cur_page = some (moved r (entry_of a t ∷ [])) },
          ),
          s3,
        ))
      × GivesText (a.error_id == 0) a.error_msg text
write_frame_full-read_frames os matches pages fuel a w j p q s s1 es b reader k o r v t s' s2 s3 hj
      live writing at_p full h given kept fresh releases args short wrote follows turned released
      same =
    let (t0, s0, written, log, next_raw, closed, text, before) =
      write_frame_full-turns os matches pages fuel a w j p q s s1 es b hj live writing at_p full h
        given kept fresh releases args short in
    let at_t : t0 ≡ t = cc (written, wrote) in
    let at_s : s0 ≡ s' = cc (written, wrote) in
    let e = entry_of a t in
    let log' : IsLog s0.mem q.frame (e ∷ []) (q.frame + entry_length e) =
      subst (λ x. IsLog s0.mem q.frame (entry_of a x ∷ []) (q.frame + entry_length (entry_of a x)))
        at_t log in
    let raw' : get_field status (q.frame + entry_length e) s0.mem ≡ 0 = next_raw in
    let next_log : IsLog s3.mem r.frame (e ∷ []) (q.frame + entry_length e) =
      subst (λ m. IsLog m r.frame (e ∷ []) (q.frame + entry_length e))
        (ap (λ x. x.mem) at_s ∙ sym same) (rw follows.next_frame log') in
    let old = subst (λ x. IsClosed p x.mem es b) at_s closed in
    let gives = (subst (λ x. HasErrorText x.mem q.frame a) at_s text).has_text in
    let went =
      read_frames-turns os reader pages fuel r b (q.frame + entry_length e) (e ∷ []) s' s2 s3
        (suc (suc (length es))) k o es follows.live follows.reads follows.at_page
        (rw follows.same_frame old.log) old.ended turned released next_log
        (subst (λ m. get_field status (q.frame + entry_length e) m ≡ 0)
          (ap (λ x. x.mem) at_s ∙ sym same) raw')
        (omega arith) in
    (
      read_error_text q.frame s'.mem,
      went ∙ ground (arith, same, follows.same_frame, follows.next_frame),
      gives,
    )
