-- ===== src/Journal/Writer/Run.antt =====
-- A run of `write_frame_full` of journal/JournalWriter.cpp on one page, and the bytes that it may touch.
use option_hedge.Base.{
  inl, ℕ, suc, ◌+◌, ◌^◌, ◌<◌, ◌≡◌, refl, arith, List, [], ◌∷◌, ◌++◌, All, length, some, true, false,
  ap, sym, ◌∙◌, Bool, subst,
}
use mathlib.Core.List.{append_assoc, append-nil}
use option_hedge.Base.Text.{Text}
use option_hedge.Base.Memory.{Mem, IsOutside}
use option_hedge.Constants.{journal_page_size, page_min_headroom}
use option_hedge.Os.{Os, Sys, M, ok, ◌>>=◌, pure}
use option_hedge.Journal.Frame.{get_field, status}
use option_hedge.Journal.Frame.Data.{header_length}
use option_hedge.Journal.Page.{Page}
use option_hedge.Journal.Cursor.{Journal}
use option_hedge.Journal.Writer.{FrameArgs, Writer, write_frame_full}
use option_hedge.Journal.Writer.Write.{write_frame_full-located, locate_frame-headroom}
use option_hedge.Journal.Log.{Entry, IsLog}
use option_hedge.Journal.Log.ErrorText.{HasErrorText, HasErrorText-Agree}
use option_hedge.Journal.Log.Append.{IsArgs, entry_of}
use option_hedge.Journal.Log.Scan.{moved}

abbrev pub frame_length : FrameArgs → ℕ
frame_length a = header_length a.error_id + length a.bytes

abbrev pub frames_length : List FrameArgs → ℕ
frames_length [] = 0
frames_length (a ∷ rest) = frame_length a + frames_length rest

-- The entries of the calls at the times that they returned.
abbrev pub entries_of : List FrameArgs → List ℕ → List Entry
entries_of [] ts = []
entries_of (a ∷ rest) [] = []
entries_of (a ∷ rest) (t ∷ ts) = entry_of a t ∷ entries_of rest ts

-- The page's cursor stands behind a log that begins at `start`, at its position in the page's buffer.
pub record IsPlaced (p : Page) (m : Mem) (start : ℕ) (es : List Entry) : Type 0 where
  pub log : IsLog m start es p.frame
  pub end_raw : get_field status p.frame m ≡ 0
  pub at : p.frame ≡ p.buffer + p.position

module _ (os : Os) (matches : Text → Text → Bool) (pages fuel : ℕ) where
  -- Calls of `write_frame_full`, one after the other, with the times that they return.
  unfoldable pub write_all : List FrameArgs → Writer os → M (Sys os) (Writer os × List ℕ)
  write_all [] w = pure (w, [])
  write_all (a ∷ rest) w = do
    (v, t) ← write_frame_full os matches pages fuel a w
    (u, ts) ← write_all rest v
    pure (u, t ∷ ts)

-- One call on a placed page with headroom, for a frame that ends in the page.
write_frame_full-IsPlaced :
    (os : Os) (matches : Text → Text → Bool) (pages fuel : ℕ) (a : FrameArgs) (w : Writer os)
    (j : Journal) (p : Page) (s : Sys os) (start : ℕ) (es : List Entry)
    → w.journal ≡ some j
    → j.expired ≡ false
    → j.is_writing ≡ true
    → j.cur_page ≡ some p
    → IsPlaced p s.mem start es
    → p.position + page_min_headroom < journal_page_size
    → IsArgs a
    → p.position + frame_length a < journal_page_size
    → p.buffer + 2 ^ 33 < 2 ^ 64
    → (t : ℕ) × (s' : Sys os) × (q : Page) × (write_frame_full os matches
          (suc pages)
          (suc fuel)
          a
          w
          s
        ≡ ok ((record w { journal = some (record j { cur_page = some q }) }, t), s'))
      × IsPlaced q s'.mem start (es ++ entry_of a t ∷ [])
      × (q.buffer ≡ p.buffer)
      × (q.position ≡ p.position + frame_length a)
      × (q.position < journal_page_size)
      × ((x : ℕ) → IsOutside x p.buffer journal_page_size → s'.mem x ≡ s.mem x)
      × HasErrorText s'.mem p.frame a
      × ((x : ℕ) → x < p.frame → s'.mem x ≡ s.mem x)
write_frame_full-IsPlaced os matches pages fuel a w j p s start es hj live writing at_p placed room
      args ends fits =
    let located =
      locate_frame-headroom os w.provider pages (suc fuel) j p s [] p.frame live writing at_p refl
        placed.end_raw (omega arith) (omega arith) in
    let (t, s', written, log, next_raw, outside, text) =
      write_frame_full-located os matches (suc pages) (suc fuel) a w j
        (record j { cur_page = some p }) p s s start es hj located refl placed.log args
        (omega (arith, placed.at)) in
    (
      t,
      s',
      moved p (entry_of a t ∷ []),
      written,
      record { log = log; end_raw = next_raw; at = omega (arith, placed.at) },
      refl,
      omega arith,
      omega arith,
      λ x o. outside x (omega (arith, placed.at)),
      text,
      λ x o. outside x (inl o),
    )

-- The headroom that `locateWritableFrame` asks for keeps every write in the page's buffer, as long as the
-- frame is shorter than the headroom: the call returns, no byte outside the buffer changes, the page
-- stands behind the new entry, and its position is still within the page.
pub write_frame_full-in_page :
    (os : Os) (matches : Text → Text → Bool) (pages fuel : ℕ) (a : FrameArgs) (w : Writer os)
    (j : Journal) (p : Page) (s : Sys os) (start : ℕ) (es : List Entry)
    → w.journal ≡ some j
    → j.expired ≡ false
    → j.is_writing ≡ true
    → j.cur_page ≡ some p
    → IsPlaced p s.mem start es
    → p.position + page_min_headroom < journal_page_size
    → IsArgs a
    → frame_length a < page_min_headroom
    → p.buffer + 2 ^ 33 < 2 ^ 64
    → (t : ℕ) × (s' : Sys os) × (q : Page) × (write_frame_full os matches
          (suc pages)
          (suc fuel)
          a
          w
          s
        ≡ ok ((record w { journal = some (record j { cur_page = some q }) }, t), s'))
      × IsPlaced q s'.mem start (es ++ entry_of a t ∷ [])
      × (q.buffer ≡ p.buffer)
      × (q.position ≡ p.position + frame_length a)
      × (q.position < journal_page_size)
      × ((x : ℕ) → IsOutside x p.buffer journal_page_size → s'.mem x ≡ s.mem x)
write_frame_full-in_page os matches pages fuel a w j p s start es hj live writing at_p placed room
      args short fits =
    let (t, s', q, written, placed', buffer, position, inside, outside, text, before) =
      write_frame_full-IsPlaced os matches pages fuel a w j p s start es hj live writing at_p placed
        room args (omega arith) fits in
    (t, s', q, written, placed', buffer, position, inside, outside)

-- The frames that lie one behind the other from `frame` on have the error texts of the calls.
abbrev pub HaveErrorTexts : Mem → ℕ → List FrameArgs → Type 0
HaveErrorTexts m frame [] = Unit
HaveErrorTexts m frame (a ∷ rest) =
    HasErrorText m frame a × HaveErrorTexts m (frame + frame_length a) rest

-- Calls that the page has room for, with its headroom, append their entries in order: every call
-- returns, the entries carry the calls' arguments and the times returned, the frames have the calls' error
-- texts, and no byte outside the
-- page's buffer changes. One page and one round of the loop over frames are enough.
pub write_all-appends :
    (os : Os) (matches : Text → Text → Bool) (pages fuel : ℕ) (args : List FrameArgs)
    (w : Writer os) (j : Journal) (p : Page) (s : Sys os) (start : ℕ) (es : List Entry)
    → w.journal ≡ some j
    → j.expired ≡ false
    → j.is_writing ≡ true
    → j.cur_page ≡ some p
    → IsPlaced p s.mem start es
    → All IsArgs args
    → p.position + frames_length args + page_min_headroom < journal_page_size
    → p.buffer + 2 ^ 33 < 2 ^ 64
    → (ts : List ℕ) × (s' : Sys os) × (k : Journal) × (q : Page) × (write_all os matches
          (suc pages)
          (suc fuel)
          args
          w
          s
        ≡ ok ((record w { journal = some k }, ts), s'))
      × (k ≡ record j { cur_page = some q })
      × (length ts ≡ length args)
      × IsPlaced q s'.mem start (es ++ entries_of args ts)
      × (q.position ≡ p.position + frames_length args)
      × ((x : ℕ) → IsOutside x p.buffer journal_page_size → s'.mem x ≡ s.mem x)
      × HaveErrorTexts s'.mem p.frame args
      × ((x : ℕ) → x < p.frame → s'.mem x ≡ s.mem x)
unfolding write_all
write_all-appends os matches pages fuel [] w j p s start es hj live writing at_p placed args room
      fits =
    (
      [],
      s,
      j,
      p,
      ground (arith, hj),
      ground (arith, at_p),
      refl,
      subst (IsPlaced p s.mem start) (sym (append-nil es)) placed,
      omega arith,
      λ x o. refl,
      tt,
      λ x o. refl,
    )
write_all-appends os matches pages fuel (a ∷ rest) w j p s start es hj live writing at_p placed
      (good, goods) room fits =
    let (t, s1, q, written, placed', buffer, position, inside, outside, text, before) =
      write_frame_full-IsPlaced os matches pages fuel a w j p s start es hj live writing at_p placed
        (omega arith) good (omega arith) fits in
    let behind : q.frame ≡ p.frame + frame_length a = omega (arith, placed.at, placed'.at) in
    let j1 : Journal = record j { cur_page = some q } in
    let (ts, s2, k, r, ran, at_k, count, placed'', position', outside', texts, before') =
      write_all-appends os matches pages fuel rest (record w { journal = some j1 }) j1 q s1 start
        (es ++ entry_of a t ∷ []) refl live writing refl placed' goods (omega arith)
        (omega arith) in
    (
      t ∷ ts,
      s2,
      k,
      r,
      ground (arith, written, ran),
      at_k,
      ap suc count,
      subst (IsPlaced r s2.mem start) (append_assoc es (entry_of a t ∷ []) (entries_of rest ts))
          placed'',
      omega arith,
      λ x o. outside' x (omega arith) ∙ outside x o,
      (
        HasErrorText-Agree s1.mem s2.mem p.frame a (omega (arith, placed.at))
            (λ x lo hi. sym (before' x (omega (arith, behind)))) text,
        subst (λ x. HaveErrorTexts s2.mem x rest) behind texts,
      ),
      λ x o. before' x (omega (arith, behind)) ∙ before x o,
    )
