-- ===== src/Journal/Writer/Write.antt =====
-- `write_frame_full` as a step of the log: what the call does to the journal's page and memory.
use option_hedge.Base.{
  ℕ, suc, ◌+◌, ◌^◌, ◌<◌, ◌≡◌, arith, List, [], ◌∷◌, ◌++◌, length, some, true, false, subst, sym,
  refl, Bool,
}
use option_hedge.Base.Text.{Text}
use option_hedge.Base.Memory.{Mem, IsOutside}
use option_hedge.Base.Word.{to_int}
use option_hedge.Constants.{journal_page_size, page_min_headroom}
use option_hedge.Os.{Os, Sys, ok}
use option_hedge.Timer.Clock.{get_nano_time_total}
use option_hedge.Journal.Frame.{get_field, status}
use option_hedge.Journal.Page.{Page}
use option_hedge.Journal.Provider.{PageProvider}
use option_hedge.Journal.Cursor.{
  Journal, locate_frame, locate_writable, locate_on_page, pass_journal_frame,
}
use option_hedge.Journal.Writer.{
  FrameArgs, Writer, write_frame_full, write_at, fill_frame, publish_frame,
}
use option_hedge.Journal.Log.{Entry, Holds, entry_length, IsLog}
use option_hedge.Journal.Log.ErrorText.{HasErrorText}
use option_hedge.Journal.Log.Append.{IsArgs, entry_of, publish_frame-IsLog}
use option_hedge.Journal.Log.Scan.{
  moved, log_length, locate_writable_frame_lem, pass_frame-Holds, IsLog-end, IsLog-last,
  frame-moved, position-moved,
}

-- Where the journal's page has headroom, the writable frame is found without a new page.
pub locate_frame-headroom :
    (os : Os) (provider : PageProvider os) (pages fuel : ℕ) (j : Journal) (p : Page) (s : Sys os)
    (es : List Entry) (b : ℕ)
    → j.expired ≡ false
    → j.is_writing ≡ true
    → j.cur_page ≡ some p
    → IsLog s.mem p.frame es b
    → get_field status b s.mem ≡ 0
    → length es < fuel
    → p.position + log_length es + page_min_headroom < journal_page_size
    → locate_frame os provider (suc pages) fuel j s
      ≡ ok ((record j { cur_page = some (moved p es) }, some b), s)
unfolding locate_frame locate_writable locate_on_page
locate_frame-headroom os provider pages fuel j p s es b live writing at_p l is_raw h room =
    ground (arith, locate_writable_frame_lem fuel p s.mem es b l is_raw h (omega arith))

-- Once the writable frame is located at the end of a log, the call appends one entry there. The log
-- may begin in front of the page's cursor.
pub write_frame_full-located :
    (os : Os) (matches : Text → Text → Bool) (pages fuel : ℕ) (a : FrameArgs) (w : Writer os)
    (j k : Journal) (p : Page) (s s0 : Sys os) (start : ℕ) (es : List Entry)
    → w.journal ≡ some j
    → locate_frame os w.provider pages fuel j s ≡ ok ((k, some p.frame), s0)
    → k.cur_page ≡ some p
    → IsLog s0.mem start es p.frame
    → IsArgs a
    → p.frame + 2 ^ 32 < 2 ^ 64
    → (t : ℕ) × (s' : Sys os) × (write_frame_full os matches pages fuel a w s
        ≡ ok (
          (
            record w {
              journal = some (record k { cur_page = some (moved p (entry_of a t ∷ [])) });
            },
            t,
          ),
          s',
        ))
      × IsLog s'.mem start (es ++ entry_of a t ∷ []) (p.frame + entry_length (entry_of a t))
      × (get_field status (p.frame + entry_length (entry_of a t)) s'.mem ≡ 0)
      × ((x : ℕ) → IsOutside x p.frame (entry_length (entry_of a t) + 1) → s'.mem x ≡ s0.mem x)
      × HasErrorText s'.mem p.frame a
unfolding write_frame_full write_at pass_journal_frame
write_frame_full-located os matches pages fuel a w j k p s s0 start es hj located at_p l args fits =
    let s1 : Sys os = record s0 { mem = fill_frame p.frame a s0.mem } in
    let (t, s2, clock, same, t_long) = get_nano_time_total os s1 in
    let m' : Mem = publish_frame p.frame t (fill_frame p.frame a s0.mem) in
    let (log, next_raw, outside, text) =
      publish_frame-IsLog start p.frame es a t s0.mem l args fits t_long in
    let holds : Holds m' p.frame (entry_of a t) =
      subst (λ x. Holds m' x (entry_of a t)) (sym (IsLog-end s0.mem es start p.frame l))
        (IsLog-last m' es start _ (entry_of a t) log) in
    let passed = pass_frame-Holds p m' (entry_of a t) holds in
    (
      t,
      record s2 { mem = m' },
      ground (arith, located, at_p, clock, same, passed),
      log,
      next_raw,
      outside,
      text,
    )

-- A writer whose page has headroom behind its log appends one entry: the call returns the time that
-- it stamped, the journal's page stands behind the new frame, its position has grown by the frame's
-- length, the header there is raw, the log has the new entry at its end, the frame has the call's error
-- text where there is an error with one, and no byte outside the frame
-- and that header's status has changed. Neither the clock nor the loops can keep it from returning.
pub write_frame_full-appends :
    (os : Os) (matches : Text → Text → Bool) (pages fuel : ℕ) (a : FrameArgs) (w : Writer os)
    (j : Journal) (p : Page) (s : Sys os) (es : List Entry) (b : ℕ)
    → w.journal ≡ some j
    → j.expired ≡ false
    → j.is_writing ≡ true
    → j.cur_page ≡ some p
    → IsLog s.mem p.frame es b
    → get_field status b s.mem ≡ 0
    → length es < fuel
    → p.position + log_length es + page_min_headroom < journal_page_size
    → IsArgs a
    → b + 2 ^ 32 < 2 ^ 64
    → (t : ℕ) × (s' : Sys os) × (q : Page) × (write_frame_full os matches (suc pages) fuel a w s
        ≡ ok ((record w { journal = some (record j { cur_page = some q }) }, t), s'))
      × IsLog s'.mem p.frame (es ++ entry_of a t ∷ []) q.frame
      × (get_field status q.frame s'.mem ≡ 0)
      × (q.position ≡ to_int (p.position + log_length es + entry_length (entry_of a t)))
      × ((x : ℕ) → IsOutside x b (entry_length (entry_of a t) + 1) → s'.mem x ≡ s.mem x)
      × HasErrorText s'.mem b a
write_frame_full-appends os matches pages fuel a w j p s es b hj live writing at_p l is_raw h room
      args fits =
    let here : (moved p es).frame ≡ b =
      omega (arith, IsLog-end s.mem es p.frame b l, frame-moved es p) in
    let located =
      locate_frame-headroom os w.provider pages fuel j p s es b live writing at_p l is_raw h room in
    let (t, s', written, log, next_raw, outside, text) =
      write_frame_full-located os matches (suc pages) fuel a w j
        (record j { cur_page = some (moved p es) }) (moved p es) s s p.frame es hj (rw here located)
        refl (rw here l) args (rw here fits) in
    (
      t,
      s',
      moved (moved p es) (entry_of a t ∷ []),
      written,
      log,
      next_raw,
      rw (position-moved es p (omega arith)),
      λ x o. outside x (omega (arith, here, o)),
      subst (λ x. HasErrorText s'.mem x a) here text,
    )
