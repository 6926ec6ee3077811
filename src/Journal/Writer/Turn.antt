-- ===== src/Journal/Writer/Turn.antt =====
-- The writer's step onto a next page: `locateFrame` of journal/journal.h under `write_frame_full`, when the
-- current page has no headroom left.
use option_hedge.Base.{
  inl, ℕ, suc, ◌+◌, ◌<◌, ◌≤◌, ◌≡◌, refl, sym, ◌∙◌, arith, List, [], ◌∷◌, length, some, true, false,
  Bool,
}
use option_hedge.Base.Text.{Text}
use option_hedge.Base.Memory.{Mem, load_cong}
use option_hedge.Base.Word.{to_short}
use option_hedge.Constants.{journal_page_size, page_min_headroom}
use option_hedge.Os.{Os, Sys, ok}
use option_hedge.Journal.Frame.{get_field, status, width, offset}
use option_hedge.Journal.Frame.Data.{header_length}
use option_hedge.Journal.Page.{Page, frame_num, last_pos, page_header_length}
use option_hedge.Journal.Provider.{PageProvider}
use option_hedge.Journal.Cursor.{Journal, locate_frame, locate_writable, locate_on_page}
use option_hedge.Journal.Writer.{FrameArgs, Writer, write_frame_full}
use option_hedge.Journal.Writer.Write.{write_frame_full-located}
use option_hedge.Journal.Log.{Entry, entry_length, IsLog, Agree, IsLog-Agree, IsLog-le}
use option_hedge.Journal.Log.ErrorText.{HasErrorText}
use option_hedge.Journal.Log.Append.{IsArgs, entry_of}
use option_hedge.Journal.Page.Header.{get_header_cong}
use option_hedge.Journal.Log.Scan.{moved}
use option_hedge.Journal.Writer.NextPage.{
  Releases, IsFull, IsFresh, IsClosed, full_page, fresh_page, load_next_page-closes,
}

module _ (os : Os) (provider : PageProvider os) (j : Journal) where
  locate_frame-turns :
      (pages fuel : ℕ) (p q : Page) (s s1 : Sys os) (es : List Entry) (b : ℕ)
      → j.expired ≡ false
      → j.is_writing ≡ true
      → j.cur_page ≡ some p
      → IsFull p s.mem es b
      → length es < suc fuel
      → provider.get_page j.directory j.short_name j.service_idx (to_short (p.page_num + 1)) s
        ≡ ok (some q, s1)
      → Agree s1.mem s.mem p.buffer (p.buffer + journal_page_size)
      → IsFresh p q s1.mem
      → Releases os provider j p.buffer
      → (s3 : Sys os) × (locate_frame os provider (suc (suc pages)) (suc fuel) j s
          ≡ ok ((record j { cur_page = some q }, some q.frame), s3))
        × IsClosed p s3.mem es b
        × IsFresh p q s3.mem
        × Agree s3.mem s1.mem q.buffer (q.buffer + journal_page_size)
  unfolding locate_frame locate_writable locate_on_page
  locate_frame-turns pages fuel p q s s1 es b live writing at_p full h given kept fresh releases =
      let (s3, loaded, closed, fresh', new_kept) =
        load_next_page-closes os provider j p q s s1 es b live writing full given kept fresh
          releases in
      (
        s3,
        ground (
          arith,
          live,
          writing,
          at_p,
          full_page os provider j (suc fuel) p s.mem es b full h,
          loaded,
          fresh_page os provider j fuel p q s3.mem fresh',
        ),
        closed,
        fresh',
        new_kept,
      )

  -- A page that is left behind keeps what it holds while only bytes of the fresh page change.
  IsClosed-Agree :
      (p : Page) (m m' : Mem) (es : List Entry) (b : ℕ)
      → p.buffer + page_header_length ≤ p.frame
      → b < p.buffer + journal_page_size
      → Agree m m' p.buffer (p.buffer + journal_page_size)
      → IsClosed p m es b
      → IsClosed p m' es b
  unfolding get_field width offset
  IsClosed-Agree p m m' es b before inside same closed =
      let below = IsLog-le m es p.frame b closed.log in
      record {
        log =
            IsLog-Agree m m' es p.frame b (λ x lo hi. same x (omega arith) (omega arith))
              closed.log;
        ended =
            sym (load_cong 1 (b + 0) m m' (λ x lo hi. same x (omega arith) (omega arith)))
            ∙ closed.ended;
        frames =
            sym (get_header_cong frame_num p.buffer m m' (λ x lo hi. same x lo (omega arith)))
            ∙ closed.frames;
        last =
            sym (get_header_cong last_pos p.buffer m m' (λ x lo hi. same x lo (omega arith)))
            ∙ closed.last;
      }

-- A writer whose page has no headroom left goes on to the next page: the provider is asked for the page
-- of the next number, the entry is the first one of the page that it gives, with the call's error text
-- where there is an error with one, and the old page is closed
-- behind its log, with its frames and its last position in its header. What the next page has in front
-- of its first frame is kept. It is stated for a frame
-- shorter than the headroom, for a provider that gives a fresh page apart from the old one and leaves
-- the old page's bytes alone, and that can release the old page. Two rounds of the loop are enough.
pub write_frame_full-turns :
    (os : Os) (matches : Text → Text → Bool) (pages fuel : ℕ) (a : FrameArgs) (w : Writer os)
    (j : Journal) (p q : Page) (s s1 : Sys os) (es : List Entry) (b : ℕ)
    → w.journal ≡ some j
    → j.expired ≡ false
    → j.is_writing ≡ true
    → j.cur_page ≡ some p
    → IsFull p s.mem es b
    → length es < suc fuel
    → w.provider.get_page j.directory j.short_name j.service_idx (to_short (p.page_num + 1)) s
      ≡ ok (some q, s1)
    → Agree s1.mem s.mem p.buffer (p.buffer + journal_page_size)
    → IsFresh p q s1.mem
    → Releases os w.provider j p.buffer
    → IsArgs a
    → header_length a.error_id + length a.bytes < page_min_headroom
    → (t : ℕ) × (s' : Sys os) × (write_frame_full os matches (suc (suc pages)) (suc fuel) a w s
        ≡ ok (
          (
            record w {
              journal = some (record j { cur_page = some (moved q (entry_of a t ∷ [])) });
            },
            t,
          ),
          s',
        ))
      × IsLog s'.mem q.frame (entry_of a t ∷ []) (q.frame + entry_length (entry_of a t))
      × (get_field status (q.frame + entry_length (entry_of a t)) s'.mem ≡ 0)
      × IsClosed p s'.mem es b
      × HasErrorText s'.mem q.frame a
      × Agree s'.mem s1.mem q.buffer q.frame
write_frame_full-turns os matches pages fuel a w j p q s s1 es b hj live writing at_p full h given
      kept fresh releases args short =
    let (s3, located, closed, fresh', new_kept) =
      locate_frame-turns os w.provider j pages fuel p q s s1 es b live writing at_p full h given
        kept fresh releases in
    let (t, s', written, log, next_raw, outside, text) =
      write_frame_full-located os matches (suc (suc pages)) (suc fuel) a w j
        (record j { cur_page = some q }) q s s3 q.frame [] hj located refl refl args
        fresh.address_long in
    (
      t,
      s',
      written,
      log,
      next_raw,
      IsClosed-Agree os w.provider j p s3.mem s'.mem es b full.header_before full.end_inside
          (λ x lo hi.
            sym (
              outside x
                (omega (arith, short, fresh.apart, fresh.first_behind, fresh.first_inside))))
          closed,
      text,
      λ x lo hi. outside x (inl hi) ∙ new_kept x lo (omega (arith, fresh.first_inside)),
    )
