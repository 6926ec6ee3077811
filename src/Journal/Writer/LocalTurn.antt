-- ===== src/Journal/Writer/LocalTurn.antt =====
-- The step of a writer onto a next page with LocalPageProvider of journal/PageProvider.cpp, which loads
-- the page itself: `Page::load` of journal/Page.cpp under `loadNextPage` of journal/journal.cpp.
use option_hedge.Base.{
  ℕ, suc, ◌+◌, ◌%◌, ◌^◌, ◌<◌, ◌≤◌, ◌≡◌, refl, arith, ◌∙◌, List, [], ◌∷◌, length, some, true, false,
  Bool,
}
use option_hedge.Base.Text.{Text}
use option_hedge.Base.Memory.{Mem, load, IsApart, IsOutside}
use option_hedge.Base.Word.{to_short}
use option_hedge.Constants.{journal_page_size, page_min_headroom}
use option_hedge.Os.{Os, Sys, ok}
use option_hedge.Journal.Frame.{get_field, status, width, offset, address_add}
use option_hedge.Journal.Frame.Data.{header_length}
use option_hedge.Journal.PageUtil.{load_page_buffer, release_page_buffer, gen_page_full_path}
use option_hedge.Journal.Page.{
  Page, HeaderField, get_header, header_width, header_offset, new_page, page_header_length,
}
use option_hedge.Journal.Page.Load.{load_page-new, IsInited, IsInited-Agree}
use option_hedge.Journal.Provider.{local_page_provider, local_get_page, local_release_page}
use option_hedge.Journal.Cursor.{Journal}
use option_hedge.Journal.Writer.{FrameArgs, Writer, write_frame_full}
use option_hedge.Journal.Writer.NextPage.{IsFull, IsFresh, IsClosed}
use option_hedge.Journal.Writer.Turn.{write_frame_full-turns}
use option_hedge.Journal.Log.{Entry, entry_length, IsLog, Agree}
use option_hedge.Journal.Log.ErrorText.{HasErrorText}
use option_hedge.Journal.Log.Append.{IsArgs, entry_of}
use option_hedge.Journal.Log.Scan.{moved}

-- A file that was just made, mapped at `buffer` apart from the page's own bytes, which mapping keeps.
pub record IsMapped (p : Page) (buffer : ℕ) (before after : Mem) : Type 0 where
  pub zero_bytes : (x : ℕ) → buffer ≤ x → x < buffer + 200 → after x ≡ 0
  pub apart : IsApart p.buffer journal_page_size buffer journal_page_size
  pub address_long : buffer + 2 ^ 33 < 2 ^ 64
  pub kept : Agree after before p.buffer (p.buffer + journal_page_size)

zero_header :
    (p : Page) (buffer : ℕ) (m m' : Mem)
    → IsMapped p buffer m m'
    → get_header HeaderField.status buffer m' ≡ 0
unfolding get_header header_width header_offset load
zero_header p buffer m m' mapped =
    omega (arith, mapped.zero_bytes buffer (omega arith) (omega arith))

module _ (os : Os) (revise : Bool) where
  fresh_page :
      (j : Journal) (p : Page) (buffer number : ℕ) (m m1 m2 : Mem)
      → IsMapped p buffer m m1
      → ((x : ℕ) → IsOutside x buffer page_header_length → m2 x ≡ m1 x)
      → IsFresh p (record (new_page buffer) { page_num = number }) m2
  unfolding new_page address_add get_field width offset load
  fresh_page j p buffer number m m1 m2 mapped outside =
      let small : (buffer + 137) % 2 ^ 64 ≡ buffer + 137 = omega (arith, mapped.address_long) in
      let first : m2 (buffer + 137) ≡ 0 =
        outside (buffer + 137) (omega arith)
        ∙ mapped.zero_bytes (buffer + 137) (omega arith) (omega arith) in
      record {
        first_raw = ground (arith, small, first);
        room = omega arith;
        first_behind = omega (arith, mapped.address_long);
        first_inside = omega (arith, mapped.address_long);
        apart = mapped.apart;
        address_long = omega (arith, mapped.address_long);
      }

-- A writer of a local provider whose page has no headroom left makes the next page itself: the entry is
-- the first one of a new page whose header is set up with the journal's name and the next number, with the call's error text where there is an error
-- with one, and the old page is closed behind its log. It is stated for a journal whose name fits the header, a frame
-- shorter than the headroom, and an operating system that maps the new file, with zero bytes, apart
-- from the old page, and then releases the old page.
pub write_frame_full-local :
    (os : Os) (matches : Text → Text → Bool) (pages fuel : ℕ) (revise : Bool) (a : FrameArgs)
    (journals : List Journal) (j : Journal) (p : Page) (buffer : ℕ) (s s1 : Sys os)
    (es : List Entry) (b : ℕ)
    → j.expired ≡ false
    → j.is_writing ≡ true
    → j.cur_page ≡ some p
    → IsFull p s.mem es b
    → length es < suc fuel
    → load_page_buffer os
        (gen_page_full_path j.directory j.short_name (to_short (p.page_num + 1)))
        journal_page_size
        true
        false
        s
      ≡ ok (some buffer, s1)
    → IsMapped p buffer s.mem s1.mem
    → length j.short_name < 30
    → ((x : Sys os)
        → (y : Sys os) × (release_page_buffer os p.buffer journal_page_size false x ≡ ok (tt, y))
          × (y.mem ≡ x.mem))
    → IsArgs a
    → header_length a.error_id + length a.bytes < page_min_headroom
    → let w : Writer os = record {
      provider = local_page_provider os true revise;
      journals = journals;
      journal = some j;
    } in
      let q = record (new_page buffer) { page_num = to_short (p.page_num + 1) } in
      (t : ℕ) × (s' : Sys os) × (write_frame_full os matches (suc (suc pages)) (suc fuel) a w s
        ≡ ok (
          (
            record w {
              journal = some (record j { cur_page = some (moved q (entry_of a t ∷ [])) });
            },
            t,
          ),
          s',
        ))
      × IsLog s'.mem q.frame (entry_of a t ∷ []) (q.frame + entry_length (entry_of a t))
      × (get_field status (q.frame + entry_length (entry_of a t)) s'.mem ≡ 0)
      × IsClosed p s'.mem es b
      × HasErrorText s'.mem q.frame a
      × (made : ℕ) × IsInited s'.mem buffer j.short_name (to_short (p.page_num + 1)) made
unfolding local_page_provider local_get_page local_release_page new_page address_add
write_frame_full-local os matches pages fuel revise a journals j p buffer s s1 es b live writing
      at_p full h opened mapped name_fits releases args short =
    let (t, s2, loaded, inited, outside) =
      load_page-new os j.directory j.short_name (to_short (p.page_num + 1)) false buffer s s1 opened
        (zero_header p buffer s.mem s1.mem mapped) name_fits (omega arith) in
    let fresh =
      fresh_page os revise j p buffer (to_short (p.page_num + 1)) s.mem s1.mem s2.mem mapped
        outside in
    let (t', s', written, log, next_raw, closed, text, before) =
      write_frame_full-turns os matches pages fuel a
        (record {
          provider = local_page_provider os true revise;
          journals = journals;
          journal = some j;
        })
        j p (record (new_page buffer) { page_num = to_short (p.page_num + 1) }) s s2 es b refl live
        writing at_p full h loaded
        (λ x lo hi. outside x (omega (arith, mapped.apart)) ∙ mapped.kept x lo hi) fresh releases
        args short in
    (
      t',
      s',
      written,
      log,
      next_raw,
      closed,
      text,
      t,
      IsInited-Agree s2.mem s'.mem buffer j.short_name (to_short (p.page_num + 1)) t name_fits
          (λ x lo hi. before x lo (omega (arith, mapped.address_long))) inited,
    )
