-- ===== src/Journal/Writer/NextPage.antt =====
-- `loadNextPage` of journal/journal.cpp for a writer: a full page is closed, and a fresh one is next.
use option_hedge.Base.{
  ℕ, suc, ◌+◌, ◌-◌, ◌^◌, ◌<◌, ◌≤◌, ◌≡◌, refl, sym, ◌∙◌, arith, List, [], length, some, none, true,
  false, ap,
}
use option_hedge.Base.Memory.{Mem, IsApart}
use option_hedge.Base.Word.{to_short}
use option_hedge.Constants.{journal_page_size, page_min_headroom}
use option_hedge.Os.{Os, Sys, ok}
use option_hedge.Journal.Frame.{get_field, status}
use option_hedge.Journal.Frame.Fields.{get_field_cong}
use option_hedge.Journal.Page.{
  Page, frame_num, last_pos, get_header, page_header_length, locate_writable_frame,
}
use option_hedge.Journal.Provider.{PageProvider}
use option_hedge.Journal.Cursor.{Journal, load_next_page}
use option_hedge.Journal.Log.{Entry, IsLog, Agree, IsLog-Agree, IsLog-le}
use option_hedge.Journal.Log.Close.{finish_page_lem}
use option_hedge.Journal.Log.Scan.{
  moved, log_length, locate_writable_frame_lem, IsLog-end, frame-moved, position-moved,
  frame_num-moved, buffer-moved,
}

-- The page's log, its raw end and its numbers, when no headroom is left behind the log.
pub record IsFull (p : Page) (m : Mem) (es : List Entry) (b : ℕ) : Type 0 where
  pub log : IsLog m p.frame es b
  pub end_raw : get_field status b m ≡ 0
  pub no_room : journal_page_size ≤ p.position + log_length es + page_min_headroom
  pub position_int : p.position + log_length es < 2 ^ 31 - page_min_headroom
  pub frame_num_int : p.frame_num + length es < 2 ^ 32
  pub header_before : p.buffer + page_header_length ≤ p.frame
  pub end_inside : b < p.buffer + journal_page_size

-- A fresh page that lies apart from the page `p`.
pub record IsFresh (p q : Page) (m : Mem) : Type 0 where
  pub first_raw : get_field status q.frame m ≡ 0
  pub room : q.position + page_min_headroom < journal_page_size
  pub first_behind : q.buffer ≤ q.frame
  pub first_inside : q.frame + page_min_headroom < q.buffer + journal_page_size
  pub apart : IsApart p.buffer journal_page_size q.buffer journal_page_size
  pub address_long : q.frame + 2 ^ 32 < 2 ^ 64

-- The page that is left behind: its log is kept, the frame behind it is marked as the page's end, and
-- the page's header has the number of frames and the last position.
pub record IsClosed (p : Page) (m : Mem) (es : List Entry) (b : ℕ) : Type 0 where
  pub log : IsLog m p.frame es b
  pub ended : get_field status b m ≡ 2
  pub frames : get_header frame_num p.buffer m ≡ p.frame_num + length es
  pub last : get_header last_pos p.buffer m ≡ p.position + log_length es

module _ (os : Os) (provider : PageProvider os) (j : Journal) where
  -- Releasing a page succeeds, and takes nothing of the memory away that is still mapped.
  abbrev pub Releases : ℕ → Type 0
  Releases buffer =
      (x : Sys os)
      → (y : Sys os) × (provider.release_page buffer journal_page_size j.service_idx x ≡ ok (tt, y))
        × (y.mem ≡ x.mem)

  pub full_page :
      (fuel : ℕ) (p : Page) (m : Mem) (es : List Entry) (b : ℕ)
      → IsFull p m es b
      → length es < fuel
      → locate_writable_frame fuel p m ≡ some (moved p es, none)
  full_page fuel p m es b full h = ground (
    arith,
    locate_writable_frame_lem fuel p m es b full.log full.end_raw h full.position_int,
    full.no_room,
  )

  pub fresh_page :
      (fuel : ℕ) (p q : Page) (m : Mem)
      → IsFresh p q m
      → locate_writable_frame (suc fuel) q m ≡ some (q, some q.frame)
  fresh_page fuel p q m fresh = ground (
    arith,
    locate_writable_frame_lem (suc fuel) q m [] q.frame refl fresh.first_raw (omega arith)
        (omega (arith, fresh.room)),
    fresh.room,
  )

  -- `loadNextPage` closes the page and goes on to the one that the provider gives.
  pub load_next_page-closes :
      (p q : Page) (s s1 : Sys os) (es : List Entry) (b : ℕ)
      → j.expired ≡ false
      → j.is_writing ≡ true
      → IsFull p s.mem es b
      → provider.get_page j.directory j.short_name j.service_idx (to_short (p.page_num + 1)) s
        ≡ ok (some q, s1)
      → Agree s1.mem s.mem p.buffer (p.buffer + journal_page_size)
      → IsFresh p q s1.mem
      → Releases p.buffer
      → (s3 : Sys os) × (load_next_page os provider (record j { cur_page = some (moved p es) }) s
          ≡ ok (record j { cur_page = some q }, s3))
        × IsClosed p s3.mem es b
        × IsFresh p q s3.mem
        × Agree s3.mem s1.mem q.buffer (q.buffer + journal_page_size)
  unfolding load_next_page
  load_next_page-closes p q s s1 es b live writing full given kept fresh releases =
      let at_b : (moved p es).frame ≡ b =
        omega (arith, IsLog-end s.mem es p.frame b full.log, frame-moved es p) in
      let position = position-moved es p (omega (arith, full.position_int)) in
      let frames = frame_num-moved es p full.frame_num_int in
      let (buffer, number) = buffer-moved es p in
      let below = IsLog-le s.mem es p.frame b full.log in
      let (t, s2, finished, closed, at_time, frames', last', outside) =
        finish_page_lem os (moved p es) s1 (omega (arith, at_b, buffer, full.header_before, below))
          (omega (arith, position, full.position_int))
          (omega (arith, frames, full.frame_num_int)) in
      let (s3, released, same) = releases s2 in
      let log : IsLog s3.mem p.frame es b =
        IsLog-Agree s.mem s3.mem es p.frame b
          (λ x lo hi. sym (
            ap (λ m. m x) same
            ∙ outside x (omega (arith, buffer, full.header_before)) (omega (arith, at_b))
            ∙ kept x (omega (arith, full.header_before)) (omega (arith, full.end_inside))))
          full.log in
      let new_kept : Agree s3.mem s1.mem q.buffer (q.buffer + journal_page_size) = λ x lo hi.
        ap (λ m. m x) same
        ∙ outside x (omega (arith, buffer, fresh.apart))
            (omega (arith, at_b, below, full.header_before, full.end_inside, fresh.apart)) in
      let first_raw : get_field status q.frame s3.mem ≡ 0 =
        get_field_cong status q.frame s3.mem s1.mem (λ x lo hi.
          new_kept x (omega (arith, fresh.first_behind)) (omega (arith, fresh.first_inside)))
        ∙ fresh.first_raw in
      (
        s3,
        ground (arith, live, writing, given, number, buffer, finished, released),
        record {
          log = log;
          ended =
              ap (get_field status b) same
              ∙ ap (λ x. get_field status x s2.mem) (sym at_b)
              ∙ closed;
          frames =
              ap (get_header frame_num p.buffer) same
              ∙ ap (λ x. get_header frame_num x s2.mem) (sym buffer)
              ∙ frames'
              ∙ frames;
          last =
              ap (get_header last_pos p.buffer) same
              ∙ ap (λ x. get_header last_pos x s2.mem) (sym buffer)
              ∙ last'
              ∙ position;
        },
        record {
          first_raw = first_raw;
          room = fresh.room;
          first_behind = fresh.first_behind;
          first_inside = fresh.first_inside;
          apart = fresh.apart;
          address_long = fresh.address_long;
        },
        new_kept,
      )
