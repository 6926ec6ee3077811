-- ===== src/Journal/Cursor.antt =====
-- journal/journal.h and journal/journal.cpp: a journal, as a cursor over its pages. The page provider
-- is the section's parameter; the fuel bounds the frames that one call passes over.
pub mod Read
pub mod Seek
pub mod Follow
use option_hedge.Base.{
  ℕ, zero, suc, ◌+◌, Bool, true, false, Option, none, some, List, [], ◌∷◌, if◌then◌else◌, ◌==◌,
}
use option_hedge.Base.Text.{Text}
use option_hedge.Base.Memory.{Mem}
use option_hedge.Base.Word.{to_short, minus_one_short}
use option_hedge.Constants.{journal_page_size, time_from_first, time_to_last}
use option_hedge.Os.{
  Os, Sys, M, ok, err, ◌>>=◌, ◌>>◌, pure, fail, get, when, null_pointer, missing_return,
  out_of_fuel,
}
use option_hedge.Journal.PageUtil.{get_page_nums, get_page_num_with_time}
use option_hedge.Journal.Page.{
  Page, pass_frame, pass_written_frame, pass_to_time, locate_writable_frame, locate_readable_frame,
  is_at_page_end, finish_page,
}
use option_hedge.Journal.Provider.{PageProvider}

pub record Journal : Type 0 where
  pub directory : Text
  pub short_name : Text
  pub service_idx : ℕ
  pub is_writing : Bool
  pub expired : Bool
  pub cur_page : Option Page

abbrev pub first_or : ℕ → List ℕ → ℕ
first_or d [] = d
first_or d (n ∷ ns) = n

abbrev pub last_or : ℕ → List ℕ → ℕ
last_or d [] = d
last_or d (n ∷ ns) = last_or n ns

module _ (os : Os) (provider : PageProvider os) where
  unfoldable pub create_journal : Text → Text → ℕ → Journal
  create_journal dir jname service_idx = record {
    directory = dir;
    short_name = jname;
    service_idx = service_idx;
    is_writing = provider.is_writer;
    expired = false;
    cur_page = none;
  }

  abbrev pub get_page_of : Journal → ℕ → M (Sys os) (Option Page)
  get_page_of j n = provider.get_page j.directory j.short_name j.service_idx n

  abbrev pub release_cur_page : Journal → Option Page → M (Sys os) (Unit {0})
  release_cur_page j none = pure tt
  release_cur_page j (some p) = provider.release_page p.buffer journal_page_size j.service_idx

  load_next : Journal → Option Page → M (Sys os) Journal
  load_next j none = do page ← get_page_of j 1; pure (record j { cur_page = page })
  load_next j (some p) = do
    new_page ← get_page_of j (to_short (p.page_num + 1))
    when j.is_writing (finish_page os p)
    release_cur_page j (some p)
    pure (record j { cur_page = new_page })

  unfoldable pub load_next_page : Journal → M (Sys os) Journal
  unfolding load_next
  load_next_page j = if j.expired then pure j else load_next j j.cur_page

  -- Passing frames on the current page, if there is one.
  abbrev pub advance : (Page → Mem → Option Page) → Journal → Option Page → M (Sys os) Journal
  advance pass j none s = ok (record j { cur_page = none }, s)
  advance pass j (some p) s = elim (pass p s.mem) [
    | none ↦ err out_of_fuel
    | some q ↦ ok (record j { cur_page = some q }, s)
  ]

  abbrev pub mark_expired : Journal → Journal
  mark_expired j = record j { expired = elim j.cur_page [ none ↦ true | some p ↦ false ] }

  module _ (matches : Text → Text → Bool) (fuel : ℕ) where
    seek_last : Journal → M (Sys os) Journal
    seek_last j = do
      nums ← get_page_nums os matches j.directory j.short_name
      page ← get_page_of j (last_or 1 nums)
      advance (pass_written_frame fuel) j page

    seek_first : Journal → M (Sys os) Journal
    seek_first j = do
      nums ← get_page_nums os matches j.directory j.short_name
      page ← get_page_of j (first_or 1 nums)
      pure (record j { cur_page = page })

    seek_nano : ℕ → Journal → M (Sys os) Journal
    seek_nano time j = do
      num ← get_page_num_with_time os matches j.directory j.short_name time
      page ← get_page_of j num
      advance (pass_to_time fuel time) j page

    unfoldable pub seek_time : ℕ → Journal → M (Sys os) Journal
    unfolding seek_last seek_first seek_nano
    seek_time time j = do
      release_cur_page j j.cur_page
      moved ←
          if time == time_to_last
          then seek_last j
          else if time == time_from_first
          then seek_first j
          else seek_nano time j
      pure (mark_expired moved)

  set_page : Journal → Page → Journal
  set_page j p = record j { cur_page = some p }

  -- `curPage->locateWritableFrame ()`, which a journal without a page cannot call.
  unfoldable pub locate_on_page : ℕ → Journal → M (Sys os) (Journal × Option ℕ)
  locate_on_page fuel j s = elim j.cur_page [
    | none ↦ err null_pointer
    | some p ↦ elim (locate_writable_frame fuel p s.mem) [
      | none ↦ err out_of_fuel
      | some (q, frame) ↦ ok ((record j { cur_page = some q }, frame), s)
    ]
  ]

  -- `while (frame == nullptr) { loadNextPage (); frame = ...; }`, with the number of pages tried.
  unfoldable pub locate_writable : ℕ → ℕ → Journal → M (Sys os) (Journal × ℕ)
  unfolding locate_on_page
  locate_writable zero fuel j s = err out_of_fuel
  locate_writable (suc pages) fuel j s = elim (locate_on_page fuel j s) [
    | err e ↦ err e
    | ok ((k, some frame), t) ↦ ok ((k, frame), t)
    | ok ((k, none), t) ↦ elim (load_next_page k t) [
      | err e ↦ err e
      | ok (l, u) ↦ locate_writable pages fuel l u
    ]
  ]

  at_page_end : Option Page → Mem → Bool
  at_page_end none m = true
  at_page_end (some p) m = is_at_page_end p m

  -- The reader's branch. Where there is still no page the function ends without a return statement.
  unfoldable pub locate_readable : Journal → M (Sys os) (Journal × Option ℕ)
  unfolding at_page_end
  locate_readable j = do
    s ← get
    k ← if at_page_end j.cur_page s.mem then load_next_page j else pure j
    t ← get
    elim k.cur_page [
      | none ↦ fail missing_return
      | some p ↦ pure (k, locate_readable_frame p t.mem)
    ]

  unfoldable pub locate_frame : ℕ → ℕ → Journal → M (Sys os) (Journal × Option ℕ)
  locate_frame pages fuel j =
      if j.expired
      then pure (j, none)
      else if j.is_writing
      then (locate_writable pages fuel j >>= λ r. pure (r.0, some r.1))
      else locate_readable j

  unfoldable pub pass_journal_frame : Journal → M (Sys os) Journal
  pass_journal_frame j s = elim j.cur_page [
    | none ↦ err null_pointer
    | some p ↦ ok (record j { cur_page = some (pass_frame p s.mem) }, s)
  ]

  unfoldable pub get_cur_page_num : Journal → M (Sys os) ℕ
  get_cur_page_num j = elim j.cur_page [ none ↦ fail null_pointer | some p ↦ pure p.page_num ]

  -- The page number -1 tells the page engine that the journal is done with its page.
  unfoldable pub expire : Journal → M (Sys os) Journal
  expire j =
      if j.expired
      then pure j
      else release_cur_page j j.cur_page >>= λ _.
          get_page_of j minus_one_short >>= λ _. pure (record j { expired = true; cur_page = none })
