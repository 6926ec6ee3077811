-- ===== src/Journal/Cursor/Read.antt =====
-- The reader's side of journal/journal.h and journal/Frame.hpp: what a client gets that goes over a page
-- with `locateFrame`, the getters of Frame and `passFrame`.
use option_hedge.Base.{
  ℕ, zero, suc, ◌+◌, ◌<◌, ◌≡◌, refl, arith, List, [], ◌∷◌, length, Option, none, some, false, ap,
  ◌∙◌,
}
use option_hedge.Base.Memory.{Mem, bytes_at}
use option_hedge.Os.{Os, Sys, M, ok, err, out_of_fuel}
use option_hedge.Journal.Frame.{
  source, nano, msg_type, last_flag, req_id, extra_nano, status, get_field, get_error_id,
  get_header_length, get_data_length, get_data, address_add, frame_status_code,
}
use option_hedge.Journal.Frame.Data.{header_length}
use option_hedge.Journal.Log.{Entry, entry_length, Holds, IsLog}
use option_hedge.Journal.Log.ErrorText.{read_error_text}
use option_hedge.Journal.Log.Scan.{moved, pass_frame-Holds}
use option_hedge.Journal.Page.{Page, is_at_page_end, locate_readable_frame}
use option_hedge.Journal.Provider.{PageProvider}
use option_hedge.Journal.Cursor.{Journal, locate_frame, locate_readable, pass_journal_frame}

-- A frame as its getters give it.
unfoldable pub read_entry : ℕ → Mem → Entry
read_entry a m = record {
  source_of = get_field source a m;
  msg_type_of = get_field msg_type a m;
  last_flag_of = get_field last_flag a m;
  request_id_of = get_field req_id a m;
  nano_of = get_field nano a m;
  extra_nano_of = get_field extra_nano a m;
  error_id_of = get_error_id a m;
  bytes_of = bytes_at (get_data_length a m) (get_data a m) m;
}

get_header_length-Holds :
    (a : ℕ) (m : Mem) (e : Entry)
    → Holds m a e
    → get_header_length a m ≡ header_length e.error_id_of
unfolding get_header_length
get_header_length-Holds a m e h = rw h.has_error_id

get_data_length-Holds :
    (a : ℕ) (m : Mem) (e : Entry) → Holds m a e → get_data_length a m ≡ length e.bytes_of
unfolding get_data_length
get_data_length-Holds a m e h =
    omega (arith, get_header_length-Holds a m e h, h.has_length, h.length_int)

get_data-Holds :
    (a : ℕ) (m : Mem) (e : Entry) → Holds m a e → get_data a m ≡ a + header_length e.error_id_of
unfolding get_data address_add
get_data-Holds a m e h =
    ground (arith, get_header_length-Holds a m e h, h.length_int, h.address_long)

-- The getters of a frame that holds an entry give the entry back.
pub read_entry-Holds : (a : ℕ) (m : Mem) (e : Entry) → Holds m a e → read_entry a m ≡ e
unfolding read_entry
read_entry-Holds a m e h =
    rw
      (
        h.has_source,
        h.has_msg_type,
        h.has_last_flag,
        h.has_request_id,
        h.has_nano,
        h.has_extra_nano,
        h.has_error_id,
        get_data_length-Holds a m e h,
        get_data-Holds a m e h,
        h.has_bytes,
      )
      refl

-- A frame with its error text.
unfoldable pub read_frame : ℕ → Mem → Entry × Option (List ℕ)
unfolding read_entry read_error_text
read_frame a m = (read_entry a m, read_error_text a m)

-- The entries of a log that begins at `a`, with the error texts of their frames.
abbrev pub texts_at : Mem → ℕ → List Entry → List (Entry × Option (List ℕ))
texts_at m a [] = []
texts_at m a (e ∷ es) = (e, read_error_text a m) ∷ texts_at m (a + entry_length e) es

pub read_frame-Holds :
    (a : ℕ) (m : Mem) (e : Entry) → Holds m a e → read_frame a m ≡ (e, read_error_text a m)
unfolding read_frame
read_frame-Holds a m e h = ap (λ x. (x, read_error_text a m)) (read_entry-Holds a m e h)

module _ (os : Os) (provider : PageProvider os) where
  -- A client's loop: read frames until `locateFrame` answers the null pointer. The fuel is the number
  -- of calls of `locateFrame`.
  unfoldable pub read_frames :
      ℕ → ℕ → ℕ → Journal → M (Sys os) (List (Entry × Option (List ℕ)) × Journal)
  read_frames zero pages fuel j s = err out_of_fuel
  read_frames (suc calls) pages fuel j s = elim (locate_frame os provider pages fuel j s) [
    | err x ↦ err x
    | ok ((k, none), t) ↦ ok (([], k), t)
    | ok ((k, some frame), t) ↦ elim (pass_journal_frame os provider k t) [
      | err x ↦ err x
      | ok (l, u) ↦ elim (read_frames calls pages fuel l u) [
        | err x ↦ err x
        | ok ((es, o), v) ↦ ok ((read_frame frame t.mem ∷ es, o), v)
      ]
    ]
  ]

  pub locate_frame-Holds :
      (pages fuel : ℕ) (j : Journal) (p : Page) (e : Entry) (s : Sys os)
      → j.expired ≡ false
      → j.is_writing ≡ false
      → j.cur_page ≡ some p
      → Holds s.mem p.frame e
      → locate_frame os provider pages fuel j s ≡ ok ((j, some p.frame), s)
  unfolding locate_frame locate_readable is_at_page_end locate_readable_frame frame_status_code
  locate_frame-Holds pages fuel j p e s live reads at_p h = ground (arith, h.is_written)

  locate_frame-raw :
      (pages fuel : ℕ) (j : Journal) (p : Page) (s : Sys os)
      → j.expired ≡ false
      → j.is_writing ≡ false
      → j.cur_page ≡ some p
      → get_field status p.frame s.mem ≡ 0
      → locate_frame os provider pages fuel j s ≡ ok ((j, none), s)
  unfolding locate_frame locate_readable is_at_page_end locate_readable_frame frame_status_code
  locate_frame-raw pages fuel j p s live reads at_p h = ground (arith, h)

  -- A reader that goes over a page's log gets its entries, each with every field and byte and its error text, in their
  -- order, and then the null pointer; it ends behind the last frame, and changes nothing else. One
  -- call more than there are frames is enough.
  pub read_frames-IsLog :
      (calls pages fuel : ℕ) (j : Journal) (p : Page) (es : List Entry) (b : ℕ) (s : Sys os)
      → j.expired ≡ false
      → j.is_writing ≡ false
      → j.cur_page ≡ some p
      → IsLog s.mem p.frame es b
      → get_field status b s.mem ≡ 0
      → length es < calls
      → read_frames calls pages fuel j s
        ≡ ok ((texts_at s.mem p.frame es, record j { cur_page = some (moved p es) }), s)
  unfolding read_frames pass_journal_frame
  read_frames-IsLog zero pages fuel j p es b s live reads at_p l is_raw h = absurd (omega arith)
  read_frames-IsLog (suc calls) pages fuel j p [] b s live reads at_p l is_raw h =
      let at_end : get_field status p.frame s.mem ≡ 0 =
        ap (λ x. get_field status x s.mem) l ∙ is_raw in
      ground (arith, locate_frame-raw pages fuel j p s live reads at_p at_end, at_p)
  read_frames-IsLog (suc calls) pages fuel j p (e ∷ es) b s live reads at_p l is_raw h =
      let rest =
        read_frames-IsLog calls pages fuel (record j { cur_page = some (moved p (e ∷ [])) })
          (moved p (e ∷ [])) es b s live reads refl l.1 is_raw (omega arith) in
      ground (
        arith,
        locate_frame-Holds pages fuel j p e s live reads at_p l.0,
        at_p,
        pass_frame-Holds p s.mem e l.0,
        read_frame-Holds p.frame s.mem e l.0,
        rest,
      )
