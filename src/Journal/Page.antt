-- ===== src/Journal/Page.antt =====
-- journal/PageHeader.h, journal/Page.h and journal/Page.cpp. A page is a cursor on the frames of one
-- mapped file, whose bytes are the process's memory from `buffer` on.
pub mod Header
pub mod Load
use option_hedge.Base.{
  ℕ, zero, suc, ◌+◌, Bool, true, false, ◌&&◌, Option, none, some, if◌then◌else◌, ◌==◌, not, ◌++◌,
  ◌∷◌, [],
}
use option_hedge.Base.Text.{Text}
use option_hedge.Base.Memory.{Mem, load, store, blit}
use option_hedge.Base.Word.{to_int, int_lt, short_lt, long_lt, minus_one_short, minus_one_long}
use option_hedge.Constants.{journal_page_size, page_min_headroom}
use option_hedge.Os.{Os, Sys, M, err, ◌>>=◌, ◌>>◌, pure, on_memory, page_version_mismatch}
use option_hedge.Timer.{get_nano_time}
use option_hedge.Journal.PageUtil.{load_page_buffer, gen_page_full_path}
use option_hedge.Journal.Frame.{
  FrameStatus, raw, written, page_end, frame_status_code, get_status, get_nano, next, address_add,
  set_status_page_closed,
}

-- The fields of `PageHeader` that the code uses, with the width and the offset of each in the packed
-- struct. `reserve_short` and `reserve_long` follow, up to 137 bytes.
pub data HeaderField : Type 0 where
  status journal_name page_num start_nano close_nano frame_num last_pos frame_version : HeaderField

unfoldable pub header_width : HeaderField → ℕ
header_width status = 1
header_width journal_name = 30
header_width page_num = 2
header_width start_nano = 8
header_width close_nano = 8
header_width frame_num = 4
header_width last_pos = 4
header_width frame_version = 2

unfoldable pub header_offset : HeaderField → ℕ
header_offset status = 0
header_offset journal_name = 1
header_offset page_num = 31
header_offset start_nano = 33
header_offset close_nano = 41
header_offset frame_num = 49
header_offset last_pos = 53
header_offset frame_version = 57

-- sizeof (PageHeader)
abbrev pub page_header_length : ℕ
page_header_length = 137

pub data PageStatus : Type 0 where
  page_raw page_inited : PageStatus

unfoldable pub page_status_code : PageStatus → ℕ
page_status_code page_raw = 0
page_status_code page_inited = 1

unfoldable pub get_header : HeaderField → ℕ → Mem → ℕ
get_header f buffer m = load (header_width f) (buffer + header_offset f) m

unfoldable pub set_header : HeaderField → ℕ → ℕ → Mem → Mem
set_header f buffer v m = store (header_width f) (buffer + header_offset f) v m

-- `__FRAME_HEADER_VERSION__`
abbrev pub frame_header_version : ℕ
frame_header_version = 2

abbrev pub page_init_position : ℕ
page_init_position = page_header_length

-- `frame` is the address that the `Frame` member holds.
pub record Page : Type 0 where
  pub frame : ℕ
  pub buffer : ℕ
  pub position : ℕ
  pub frame_num : ℕ
  pub page_num : ℕ

unfoldable pub new_page : ℕ → Page
new_page buffer = record {
  frame = address_add buffer page_init_position;
  buffer = buffer;
  position = page_init_position;
  frame_num = 0;
  page_num = minus_one_short;
}

abbrev pub get_cur_status : Page → Mem → ℕ
get_cur_status p m = get_status p.frame m

abbrev pub has_status : FrameStatus → Page → Mem → Bool
has_status s p m = get_cur_status p m == frame_status_code s

unfoldable pub is_at_page_end : Page → Mem → Bool
is_at_page_end p m = has_status page_end p m

unfoldable pub pass_frame : Page → Mem → Page
pass_frame p m =
    let (len, frame) = next p.frame m in
    record p {
      frame = frame;
      position = to_int (p.position + len);
      frame_num = to_int (p.frame_num + 1);
    }

-- `none` means that the fuel ran out.
unfoldable pub pass_written_frame : ℕ → Page → Mem → Option Page
pass_written_frame zero p m = none
pass_written_frame (suc fuel) p m =
    let rest = pass_written_frame fuel (pass_frame p m) m in
    if has_status written p m then rest else some p

unfoldable pub pass_to_time : ℕ → ℕ → Page → Mem → Option Page
pass_to_time zero time p m = none
pass_to_time (suc fuel) time p m =
    let rest = pass_to_time fuel time (pass_frame p m) m in
    if has_status written p m && long_lt (get_nano p.frame m) time then rest else some p

abbrev pub has_headroom : Page → Bool
has_headroom p = int_lt (to_int (p.position + page_min_headroom)) journal_page_size

-- The page after the frames are passed, and the address of its writable frame.
unfoldable pub locate_writable_frame : ℕ → Page → Mem → Option (Page × Option ℕ)
locate_writable_frame fuel p m = elim (pass_written_frame fuel p m) [
  | none ↦ none
  | some q ↦ some (q, if has_status raw q m && has_headroom q then some q.frame else none)
]

unfoldable pub locate_readable_frame : Page → Mem → Option ℕ
locate_readable_frame p m = if has_status written p m then some p.frame else none

-- What `Page::load` writes into the header of a raw page. The name is copied with its NUL.
unfoldable pub init_header : ℕ → Text → ℕ → ℕ → Mem → Mem
init_header buffer jname page_number nano m = set_header frame_version buffer frame_header_version (
    set_header status buffer (page_status_code page_inited) (
      set_header page_num buffer page_number (
        set_header close_nano buffer minus_one_long (
          set_header start_nano buffer nano
            (blit (buffer + header_offset journal_name) (jname ++ 0 ∷ []) m)))))

unfoldable pub close_header : Page → ℕ → Mem → Mem
close_header p nano m = set_status_page_closed p.frame (
    set_header last_pos p.buffer p.position
      (set_header frame_num p.buffer p.frame_num (set_header close_nano p.buffer nano m)))

-- The test of the branch that throws.
abbrev pub has_other_version : ℕ → Mem → Bool
has_other_version buffer m =
    short_lt 0 (get_header frame_version buffer m)
    && not (get_header frame_version buffer m == frame_header_version)

module _ (os : Os) where
  unfoldable pub finish_page : Page → M (Sys os) (Unit {0})
  finish_page p = do nano ← get_nano_time os; on_memory os (close_header p nano)

  loaded : ℕ → ℕ → M (Sys os) (Option Page)
  loaded buffer page_number = pure (some (record (new_page buffer) { page_num = page_number }))

  -- A raw page is no page to a reader, and a writer sets its header.
  load_raw : ℕ → Text → ℕ → Bool → M (Sys os) (Option Page)
  unfolding loaded
  load_raw buffer jname page_number false = pure none
  load_raw buffer jname page_number true = do
    nano ← get_nano_time os
    on_memory os (init_header buffer jname page_number nano)
    loaded buffer page_number

  -- The part of `Page::load` behind the test of the buffer.
  unfoldable pub load_mapped : ℕ → Text → ℕ → Bool → M (Sys os) (Option Page)
  unfolding loaded load_raw
  load_mapped buffer jname page_number is_writing s =
      if get_header status buffer s.mem == page_status_code page_raw
      then load_raw buffer jname page_number is_writing s
      else if has_other_version buffer s.mem
      then err (page_version_mismatch (get_header frame_version buffer s.mem))
      else loaded buffer page_number s

  when_mapped : Option ℕ → Text → ℕ → Bool → M (Sys os) (Option Page)
  unfolding load_mapped
  when_mapped none jname page_number is_writing = pure none
  when_mapped (some buffer) jname page_number is_writing =
      load_mapped buffer jname page_number is_writing

  unfoldable pub load_page : Text → Text → ℕ → Bool → Bool → M (Sys os) (Option Page)
  unfolding when_mapped
  load_page dir jname page_number is_writing quick_mode = do
    buffer ←
        load_page_buffer os (gen_page_full_path dir jname page_number) journal_page_size is_writing
          quick_mode
    when_mapped buffer jname page_number is_writing
