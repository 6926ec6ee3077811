-- ===== src/Journal/Log/Close.antt =====
-- `finishPage` of journal/Page.cpp: a page is closed behind its last frame.
use option_hedge.Base.{ℕ, ◌+◌, ◌^◌, ◌<◌, ◌≤◌, ◌≡◌, ap, ◌∙◌, arith}
use option_hedge.Base.Memory.{Mem, IsOutside, store-outside}
use option_hedge.Os.{Os, Sys, ok}
use option_hedge.Timer.Clock.{get_nano_time_total}
use option_hedge.Journal.Frame.{
  status, get_field, set_status, set_status_page_closed, frame_status_code, width,
}
use option_hedge.Journal.Frame.Fields.{get_field-set_field_self}
use option_hedge.Journal.Log.Append.{set_status-outside}
use option_hedge.Journal.Page.{
  Page, close_nano, frame_num, last_pos, header_width, header_offset, get_header, set_header,
  close_header, finish_page, page_header_length,
}
use option_hedge.Journal.Page.Header.{
  get_header-set_header_self, get_header-set_header_ne, get_header-set_status,
}

-- The three numbers that closing writes lie in one stretch of the page's header.
close_header-outside :
    (p : Page) (nano : ℕ) (m : Mem) (x : ℕ)
    → IsOutside x (p.buffer + 41) 16
    → IsOutside x p.frame 1
    → close_header p nano m x ≡ m x
unfolding close_header set_status_page_closed set_status frame_status_code set_header header_width
    header_offset
close_header-outside p nano m x o at =
    set_status-outside p.frame 2 _ x at
    ∙ store-outside 4 (p.buffer + 53) p.position _ x (omega arith)
    ∙ store-outside 4 (p.buffer + 49) p.frame_num _ x (omega arith)
    ∙ store-outside 8 (p.buffer + 41) nano m x (omega arith)

get_header-close_header :
    (p : Page) (nano : ℕ) (m : Mem)
    → p.buffer + page_header_length ≤ p.frame
    → nano < 2 ^ 64
    → p.position < 2 ^ 32
    → p.frame_num < 2 ^ 32
    → (get_field status p.frame (close_header p nano m) ≡ 2)
      × (get_header close_nano p.buffer (close_header p nano m) ≡ nano)
      × (get_header frame_num p.buffer (close_header p nano m) ≡ p.frame_num)
      × (get_header last_pos p.buffer (close_header p nano m) ≡ p.position)
unfolding close_header set_status_page_closed set_status frame_status_code width header_width
get_header-close_header p nano m behind t_long at_int num_int = (
  get_field-set_field_self status p.frame 2 _ (omega arith),
  get_header-set_status close_nano p.buffer p.frame 2 _ behind
      ∙ get_header-set_header_ne last_pos close_nano p.buffer p.position _ (λ e. cc e)
      ∙ get_header-set_header_ne frame_num close_nano p.buffer p.frame_num _ (λ e. cc e)
      ∙ get_header-set_header_self close_nano p.buffer nano m (omega arith),
  get_header-set_status frame_num p.buffer p.frame 2 _ behind
      ∙ get_header-set_header_ne last_pos frame_num p.buffer p.position _ (λ e. cc e)
      ∙ get_header-set_header_self frame_num p.buffer p.frame_num _ (omega arith),
  get_header-set_status last_pos p.buffer p.frame 2 _ behind
      ∙ get_header-set_header_self last_pos p.buffer p.position _ (omega arith),
)

-- `finishPage` always returns: it stamps the page's header with the time, the number of frames and the
-- last position, and marks the frame at the cursor as the page's end. The log before the cursor is as
-- it was, and so is every byte outside the page's header and that mark.
pub finish_page_lem :
    (os : Os) (p : Page) (s : Sys os)
    → p.buffer + page_header_length ≤ p.frame
    → p.position < 2 ^ 32
    → p.frame_num < 2 ^ 32
    → (t : ℕ) × (s' : Sys os) × (finish_page os p s ≡ ok (tt, s'))
      × (get_field status p.frame s'.mem ≡ 2)
      × (get_header close_nano p.buffer s'.mem ≡ t)
      × (get_header frame_num p.buffer s'.mem ≡ p.frame_num)
      × (get_header last_pos p.buffer s'.mem ≡ p.position)
      × ((x : ℕ)
          → IsOutside x p.buffer page_header_length
          → IsOutside x p.frame 1
          → s'.mem x ≡ s.mem x)
unfolding finish_page
finish_page_lem os p s behind at_int num_int =
    let (t, s2, clock, same, t_long) = get_nano_time_total os s in
    let (closed, at_time, frames, last) =
      get_header-close_header p t s2.mem behind t_long at_int num_int in
    (
      t,
      record s2 { mem = close_header p t s2.mem },
      ground (arith, clock),
      closed,
      at_time,
      frames,
      last,
      λ x o at. close_header-outside p t s2.mem x (omega arith) at ∙ ap (λ m. m x) same,
    )
