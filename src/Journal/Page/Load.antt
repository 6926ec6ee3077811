-- ===== src/Journal/Page/Load.antt =====
-- `Page::load` of journal/Page.cpp, on a file that is mapped: a writer's new page.
use option_hedge.Base.{
  ℕ, ◌+◌, ◌^◌, ◌<◌, ◌≤◌, ◌≡◌, ap, ◌∙◌, sym, arith, [], ◌∷◌, ◌++◌, length, length-append, Bool, true,
  some,
}
use option_hedge.Base.Text.{Text}
use option_hedge.Base.Memory.{
  Mem, IsOutside, bytes_at, bytes_at-blit_self, bytes_at_cong, blit, blit-outside, store-outside,
}
use option_hedge.Base.Word.{minus_one_long}
use option_hedge.Constants.{journal_page_size}
use option_hedge.Os.{Os, Sys, ok}
use option_hedge.Timer.Clock.{get_nano_time_total}
use option_hedge.Journal.PageUtil.{load_page_buffer, gen_page_full_path}
use option_hedge.Journal.Page.{
  HeaderField, status, page_num, start_nano, close_nano, frame_version, header_width, header_offset,
  get_header, set_header, init_header, new_page, load_page, load_mapped, page_header_length,
  page_status_code,
}
use option_hedge.Journal.Page.Header.{
  get_header_cong, get_header-set_header_self, get_header-set_header_ne,
}

-- The fields of a page's header that `load` sets, and the journal's name with its NUL.
pub record IsInited (m : Mem) (buffer : ℕ) (jname : Text) (number nano : ℕ) : Type 0 where
  pub has_status : get_header status buffer m ≡ 1
  pub has_page_num : get_header page_num buffer m ≡ number
  pub has_start : get_header start_nano buffer m ≡ nano
  pub has_close : get_header close_nano buffer m ≡ minus_one_long
  pub has_version : get_header frame_version buffer m ≡ 2
  pub has_name : bytes_at (length jname + 1) (buffer + 1) m ≡ jname ++ 0 ∷ []

pub IsInited-Agree :
    (m m' : Mem) (buffer : ℕ) (jname : Text) (number nano : ℕ)
    → length jname < 30
    → ((x : ℕ) → buffer ≤ x → x < buffer + page_header_length → m' x ≡ m x)
    → IsInited m buffer jname number nano
    → IsInited m' buffer jname number nano
IsInited-Agree m m' buffer jname number nano fits same h =
    let field : (f : HeaderField) → get_header f buffer m' ≡ get_header f buffer m =
      λ f. get_header_cong f buffer m' m same in
    record {
      has_status = field status ∙ h.has_status;
      has_page_num = field page_num ∙ h.has_page_num;
      has_start = field start_nano ∙ h.has_start;
      has_close = field close_nano ∙ h.has_close;
      has_version = field frame_version ∙ h.has_version;
      has_name =
          bytes_at_cong (length jname + 1) (buffer + 1) m' m
            (λ x lo hi. same x (omega arith) (omega arith))
          ∙ h.has_name;
    }

-- Behind the status and the name, what is set lies in one stretch of the header.
init_header-blit :
    (buffer : ℕ) (jname : Text) (number nano : ℕ) (m : Mem) (x : ℕ)
    → IsOutside x buffer 1
    → IsOutside x (buffer + 31) 28
    → init_header buffer jname number nano m x ≡ blit (buffer + 1) (jname ++ 0 ∷ []) m x
unfolding init_header set_header header_width header_offset page_status_code
init_header-blit buffer jname number nano m x first rest =
    store-outside 2 (buffer + 57) 2 _ x (omega arith)
    ∙ store-outside 1 (buffer + 0) 1 _ x (omega arith)
    ∙ store-outside 2 (buffer + 31) number _ x (omega arith)
    ∙ store-outside 8 (buffer + 41) minus_one_long _ x (omega arith)
    ∙ store-outside 8 (buffer + 33) nano _ x (omega arith)

init_header-outside :
    (buffer : ℕ) (jname : Text) (number nano : ℕ) (m : Mem) (x : ℕ)
    → length jname < 30
    → IsOutside x buffer page_header_length
    → init_header buffer jname number nano m x ≡ m x
init_header-outside buffer jname number nano m x fits o =
    init_header-blit buffer jname number nano m x (omega arith) (omega arith)
    ∙ blit-outside (buffer + 1) (jname ++ 0 ∷ []) m x
        (omega (arith, length-append jname (0 ∷ []), o))

init_header-name :
    (buffer : ℕ) (jname : Text) (number nano : ℕ) (m : Mem)
    → length jname < 30
    → bytes_at (length jname + 1) (buffer + 1) (init_header buffer jname number nano m)
      ≡ jname ++ 0 ∷ []
init_header-name buffer jname number nano m fits =
    bytes_at_cong (length jname + 1) (buffer + 1) (init_header buffer jname number nano m)
      (blit (buffer + 1) (jname ++ 0 ∷ []) m)
      (λ x l u. init_header-blit buffer jname number nano m x (omega arith) (omega arith))
    ∙ ap (λ n. bytes_at n (buffer + 1) (blit (buffer + 1) (jname ++ 0 ∷ []) m))
        (sym (length-append jname (0 ∷ [])))
    ∙ bytes_at-blit_self (buffer + 1) (jname ++ 0 ∷ []) m

init_header-IsInited :
    (buffer : ℕ) (jname : Text) (number nano : ℕ) (m : Mem)
    → length jname < 30
    → number < 2 ^ 16
    → nano < 2 ^ 64
    → IsInited (init_header buffer jname number nano m) buffer jname number nano
unfolding init_header header_width page_status_code
init_header-IsInited buffer jname number nano m name_fits number_short nano_long = record {
  has_status =
      get_header-set_header_ne frame_version status buffer 2 _ (λ e. cc e)
      ∙ get_header-set_header_self status buffer 1 _ (omega arith);
  has_page_num =
      get_header-set_header_ne frame_version page_num buffer 2 _ (λ e. cc e)
      ∙ get_header-set_header_ne status page_num buffer 1 _ (λ e. cc e)
      ∙ get_header-set_header_self page_num buffer number _ (omega arith);
  has_start =
      get_header-set_header_ne frame_version start_nano buffer 2 _ (λ e. cc e)
      ∙ get_header-set_header_ne status start_nano buffer 1 _ (λ e. cc e)
      ∙ get_header-set_header_ne page_num start_nano buffer number _ (λ e. cc e)
      ∙ get_header-set_header_ne close_nano start_nano buffer minus_one_long _ (λ e. cc e)
      ∙ get_header-set_header_self start_nano buffer nano _ (omega arith);
  has_close =
      get_header-set_header_ne frame_version close_nano buffer 2 _ (λ e. cc e)
      ∙ get_header-set_header_ne status close_nano buffer 1 _ (λ e. cc e)
      ∙ get_header-set_header_ne page_num close_nano buffer number _ (λ e. cc e)
      ∙ get_header-set_header_self close_nano buffer minus_one_long _ (omega arith);
  has_version = get_header-set_header_self frame_version buffer 2 _ (omega arith);
  has_name = init_header-name buffer jname number nano m name_fits;
}

-- A writer that loads a page whose file is new gets a page that stands on its first frame. Its header
-- tells that it is set up, the journal, the number of the page, and the time at which it was made; it
-- has no closing time. No byte behind the header is touched. It is so where the file is mapped and the
-- journal's name fits the header.
pub load_page-new :
    (os : Os) (dir jname : Text) (number : ℕ) (quick_mode : Bool) (buffer : ℕ) (s s1 : Sys os)
    → load_page_buffer os (gen_page_full_path dir jname number) journal_page_size true quick_mode s
      ≡ ok (some buffer, s1)
    → get_header status buffer s1.mem ≡ 0
    → length jname < 30
    → number < 2 ^ 16
    → (t : ℕ) × (s2 : Sys os) × (load_page os dir jname number true quick_mode s
        ≡ ok (some (record (new_page buffer) { page_num = number }), s2))
      × IsInited s2.mem buffer jname number t
      × ((x : ℕ) → IsOutside x buffer page_header_length → s2.mem x ≡ s1.mem x)
unfolding load_page load_mapped page_status_code
load_page-new os dir jname number quick_mode buffer s s1 mapped is_raw fits short =
    let (t, s2, clock, same, t_long) = get_nano_time_total os s1 in
    (
      t,
      record s2 { mem = init_header buffer jname number t s2.mem },
      ground (arith, mapped, is_raw, clock),
      init_header-IsInited buffer jname number t s2.mem fits short t_long,
      λ x o. init_header-outside buffer jname number t s2.mem x fits o ∙ ap (λ m. m x) same,
    )

-- A page that is set up with this version of the frame's header is loaded, by a reader or a writer, at
-- its first frame, and its file is left alone.
pub load_page-again :
    (os : Os) (dir jname : Text) (number : ℕ) (is_writing quick_mode : Bool) (buffer : ℕ)
    → (s s1 : Sys os)
    → load_page_buffer os
        (gen_page_full_path dir jname number)
        journal_page_size
        is_writing
        quick_mode
        s
      ≡ ok (some buffer, s1)
    → get_header status buffer s1.mem ≡ 1
    → get_header frame_version buffer s1.mem ≡ 2
    → load_page os dir jname number is_writing quick_mode s
      ≡ ok (some (record (new_page buffer) { page_num = number }), s1)
unfolding load_page load_mapped page_status_code
load_page-again os dir jname number is_writing quick_mode buffer s s1 mapped inited version =
    ground (arith, mapped, inited, version)
