-- ===== src/Journal/Page/Header.antt =====
-- `PageHeader` of journal/PageHeader.h: the fields of the header do not overlap, and lie in front of the
-- page's frames.
use option_hedge.Base.{ℕ, ◌+◌, ◌<◌, ◌≤◌, ◌≡◌, ◌≢◌, arith}
use option_hedge.Base.Memory.{Mem, IsApart, span, load-store_self, load-store_apart, load_cong}
use option_hedge.Journal.Frame.{status, set_field, width, offset}
use option_hedge.Journal.Page.{
  HeaderField, header_width, header_offset, get_header, set_header, page_header_length,
}

-- A field lies within the header.
pub header_within : (f : HeaderField) → header_offset f + header_width f ≤ page_header_length
unfolding header_offset header_width
header_within HeaderField.status = omega arith
header_within _ = omega arith

-- A header's field depends on the header's bytes alone.
pub get_header_cong :
    (f : HeaderField) (a : ℕ) (m m' : Mem)
    → ((x : ℕ) → a ≤ x → x < a + page_header_length → m x ≡ m' x)
    → get_header f a m ≡ get_header f a m'
unfolding get_header
get_header_cong f a m m' h =
    load_cong (header_width f) (a + header_offset f) m m'
      (λ x l u. h x (omega arith) (omega (arith, header_within f)))

headers-IsApart :
    (f g : HeaderField) (a : ℕ)
    → g ≢ f
    → IsApart (a + header_offset g) (header_width g) (a + header_offset f) (header_width f)
unfolding header_offset header_width
headers-IsApart f g a h = ground arith

pub get_header-set_header_self :
    (f : HeaderField) (a v : ℕ) (m : Mem)
    → v < span (header_width f)
    → get_header f a (set_header f a v m) ≡ v
unfolding get_header set_header
get_header-set_header_self f a v m h = load-store_self (header_width f) (a + header_offset f) v m h

pub get_header-set_header_ne :
    (f g : HeaderField) (a v : ℕ) (m : Mem)
    → g ≢ f
    → get_header g a (set_header f a v m) ≡ get_header g a m
unfolding get_header set_header
get_header-set_header_ne f g a v m h =
    load-store_apart (header_width g) (a + header_offset g) (header_width f) (a + header_offset f) v
      m (headers-IsApart f g a h)

-- A header's field reads through a frame's status, which lies behind the header.
pub get_header-set_status :
    (f : HeaderField) (a frame v : ℕ) (m : Mem)
    → a + page_header_length ≤ frame
    → get_header f a (set_field status frame v m) ≡ get_header f a m
unfolding get_header set_field width offset
get_header-set_status f a frame v m h =
    load-store_apart (header_width f) (a + header_offset f) 1 (frame + 0) v m
      (omega (arith, header_within f))
