-- ===== src/Journal/Frame.antt =====
-- journal/FrameHeader.h and journal/Frame.hpp. A frame is the address of its packed header; the
-- fields lie at the offsets below, little-endian, and the data behind the header.
pub mod Fields
pub mod Data
use option_hedge.Base.{
  ℕ, suc, ◌+◌, ◌-◌, ◌%◌, ◌^◌, Bool, true, false, Option, none, some, List, [], ◌∷◌, if◌then◌else◌,
  ltb, ◌==◌, length,
}
use option_hedge.Base.Text.{Text}
use option_hedge.Base.Memory.{Mem, load, store, blit, bytes_at, set_byte}
use option_hedge.Base.Word.{to_int, to_long, int_to_long}

abbrev pub error_msg_max_length : ℕ
error_msg_max_length = 100

pub data FrameStatus : Type 0 where
  raw written page_end : FrameStatus

-- JOURNAL_FRAME_STATUS_*; the field is a byte.
unfoldable pub frame_status_code : FrameStatus → ℕ
frame_status_code raw = 0
frame_status_code written = 1
frame_status_code page_end = 2

-- The fields of `FrameHeader`, with the width and the offset of each in the packed struct.
pub data Field : Type 0 where
  status source nano length_field hash msg_type last_flag req_id extra_nano err_id : Field

unfoldable pub width : Field → ℕ
width status = 1
width source = 2
width nano = 8
width length_field = 4
width hash = 4
width msg_type = 2
width last_flag = 1
width req_id = 4
width extra_nano = 8
width err_id = 4

unfoldable pub offset : Field → ℕ
unfolding width
offset status = 0
offset source = 1
offset nano = 3
offset length_field = 11
offset hash = 15
offset msg_type = 19
offset last_flag = 21
offset req_id = 22
offset extra_nano = 26
offset err_id = 34

-- sizeof (FrameHeader)
abbrev pub basic_frame_header_length : ℕ
basic_frame_header_length = 38

abbrev pub error_frame_header_length : ℕ
error_frame_header_length = basic_frame_header_length + error_msg_max_length

-- `frame->field`, read and written.
unfoldable pub get_field : Field → ℕ → Mem → ℕ
unfolding width offset
get_field f frame m = load (width f) (frame + offset f) m

unfoldable pub set_field : Field → ℕ → ℕ → Mem → Mem
unfolding width offset
set_field f frame v m = store (width f) (frame + offset f) v m

-- ADDRESS_ADD (x, delta), with `delta` as a 64-bit pattern.
unfoldable pub address_add : ℕ → ℕ → ℕ
address_add x delta = to_long (x + delta)

abbrev pub get_status : ℕ → Mem → ℕ
get_status = get_field status

abbrev pub get_nano : ℕ → Mem → ℕ
get_nano = get_field nano

abbrev pub get_frame_length : ℕ → Mem → ℕ
get_frame_length = get_field length_field

abbrev pub get_error_id : ℕ → Mem → ℕ
get_error_id = get_field err_id

unfoldable pub get_header_length : ℕ → Mem → ℕ
get_header_length frame m =
    if get_error_id frame m == 0 then basic_frame_header_length else error_frame_header_length

-- int subtraction
unfoldable pub get_data_length : ℕ → Mem → ℕ
get_data_length frame m = to_int (get_frame_length frame m + 2 ^ 32 - get_header_length frame m)

-- The null pointer if there is no error.
unfoldable pub get_error_msg : ℕ → Mem → Option ℕ
get_error_msg frame m =
    if get_error_id frame m == 0 then none else some (address_add frame basic_frame_header_length)

unfoldable pub get_data : ℕ → Mem → ℕ
get_data frame m = address_add frame (int_to_long (get_header_length frame m))

-- The bytes up to the first NUL, of which at most `fuel` are looked at.
unfoldable pub c_string : ℕ → ℕ → Mem → Text
c_string ℕ.zero a m = []
c_string (suc fuel) a m = let rest = c_string fuel (suc a) m in if m a == 0 then [] else m a ∷ rest

unfoldable pub get_str : ℕ → ℕ → Mem → Text
get_str fuel frame m = c_string fuel (get_data frame m) m

-- getNextEntry: the length is an int, so it is widened with its sign.
unfoldable pub get_next_entry : ℕ → Mem → ℕ
get_next_entry frame m = address_add frame (int_to_long (get_frame_length frame m))

-- `strncpy (a, s, n)`: at most `n` bytes, and NULs up to `n`.
abbrev pub padded : ℕ → Text → List ℕ
padded ℕ.zero s = []
padded (suc n) [] = 0 ∷ padded n []
padded (suc n) (c ∷ s) = c ∷ padded n s

-- `data` stands for the bytes that the pointer and the length denote.
unfoldable pub set_data : ℕ → List ℕ → Mem → Mem
set_data frame bytes m =
    set_field length_field frame (to_int (basic_frame_header_length + length bytes))
      (blit (address_add frame basic_frame_header_length) bytes (set_field err_id frame 0 m))

abbrev pub set_error_msg : ℕ → Option Text → Mem → Mem
set_error_msg frame none m = m
set_error_msg frame (some s) m =
    blit (address_add frame basic_frame_header_length) (padded error_msg_max_length s) m

unfoldable pub set_error_data : ℕ → ℕ → Option Text → List ℕ → Mem → Mem
set_error_data frame error_id error_msg bytes m =
    if error_id == 0
    then set_data frame bytes m
    else set_field length_field frame (to_int (error_frame_header_length + length bytes)) (
        blit (address_add frame error_frame_header_length) bytes
          (set_error_msg frame error_msg (set_field err_id frame error_id m)))

unfoldable pub set_status : ℕ → FrameStatus → Mem → Mem
set_status frame s m = set_field status frame (frame_status_code s) m

-- The next header is marked raw before this one is published.
unfoldable pub set_status_written : ℕ → Mem → Mem
set_status_written frame m = set_status frame written (set_status (get_next_entry frame m) raw m)

unfoldable pub set_status_page_closed : ℕ → Mem → Mem
set_status_page_closed frame m = set_status frame page_end m

-- The length passed over, and the address of the next frame.
unfoldable pub next : ℕ → Mem → ℕ × ℕ
next frame m = (get_frame_length frame m, get_next_entry frame m)
