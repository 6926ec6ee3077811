-- ===== src/Journal/Stores.antt =====
-- The stores of `write_frame_full` of journal/JournalWriter.cpp one byte at a time, in the order of the
-- program: what another process that maps the page can see of a frame that is being written.
pub mod Outcome
pub mod Behind
use option_hedge.Base.{
  ℕ, zero, suc, ◌+◌, ◌/◌, ◌%◌, ◌^◌, ◌<◌, ◌≡◌, refl, arith, Option, none, some, List, [], ◌∷◌, ◌++◌,
  length, if◌then◌else◌, ◌==◌, All, All-join, Bool-cases, inl, inr,
}
use native.Mathlib.Nat.{add-zero}
use option_hedge.Base.Text.{Text}
use option_hedge.Base.Memory.{Mem, set_byte, store, blit}
use option_hedge.Base.Word.{to_int, to_long, int_to_long}
use option_hedge.Journal.Frame.{
  Field, status, source, nano, length_field, msg_type, last_flag, req_id, extra_nano, err_id, width,
  offset, set_field, set_data, set_error_msg, set_error_data, padded, address_add,
  basic_frame_header_length, error_frame_header_length, error_msg_max_length,
}
use option_hedge.Journal.Frame.Data.{header_length}
use option_hedge.Journal.Log.{header_length-ge}
use option_hedge.Journal.Log.Append.{IsArgs, filled, publish_lem}
use option_hedge.Journal.Writer.{FrameArgs, fill_frame, publish_frame}

-- A byte's address and its new value.
abbrev pub Store : Type 0
Store = ℕ × ℕ

unfoldable pub run_stores : List Store → Mem → Mem
run_stores [] m = m
run_stores (w ∷ ws) m = run_stores ws (set_byte w.0 w.1 m)

unfoldable pub word_stores : ℕ → ℕ → ℕ → List Store
word_stores zero a v = []
word_stores (suc k) a v = (a, v % 256) ∷ word_stores k (suc a) (v / 256)

unfoldable pub copy_stores : ℕ → List ℕ → List Store
copy_stores a [] = []
copy_stores a (b ∷ bs) = (a, b) ∷ copy_stores (suc a) bs

unfoldable pub field_stores : Field → ℕ → ℕ → List Store
unfolding width offset word_stores
field_stores f frame v = word_stores (width f) (frame + offset f) v

unfoldable pub error_msg_stores : ℕ → Option Text → List Store
unfolding copy_stores
error_msg_stores frame none = []
error_msg_stores frame (some s) =
    copy_stores (address_add frame basic_frame_header_length) (padded error_msg_max_length s)

-- Frame::setErrorData
unfoldable pub error_data_stores : ℕ → ℕ → Option Text → List ℕ → List Store
unfolding field_stores copy_stores error_msg_stores
error_data_stores frame error_id error_msg bytes =
    if error_id == 0
    then field_stores err_id frame 0
      ++ copy_stores (address_add frame basic_frame_header_length) bytes
      ++ field_stores length_field frame (to_int (basic_frame_header_length + length bytes))
    else field_stores err_id frame error_id
      ++ error_msg_stores frame error_msg
      ++ copy_stores (address_add frame error_frame_header_length) bytes
      ++ field_stores length_field frame (to_int (error_frame_header_length + length bytes))

-- The address of the next header, from the length that was stored.
unfoldable pub next_address : ℕ → FrameArgs → ℕ
unfolding address_add
next_address frame a =
    address_add frame (int_to_long (to_int (header_length a.error_id + length a.bytes)))

-- All stores of a call but the last.
unfoldable pub body_stores : ℕ → FrameArgs → ℕ → List Store
unfolding field_stores error_data_stores next_address
body_stores frame a time =
    field_stores source frame a.source_arg
    ++ field_stores msg_type frame a.msg_type_arg
    ++ field_stores last_flag frame a.last_flag_arg
    ++ field_stores req_id frame a.request_id
    ++ error_data_stores frame a.error_id a.error_msg a.bytes
    ++ field_stores extra_nano frame a.extra_nano_arg
    ++ field_stores nano frame time
    ++ field_stores status (next_address frame a) 0

-- The last one marks the frame as written.
unfoldable pub frame_stores : ℕ → FrameArgs → ℕ → List Store
unfolding body_stores
frame_stores frame a time = body_stores frame a time ++ (frame, 1) ∷ []
