-- ===== src/Journal/Stores/Behind.antt =====
-- Where the stores of a frame go: journal/JournalWriter.cpp marks the frame last.
use option_hedge.Base.{
  ℕ, zero, suc, ◌+◌, ◌/◌, ◌^◌, ◌<◌, arith, Option, none, some, List, [], ◌∷◌, ◌++◌, length, ◌==◌,
  All, All-join, Bool-cases, inl, inr,
}
use option_hedge.Base.Text.{Text}
use option_hedge.Base.Word.{to_int, to_long}
use option_hedge.Journal.Frame.{
  Field, source, nano, length_field, msg_type, last_flag, req_id, extra_nano, err_id, width, offset,
  padded, address_add, basic_frame_header_length, error_frame_header_length, error_msg_max_length,
}
use option_hedge.Journal.Log.{header_length-ge}
use option_hedge.Journal.Log.Append.{IsArgs}
use option_hedge.Journal.Writer.{FrameArgs}
use option_hedge.Journal.Stores.{
  Store, word_stores, copy_stores, field_stores, error_msg_stores, error_data_stores, next_address,
  body_stores,
}
use option_hedge.Journal.Stores.Outcome.{next_address-eq}

-- Stores that all lie behind an address.
pub record AreBehind (b : ℕ) (ws : List Store) : Type 0 where
  pub each : All (λ w. b < w.0) ws

join : {b : ℕ} {vs ws : List Store} → AreBehind b vs → AreBehind b ws → AreBehind b (vs ++ ws)
join {b} {vs} {ws} h k = record { each = All-join (λ w. b < w.0) vs ws h.each k.each }

word_stores-AreBehind : (b k a v : ℕ) → b < a → AreBehind b (word_stores k a v)
unfolding word_stores
word_stores-AreBehind b zero a v h = record { each = tt }
word_stores-AreBehind b (suc k) a v h = record {
  each = (h, (word_stores-AreBehind b k (suc a) (v / 256) (omega arith)).each);
}

copy_stores-AreBehind : (b a : ℕ) (bs : List ℕ) → b < a → AreBehind b (copy_stores a bs)
unfolding copy_stores
copy_stores-AreBehind b a [] h = record { each = tt }
copy_stores-AreBehind b a (x ∷ bs) h = record {
  each = (h, (copy_stores-AreBehind b (suc a) bs (omega arith)).each);
}

module _ (b : ℕ) (fits : b + 2 ^ 32 < 2 ^ 64) where
  field_stores-AreBehind : (f : Field) (v : ℕ) → 0 < offset f → AreBehind b (field_stores f b v)
  unfolding field_stores
  field_stores-AreBehind f v h = word_stores-AreBehind b (width f) (b + offset f) v (omega arith)

  -- What is copied behind a header of `h` bytes.
  data_stores-AreBehind :
      (h : ℕ) (bytes : List ℕ)
      → h < 2 ^ 32
      → 0 < h
      → AreBehind b (copy_stores (address_add b h) bytes)
  unfolding address_add
  data_stores-AreBehind h bytes small behind =
      copy_stores-AreBehind b (to_long (b + h)) bytes (omega arith)

  error_msg_stores-AreBehind :
      (error_msg : Option Text) → AreBehind b (error_msg_stores b error_msg)
  unfolding error_msg_stores
  error_msg_stores-AreBehind none = record { each = tt }
  error_msg_stores-AreBehind (some s) =
      data_stores-AreBehind basic_frame_header_length (padded error_msg_max_length s) (omega arith)
        (omega arith)

  error_data_stores-AreBehind :
      (error_id : ℕ) (error_msg : Option Text) (bytes : List ℕ)
      → AreBehind b (error_data_stores b error_id error_msg bytes)
  unfolding error_data_stores offset
  error_data_stores-AreBehind error_id error_msg bytes =
      let err = λ (v : ℕ). field_stores-AreBehind err_id v (omega arith) in
      let len = λ (v : ℕ). field_stores-AreBehind length_field v (omega arith) in
      elim (Bool-cases (error_id == 0)) [
        | inl z ↦ rw z (
            join
              (join (err 0)
                (data_stores-AreBehind basic_frame_header_length bytes (omega arith) (omega arith)))
              (len (to_int (basic_frame_header_length + length bytes))))
        | inr e ↦ rw e (
            join
              (join (join (err error_id) (error_msg_stores-AreBehind error_msg))
                (data_stores-AreBehind error_frame_header_length bytes (omega arith) (omega arith)))
              (len (to_int (error_frame_header_length + length bytes))))
      ]

  -- No store but the last is at the frame's status or in front of it.
  pub body_stores-AreBehind :
      (a : FrameArgs) (time : ℕ) → IsArgs a → AreBehind b (body_stores b a time)
  unfolding body_stores offset field_stores
  body_stores-AreBehind a time args =
      let field = field_stores-AreBehind in
      let next =
        word_stores-AreBehind b 1 (next_address b a + 0) 0
          (omega (arith, next_address-eq b a args fits, header_length-ge a.error_id)) in
      let ids =
        join (field source a.source_arg (omega arith))
          (field msg_type a.msg_type_arg (omega arith)) in
      let flags = join ids (field last_flag a.last_flag_arg (omega arith)) in
      let request = join flags (field req_id a.request_id (omega arith)) in
      let body = join request (error_data_stores-AreBehind a.error_id a.error_msg a.bytes) in
      let extra = join body (field extra_nano a.extra_nano_arg (omega arith)) in
      join (join extra (field nano time (omega arith))) next
