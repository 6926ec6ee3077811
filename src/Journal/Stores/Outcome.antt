-- ===== src/Journal/Stores/Outcome.antt =====
-- The stores of a frame, one byte at a time, leave the memory that journal/JournalWriter.cpp leaves.
use option_hedge.Base.{
  ℕ, zero, suc, ◌+◌, ◌/◌, ◌%◌, ◌^◌, ◌<◌, ◌≡◌, refl, arith, Option, none, some, List, [], ◌∷◌, ◌++◌,
  length, ◌==◌, Bool-cases, inl, inr,
}
use native.Mathlib.Nat.{add-zero}
use option_hedge.Base.Text.{Text}
use option_hedge.Base.Memory.{Mem, set_byte, store, blit}
use option_hedge.Journal.Frame.{
  Field, status, source, nano, length_field, msg_type, last_flag, req_id, extra_nano, err_id, width,
  offset, set_field, set_data, set_error_msg, set_error_data, padded, address_add,
  basic_frame_header_length, error_msg_max_length,
}
use option_hedge.Journal.Frame.Data.{header_length}
use option_hedge.Journal.Log.Append.{IsArgs, filled, publish_lem}
use option_hedge.Journal.Writer.{FrameArgs, fill_frame, publish_frame}
use option_hedge.Journal.Stores.{
  Store, run_stores, word_stores, copy_stores, field_stores, error_msg_stores, error_data_stores,
  next_address, body_stores, frame_stores,
}

pub frame_stores-body :
    (b : ℕ) (a : FrameArgs) (time : ℕ) → frame_stores b a time ≡ body_stores b a time ++ (b, 1) ∷ []
unfolding frame_stores
frame_stores-body b a time = refl

pub run_stores-append :
    (vs ws : List Store) (m : Mem) → run_stores (vs ++ ws) m ≡ run_stores ws (run_stores vs m)
unfolding run_stores
run_stores-append [] ws m = refl
run_stores-append (v ∷ vs) ws m = run_stores-append vs ws (set_byte v.0 v.1 m)

run_stores-word : (k a v : ℕ) (m : Mem) → run_stores (word_stores k a v) m ≡ store k a v m
unfolding run_stores word_stores store
run_stores-word zero a v m = refl
run_stores-word (suc k) a v m = run_stores-word k (suc a) (v / 256) (set_byte a (v % 256) m)

run_stores-copy : (a : ℕ) (bs : List ℕ) (m : Mem) → run_stores (copy_stores a bs) m ≡ blit a bs m
unfolding run_stores copy_stores blit
run_stores-copy a [] m = refl
run_stores-copy a (b ∷ bs) m = run_stores-copy (suc a) bs (set_byte a b m)

run_stores-field :
    (f : Field) (frame v : ℕ) (m : Mem)
    → run_stores (field_stores f frame v) m ≡ set_field f frame v m
unfolding field_stores set_field
run_stores-field f frame v m = run_stores-word (width f) (frame + offset f) v m

run_stores-error_msg :
    (frame : ℕ) (error_msg : Option Text) (m : Mem)
    → run_stores (error_msg_stores frame error_msg) m ≡ set_error_msg frame error_msg m
unfolding error_msg_stores run_stores
run_stores-error_msg frame none m = refl
run_stores-error_msg frame (some s) m =
    run_stores-copy (address_add frame basic_frame_header_length) (padded error_msg_max_length s) m

run_stores-error_data :
    (frame error_id : ℕ) (error_msg : Option Text) (bytes : List ℕ) (m : Mem)
    → run_stores (error_data_stores frame error_id error_msg bytes) m
      ≡ set_error_data frame error_id error_msg bytes m
unfolding error_data_stores set_error_data set_data
run_stores-error_data frame error_id error_msg bytes m = elim (Bool-cases (error_id == 0)) [
  | inl z ↦ rw (
    z,
    run_stores-append,
    run_stores-append,
    run_stores-field err_id,
    run_stores-copy,
    run_stores-field length_field,
  )
  | inr e ↦ rw (
    e,
    run_stores-append,
    run_stores-append,
    run_stores-append,
    run_stores-field err_id,
    run_stores-error_msg,
    run_stores-copy,
    run_stores-field length_field,
  )
]

run_stores-body :
    (b : ℕ) (a : FrameArgs) (time : ℕ) (m : Mem)
    → run_stores (body_stores b a time) m
      ≡ set_field status (next_address b a) 0 (set_field nano b time (fill_frame b a m))
unfolding body_stores fill_frame
run_stores-body b a time m = rw (
  run_stores-append,
  run_stores-append,
  run_stores-append,
  run_stores-append,
  run_stores-append,
  run_stores-append,
  run_stores-append,
  run_stores-field source,
  run_stores-field msg_type,
  run_stores-field last_flag,
  run_stores-field req_id,
  run_stores-error_data,
  run_stores-field extra_nano,
  run_stores-field nano,
  run_stores-field status,
)

run_stores-last : (b : ℕ) (m : Mem) → run_stores ((b, 1) ∷ []) m ≡ set_field status b 1 m
unfolding run_stores set_field width offset store
run_stores-last b m = rw add-zero

pub next_address-eq :
    (b : ℕ) (a : FrameArgs)
    → IsArgs a
    → b + 2 ^ 32 < 2 ^ 64
    → next_address b a ≡ b + (header_length a.error_id + length a.bytes)
unfolding next_address address_add
next_address-eq b a args fits = ground (arith, args.length_int)

-- The stores of a call in the program's order give the memory that `write_frame_full` leaves.
pub run_stores-frame :
    (b : ℕ) (a : FrameArgs) (time : ℕ) (m : Mem)
    → IsArgs a
    → b + 2 ^ 32 < 2 ^ 64
    → time < 2 ^ 64
    → run_stores (frame_stores b a time) m ≡ publish_frame b time (fill_frame b a m)
unfolding frame_stores filled
run_stores-frame b a time m args fits time_long = rw (
  publish_lem b a time m args fits time_long,
  run_stores-append,
  run_stores-last,
  run_stores-body,
  next_address-eq b a args fits,
)
