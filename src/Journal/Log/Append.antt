-- ===== src/Journal/Log/Append.antt =====
-- Writing a frame: `write_frame_full` of journal/JournalWriter.cpp, from its setters to the mark
-- that publishes the frame.
use option_hedge.Base.{
  ℕ, ◌+◌, ◌^◌, ◌<◌, ◌≤◌, ◌≡◌, arith, List, [], ◌∷◌, ◌++◌, length, ◌∙◌, sym, inl, inr, some, false,
  ◌==◌, if◌then◌else◌,
}
use option_hedge.Base.Memory.{Mem, bytes_at, bytes_at_cong, IsOutside, store-outside}
use option_hedge.Journal.Frame.{
  Field, status, source, nano, length_field, msg_type, last_flag, req_id, extra_nano, err_id, width,
  offset, get_field, set_field, set_status, frame_status_code, set_status_written, get_next_entry,
  address_add, basic_frame_header_length, padded, error_msg_max_length,
}
use option_hedge.Journal.Frame.Data.{
  Fits, header_length, get_field-set_error_data, set_error_data-DataKept, set_error_data-outside,
}
use option_hedge.Journal.Frame.Fields.{
  field_eq, get_field-set_field, set_field-outside, get_field-set_field_behind,
  get_field-set_field_before,
}
use option_hedge.Journal.Log.{
  Entry, entry_length, Holds, IsLog, IsLog-Agree, IsLog-append, header_length-ge,
}
use option_hedge.Journal.Log.ErrorText.{HasErrorText, HasErrorText-of, set_error_data-text}
use option_hedge.Base.Text.{Text}
use option_hedge.Journal.Writer.{FrameArgs, fill_frame, publish_frame}

-- The entry that a call writes at a time.
abbrev pub entry_of : FrameArgs → ℕ → Entry
entry_of a time = record {
  source_of = a.source_arg;
  msg_type_of = a.msg_type_arg;
  last_flag_of = a.last_flag_arg;
  request_id_of = a.request_id;
  nano_of = time;
  extra_nano_of = a.extra_nano_arg;
  error_id_of = a.error_id;
  bytes_of = a.bytes;
}

-- The arguments are values of their C types, and the frame's length is an int.
pub record IsArgs (a : FrameArgs) : Type 0 where
  pub source_short : a.source_arg < 2 ^ 16
  pub msg_type_short : a.msg_type_arg < 2 ^ 16
  pub last_flag_byte : a.last_flag_arg < 2 ^ 8
  pub request_id_int : a.request_id < 2 ^ 32
  pub extra_nano_long : a.extra_nano_arg < 2 ^ 64
  pub error_id_int : a.error_id < 2 ^ 32
  pub length_int : header_length a.error_id + length a.bytes < 2 ^ 31

-- A status is one byte.
pub set_status-outside :
    (a v : ℕ) (m : Mem) (x : ℕ) → IsOutside x a 1 → set_field status a v m x ≡ m x
unfolding set_field width offset
set_status-outside a v m x o = store-outside 1 (a + 0) v m x (omega arith)

module _ (b : ℕ) (a : FrameArgs) (time : ℕ) (m : Mem) (args : IsArgs a) (fits : b + 2 ^ 32 < 2 ^ 64)
    (time_long : time < 2 ^ 64) where
  unfoldable pub filled : Mem
  filled = set_field nano b time (fill_frame b a m)

  frame-Fits : Fits b a.error_id (length a.bytes)
  frame-Fits = record {
    length_fits = args.length_int;
    address_fits = fits;
    error_id_fits = args.error_id_int;
  }

  get_field-filled :
      (g : Field)
      → get_field g b filled ≡ (
          if field_eq nano g
          then time
          else if field_eq extra_nano g
          then a.extra_nano_arg
          else if field_eq length_field g
          then header_length a.error_id + length a.bytes
          else if field_eq err_id g
          then a.error_id
          else if field_eq req_id g
          then a.request_id
          else if field_eq last_flag g
          then a.last_flag_arg
          else if field_eq msg_type g
          then a.msg_type_arg
          else if field_eq source g
          then a.source_arg
          else get_field g b m)
  unfolding filled fill_frame width
  get_field-filled g = rw (
    get_field-set_field nano g b time _ time_long,
    get_field-set_field extra_nano g b a.extra_nano_arg _ args.extra_nano_long,
    get_field-set_error_data b a.error_id a.error_msg a.bytes _ frame-Fits g,
    get_field-set_field req_id g b a.request_id _ args.request_id_int,
    get_field-set_field last_flag g b a.last_flag_arg _ args.last_flag_byte,
    get_field-set_field msg_type g b a.msg_type_arg _ args.msg_type_short,
    get_field-set_field source g b a.source_arg _ args.source_short,
  )

  filled-outside :
      (x : ℕ) → IsOutside x b (header_length a.error_id + length a.bytes) → filled x ≡ m x
  unfolding filled fill_frame
  filled-outside x o =
      let long = header_length-ge a.error_id in
      let o' : IsOutside x b basic_frame_header_length = omega (arith, o) in
      set_field-outside nano b time _ x o'
      ∙ set_field-outside extra_nano b a.extra_nano_arg _ x o'
      ∙ set_error_data-outside b a.error_id a.error_msg a.bytes _ frame-Fits x o
      ∙ set_field-outside req_id b a.request_id _ x o'
      ∙ set_field-outside last_flag b a.last_flag_arg _ x o'
      ∙ set_field-outside msg_type b a.msg_type_arg _ x o'
      ∙ set_field-outside source b a.source_arg m x o'

  filled-bytes : bytes_at (length a.bytes) (b + header_length a.error_id) filled ≡ a.bytes
  unfolding filled fill_frame
  filled-bytes =
      let long = header_length-ge a.error_id in
      bytes_at_cong (length a.bytes) (b + header_length a.error_id) _ _ (λ x l u.
        set_field-outside nano b time _ x (inr (omega arith))
        ∙ set_field-outside extra_nano b a.extra_nano_arg _ x (inr (omega arith)))
      ∙ set_error_data-DataKept b a.error_id a.error_msg a.bytes _ frame-Fits

  filled-text :
      (text : Text)
      → (a.error_id == 0) ≡ false
      → a.error_msg ≡ some text
      → bytes_at error_msg_max_length (b + basic_frame_header_length) filled
        ≡ padded error_msg_max_length text
  unfolding filled fill_frame
  filled-text text e at = rw at (
      bytes_at_cong error_msg_max_length (b + basic_frame_header_length) _ _ (λ x l u.
        set_field-outside nano b time _ x (inr (omega arith))
        ∙ set_field-outside extra_nano b a.extra_nano_arg _ x (inr (omega arith)))
      ∙ set_error_data-text b a.error_id text a.bytes _ frame-Fits e)

  -- The end of the new frame, where the next header is marked raw.
  abbrev pub end_of : ℕ
  end_of = b + (header_length a.error_id + length a.bytes)

  pub next-filled : get_next_entry b filled ≡ end_of
  unfolding get_next_entry address_add
  next-filled = ground (arith, get_field-filled length_field, args.length_int)

  pub publish_lem :
      publish_frame b time (fill_frame b a m)
      ≡ set_field status b 1 (set_field status end_of 0 filled)
  unfolding publish_frame set_status_written set_status frame_status_code filled
  publish_lem =
      let next : get_next_entry b (set_field nano b time (fill_frame b a m)) ≡ end_of =
        next-filled in
      rw next

  published : Mem
  published = publish_frame b time (fill_frame b a m)

  behind : b + basic_frame_header_length ≤ end_of
  behind = omega (arith, header_length-ge a.error_id)

  get_field-published :
      (g : Field)
      → get_field g b published ≡ (if field_eq status g then 1 else get_field g b filled)
  unfolding published width
  get_field-published g = rw (
    publish_lem,
    get_field-set_field status g b 1 _ (omega arith),
    get_field-set_field_behind status g b end_of 0 filled behind,
  )

  published-bytes : bytes_at (length a.bytes) (b + header_length a.error_id) published ≡ a.bytes
  unfolding published
  published-bytes =
      let long = header_length-ge a.error_id in
      rw publish_lem (
        bytes_at_cong (length a.bytes) (b + header_length a.error_id) _ filled (λ x l u.
          set_field-outside status b 1 _ x (inr (omega arith))
          ∙ set_field-outside status end_of 0 filled x (inl (omega arith)))
        ∙ filled-bytes)

  published-text : HasErrorText published b a
  unfolding published
  published-text =
      HasErrorText-of published b a fits (get_field-published err_id ∙ get_field-filled err_id)
        (λ text e at. rw publish_lem (
          bytes_at_cong error_msg_max_length (b + basic_frame_header_length) _ filled (λ x l u.
            set_field-outside status b 1 _ x (inr (omega arith))
            ∙ set_field-outside status end_of 0 filled x (inl (ground (arith, e))))
          ∙ filled-text text e at))

  published-Holds : Holds published b (entry_of a time)
  published-Holds = record {
    is_written = get_field-published status;
    has_length = get_field-published length_field ∙ get_field-filled length_field;
    has_source = get_field-published source ∙ get_field-filled source;
    has_msg_type = get_field-published msg_type ∙ get_field-filled msg_type;
    has_last_flag = get_field-published last_flag ∙ get_field-filled last_flag;
    has_request_id = get_field-published req_id ∙ get_field-filled req_id;
    has_nano = get_field-published nano ∙ get_field-filled nano;
    has_extra_nano = get_field-published extra_nano ∙ get_field-filled extra_nano;
    has_error_id = get_field-published err_id ∙ get_field-filled err_id;
    has_bytes = published-bytes;
    length_int = args.length_int;
    address_long = fits;
  }

  published-raw : get_field status end_of published ≡ 0
  unfolding published width
  published-raw = rw publish_lem (
      get_field-set_field_before status status end_of b 1 _ behind
      ∙ get_field-set_field status status end_of 0 filled (omega arith))

  -- One byte behind the frame is written too: the status of the next header.
  published-outside :
      (x : ℕ) → IsOutside x b (header_length a.error_id + length a.bytes + 1) → published x ≡ m x
  unfolding published
  published-outside x o = rw publish_lem (
      set_status-outside b 1 _ x (omega (arith, behind))
      ∙ set_status-outside end_of 0 filled x (omega arith)
      ∙ filled-outside x (omega arith))

-- A frame written at the end of a log appends its entry, with the call's arguments and time in every
-- field, its data byte for byte, and its error text where it has one; the header behind it is raw, the entries before it are as they
-- were, and no byte outside the frame and that header's status changes. It is stated for arguments
-- within their C types and for frames whose length is an int.
pub publish_frame-IsLog :
    (start b : ℕ) (es : List Entry) (a : FrameArgs) (time : ℕ) (m : Mem)
    → IsLog m start es b
    → IsArgs a
    → b + 2 ^ 32 < 2 ^ 64
    → time < 2 ^ 64
    → let m' = publish_frame b time (fill_frame b a m) in
      let n = entry_length (entry_of a time) in
      IsLog m' start (es ++ entry_of a time ∷ []) (b + n)
      × (get_field status (b + n) m' ≡ 0)
      × ((x : ℕ) → IsOutside x b (n + 1) → m' x ≡ m x)
      × HasErrorText m' b a
unfolding published
publish_frame-IsLog start b es a time m l args fits time_long =
    let m' = publish_frame b time (fill_frame b a m) in
    let outside = published-outside b a time m args fits time_long in
    (
      IsLog-append m' es start b (entry_of a time)
          (IsLog-Agree m m' es start b (λ x lo hi. sym (outside x (inl hi))) l)
          (published-Holds b a time m args fits time_long),
      published-raw b a time m args fits time_long,
      outside,
      published-text b a time m args fits time_long,
    )
