-- ===== src/Journal/Writer.antt =====
-- journal/JournalHandler.h, journal/JournalHandler.cpp, journal/JournalWriter.h and
-- journal/JournalWriter.cpp: a client with its journals, and the writer of one journal.
pub mod Write
pub mod NextPage
pub mod Turn
pub mod LocalTurn
pub mod TurnRead
pub mod Run
pub mod RoundTrip
use option_hedge.Base.{
  ℕ, zero, suc, ◌+◌, ◌-◌, ◌%◌, ◌^◌, Bool, true, false, Option, none, some, List, [], ◌∷◌, ◌++◌,
  length, if◌then◌else◌, ◌==◌, ltb, get_elem?, take,
}
use option_hedge.Base.Text.{Text, codes}
use option_hedge.Base.Memory.{Mem}
use option_hedge.Constants.{time_to_last}
use option_hedge.Os.{
  Os, Sys, M, ok, err, ◌>>=◌, ◌>>◌, pure, fail, on_memory, null_pointer, out_of_range,
}
use option_hedge.Timer.{get_nano_time}
use option_hedge.Journal.PageUtil.{digits}
use option_hedge.Journal.Frame.{
  source, msg_type, last_flag, req_id, extra_nano, nano, set_field, set_error_data,
  set_status_written,
}
use option_hedge.Journal.Provider.{PageProvider, local_page_provider}
use option_hedge.Journal.Cursor.{
  Journal, create_journal, seek_time, locate_frame, pass_journal_frame, get_cur_page_num,
}

-- The last character of a text is a slash.
abbrev ends_in_slash : Text → Bool
ends_in_slash [] = false
ends_in_slash (c ∷ []) = c == b'/'
ends_in_slash (c ∷ d ∷ s) = ends_in_slash (d ∷ s)

unfoldable pub strip_slash : Text → Text
strip_slash dir = if ends_in_slash dir then take (length dir - 1) dir else dir

-- What a frame is to hold, apart from its time.
pub record FrameArgs : Type 0 where
  pub bytes : List ℕ
  pub source_arg : ℕ
  pub msg_type_arg : ℕ
  pub last_flag_arg : ℕ
  pub request_id : ℕ
  pub extra_nano_arg : ℕ
  pub error_id : ℕ
  pub error_msg : Option Text

-- The setters that `write_frame_full` calls before it reads the clock, and those after.
unfoldable pub fill_frame : ℕ → FrameArgs → Mem → Mem
fill_frame frame a m = set_field extra_nano frame a.extra_nano_arg (
    set_error_data frame a.error_id a.error_msg a.bytes (
      set_field req_id frame a.request_id (
        set_field last_flag frame a.last_flag_arg
          (set_field msg_type frame a.msg_type_arg (set_field source frame a.source_arg m)))))

unfoldable pub publish_frame : ℕ → ℕ → Mem → Mem
publish_frame frame time m = set_status_written frame (set_field nano frame time m)

unfoldable pub long_to_string : ℕ → Text
long_to_string n = if ltb n (2 ^ 63) then digits 20 n [] else b'-' ∷ digits 20 (2 ^ 64 - n) []

module _ (os : Os) where
  -- JournalHandler::getDefaultName, with a long printed in decimal.
  unfoldable pub get_default_name : Text → M (Sys os) Text
  get_default_name prefix = do
    time ← get_nano_time os
    pure (prefix ++ codes "_" ++ long_to_string time)

  -- JournalHandler's fields that are used, and JournalWriter's `journal`.
  pub record Writer : Type 0 where
    pub provider : PageProvider os
    pub journals : List Journal
    pub journal : Option Journal

  unfoldable pub new_writer : PageProvider os → Writer
  new_writer provider = record { provider = provider; journals = []; journal = none }

  unfoldable pub add_journal : Text → Text → Writer → M (Sys os) (Writer × ℕ)
  add_journal dir jname w = do
    service_idx ← w.provider.register_journal (strip_slash dir) jname
    let journals =
        w.journals ++ create_journal os w.provider (strip_slash dir) jname service_idx ∷ []
    pure (record w { journals = journals }, length journals - 1)

  -- The destructor.
  unfoldable pub destroy_handler : Writer → M (Sys os) (Unit {0})
  destroy_handler w = w.provider.exit_client

  module _ (matches : Text → Text → Bool) (pages fuel : ℕ) where
    with_journal : {A : Type 0} → Option Journal → (Journal → M (Sys os) A) → M (Sys os) A
    with_journal none f = fail null_pointer
    with_journal (some j) f = f j

    unfoldable pub seek_end : Writer → M (Sys os) Writer
    unfolding with_journal
    seek_end w = with_journal w.journal λ j. do
      k ← seek_time os w.provider matches fuel time_to_last j
      (l, frame) ← locate_frame os w.provider pages fuel k
      pure (record w { journal = some l })

    -- `journals[0]`
    unfoldable pub init : Text → Text → Writer → M (Sys os) Writer
    unfolding seek_end with_journal
    init dir jname w = do
      (v, idx) ← add_journal dir jname w
      with_journal (get_elem? v.journals 0) (λ j. seek_end (record v { journal = some j }))

    unfoldable pub get_page_num : Writer → M (Sys os) ℕ
    unfolding with_journal
    get_page_num w = with_journal w.journal (get_cur_page_num os w.provider)

    -- A null frame is written through.
    unfoldable pub write_at : Option ℕ → FrameArgs → M (Sys os) ℕ
    write_at none a = fail null_pointer
    write_at (some frame) a = do
      on_memory os (fill_frame frame a)
      time ← get_nano_time os
      on_memory os (publish_frame frame time)
      pure time

    unfoldable pub write_frame_full : FrameArgs → Writer → M (Sys os) (Writer × ℕ)
    unfolding with_journal write_at
    write_frame_full a w = with_journal w.journal λ j. do
      (k, frame) ← locate_frame os w.provider pages fuel j
      time ← write_at frame a
      l ← pass_journal_frame os w.provider k
      pure (record w { journal = some l }, time)

    -- The three kinds of frames that callers write.
    unfoldable pub write_frame : List ℕ → ℕ → ℕ → ℕ → ℕ → Writer → M (Sys os) (Writer × ℕ)
    write_frame bytes source_arg msg_type_arg last_flag_arg request_id = write_frame_full (record {
      bytes = bytes;
      source_arg = source_arg;
      msg_type_arg = msg_type_arg;
      last_flag_arg = last_flag_arg;
      request_id = request_id;
      extra_nano_arg = 0;
      error_id = 0;
      error_msg = none;
    })

    unfoldable pub write_frame_extra : List ℕ → ℕ → ℕ → ℕ → ℕ → ℕ → Writer → M (Sys os) (Writer × ℕ)
    write_frame_extra bytes source_arg msg_type_arg last_flag_arg request_id extra_nano_arg =
        write_frame_full (record {
          bytes = bytes;
          source_arg = source_arg;
          msg_type_arg = msg_type_arg;
          last_flag_arg = last_flag_arg;
          request_id = request_id;
          extra_nano_arg = extra_nano_arg;
          error_id = 0;
          error_msg = none;
        })

    unfoldable pub write_error_frame :
        List ℕ → ℕ → ℕ → ℕ → ℕ → ℕ → Option Text → Writer → M (Sys os) (Writer × ℕ)
    write_error_frame bytes source_arg msg_type_arg last_flag_arg request_id error_id error_msg =
        write_frame_full (record {
          bytes = bytes;
          source_arg = source_arg;
          msg_type_arg = msg_type_arg;
          last_flag_arg = last_flag_arg;
          request_id = request_id;
          extra_nano_arg = 0;
          error_id = error_id;
          error_msg = error_msg;
        })

    unfoldable pub write_str : Text → Writer → M (Sys os) ℕ
    write_str str w = pure 0

    -- JournalWriter::create with a provider.
    unfoldable pub create_with : Text → Text → PageProvider os → M (Sys os) Writer
    create_with dir jname provider = init dir jname (new_writer provider)

    -- By name: `service` is the constructor of ClientPageProvider in the build with USE_PAGED_SERVICE,
    -- and `none` in the build without, which takes the local provider.
    unfoldable pub create_named :
        Option (Text → Bool → M (Sys os) (PageProvider os)) → Text → Text → Text → M (Sys os) Writer
    create_named none dir jname writer_name =
        create_with dir jname (local_page_provider os true false)
    create_named (some client_page_provider) dir jname writer_name = do
      provider ← client_page_provider writer_name true
      create_with dir jname provider

    unfoldable pub create_default :
        Option (Text → Bool → M (Sys os) (PageProvider os)) → Text → Text → M (Sys os) Writer
    create_default service dir jname = do
      writer_name ← get_default_name (codes "writer")
      create_named service dir jname writer_name
