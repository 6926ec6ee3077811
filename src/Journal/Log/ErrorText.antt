-- ===== src/Journal/Log/ErrorText.antt =====
-- The error text of a frame: `getErrorMsg` and `setErrorData` of journal/Frame.hpp.
use option_hedge.Base.{
  ℕ, ◌+◌, ◌^◌, ◌<◌, ◌≡◌, refl, ap, sym, ◌∙◌, arith, inl, inr, Bool, true, false, Option, none, some,
  List, length, ◌==◌, Bool-cases,
}
use option_hedge.Base.Text.{Text}
use option_hedge.Base.Memory.{Mem, blit, bytes_at, bytes_at_cong, bytes_at-blit_self, blit-outside}
use option_hedge.Journal.Frame.{
  err_id, get_error_id, get_error_msg, get_header_length, address_add, set_field, length_field,
  set_error_data, set_error_msg, padded, basic_frame_header_length, error_frame_header_length,
  error_msg_max_length,
}
use option_hedge.Journal.Frame.Data.{Fits, header_length, length-padded, address_add-eq}
use option_hedge.Journal.Frame.Fields.{get_field_cong, set_field-outside}
use option_hedge.Journal.Log.{Agree}
use option_hedge.Journal.Writer.{FrameArgs}

-- What a client reads where `getErrorMsg` points: `none` for the null pointer, and else the bytes of the
-- text's place.
unfoldable pub read_error_text : ℕ → Mem → Option (List ℕ)
read_error_text frame m = elim (get_error_msg frame m) [
  | none ↦ none
  | some text ↦ some (bytes_at error_msg_max_length text m)
]

-- What that is for a call: nothing without an error, and else the text, cut or filled up with NULs. The
-- bytes are not set where the call has an error but no text.
abbrev pub GivesText : Bool → Option Text → Option (List ℕ) → Type 0
GivesText true s read = read ≡ none
GivesText false none read = (bytes : List ℕ) × (read ≡ some bytes)
GivesText false (some s) read = read ≡ some (padded error_msg_max_length s)

-- The frame at `frame` has the error number and the error text of the call.
pub record HasErrorText (m : Mem) (frame : ℕ) (a : FrameArgs) : Type 0 where
  pub has_number : get_error_id frame m ≡ a.error_id
  pub has_text : GivesText (a.error_id == 0) a.error_msg (read_error_text frame m)

-- It depends on the frame's header alone.
read_error_text_cong :
    (frame : ℕ) (m m' : Mem)
    → frame + 2 ^ 32 < 2 ^ 64
    → Agree m m' frame (frame + get_header_length frame m)
    → (get_error_id frame m ≡ get_error_id frame m')
      × (read_error_text frame m ≡ read_error_text frame m')
unfolding read_error_text get_error_msg get_header_length
read_error_text_cong frame m m' fits same =
    let number : get_error_id frame m ≡ get_error_id frame m' =
      get_field_cong err_id frame m m' (λ x lo hi. same x lo (ground arith)) in
    elim (Bool-cases (get_error_id frame m == 0)) [
      | inl z ↦ (number, ground (arith, number, z))
      | inr e ↦
          let text =
            bytes_at_cong error_msg_max_length (frame + basic_frame_header_length) m m'
              (λ x lo hi. same x (omega arith) (ground (arith, e))) in
          (
            number,
            ground (
              arith,
              number,
              e,
              text,
              address_add-eq frame basic_frame_header_length (omega arith),
            ),
          )
    ]

pub HasErrorText-Agree :
    (m m' : Mem) (frame : ℕ) (a : FrameArgs)
    → frame + 2 ^ 32 < 2 ^ 64
    → Agree m m' frame (frame + header_length a.error_id)
    → HasErrorText m frame a
    → HasErrorText m' frame a
unfolding get_header_length
HasErrorText-Agree m m' frame a fits same h =
    let (number, text) =
      read_error_text_cong frame m m' fits (λ x lo hi. same x lo (rw h.has_number at hi)) in
    record { has_number = sym number ∙ h.has_number; has_text = rw (← text) h.has_text }

-- The text that `set_error_data` copies stays where it is when the data are copied behind it.
set_error_msg-kept :
    (frame n : ℕ) (s : Text) (bytes : List ℕ) (m : Mem)
    → frame + 2 ^ 32 < 2 ^ 64
    → bytes_at error_msg_max_length (frame + basic_frame_header_length) (
        set_field length_field frame n (
          blit
            (address_add frame error_frame_header_length)
            bytes
            (set_error_msg frame (some s) m)))
      ≡ padded error_msg_max_length s
set_error_msg-kept frame n s bytes m fits =
    let at = frame + basic_frame_header_length in
    let text = padded error_msg_max_length s in
    rw
      (
        address_add-eq frame error_frame_header_length (omega arith),
        address_add-eq frame basic_frame_header_length (omega arith),
      )
      (bytes_at_cong error_msg_max_length at _ (blit at text m) (λ x lo hi.
          set_field-outside length_field frame n _ x (inr (omega arith))
          ∙ blit-outside (frame + error_frame_header_length) bytes _ x (inl (omega arith)))
        ∙ ap (λ k. bytes_at k at (blit at text m)) (sym (length-padded error_msg_max_length s))
        ∙ bytes_at-blit_self at text m)

-- `set_error_data` sets the error's number and text.
pub set_error_data-text :
    (frame error_id : ℕ) (s : Text) (bytes : List ℕ) (m : Mem)
    → Fits frame error_id (length bytes)
    → (error_id == 0) ≡ false
    → bytes_at error_msg_max_length
        (frame + basic_frame_header_length)
        (set_error_data frame error_id (some s) bytes m)
      ≡ padded error_msg_max_length s
unfolding set_error_data
set_error_data-text frame error_id s bytes m fits e =
    rw e (set_error_msg-kept frame _ s bytes _ fits.address_fits)

-- A frame that has the number and, if there is an error with a text, the text.
pub HasErrorText-of :
    (m : Mem) (frame : ℕ) (a : FrameArgs)
    → frame + 2 ^ 32 < 2 ^ 64
    → get_error_id frame m ≡ a.error_id
    → ((s : Text)
        → (a.error_id == 0) ≡ false
        → a.error_msg ≡ some s
        → bytes_at error_msg_max_length (frame + basic_frame_header_length) m
          ≡ padded error_msg_max_length s)
    → HasErrorText m frame a
unfolding read_error_text get_error_msg
HasErrorText-of m frame a fits number text =
    let there = address_add-eq frame basic_frame_header_length (omega arith) in
    record {
      has_number = number;
      has_text = elim (Bool-cases (a.error_id == 0)) [
        | inl z ↦
            let nothing : read_error_text frame m ≡ none = ground (arith, number, z) in rw z nothing
        | inr e ↦
            let read : read_error_text frame m
                ≡ some (bytes_at error_msg_max_length (frame + basic_frame_header_length) m) =
              ground (arith, number, e, there) in
            rw (e, read) (with_error e a.error_msg refl)
      ];
    }
  where
    with_error :
        (a.error_id == 0) ≡ false
        → (o : Option Text) → a.error_msg ≡ o
        → GivesText false o
            (some (bytes_at error_msg_max_length (frame + basic_frame_header_length) m))
    with_error e none at = (_, refl)
    with_error e (some s) at = ap some (text s e at)
