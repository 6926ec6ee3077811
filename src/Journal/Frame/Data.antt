-- ===== src/Journal/Frame/Data.antt =====
-- The variable part of a frame: its length, its data and its error text.
use option_hedge.Base.{
  ℕ, zero, suc, ◌+◌, ◌^◌, ◌<◌, ◌≤◌, ◌≡◌, refl, ap, ◌∙◌, arith, inl, inr, Option, none, some, List,
  [], ◌∷◌, length, ◌==◌, if◌then◌else◌, Bool-cases,
}
use option_hedge.Base.Text.{Text}
use option_hedge.Base.Memory.{
  Mem, IsOutside, blit, bytes_at, bytes_at-blit_self, bytes_at-store_apart, blit-outside,
}
use option_hedge.Base.Word.{to_int}
use option_hedge.Journal.Frame.{
  Field, length_field, err_id, width, offset, get_field, set_field, address_add, set_data,
  set_error_data, set_error_msg, padded, basic_frame_header_length, error_frame_header_length,
  error_msg_max_length,
}
use option_hedge.Journal.Frame.Fields.{
  field_eq, get_field-set_field, get_field-blit, set_field-outside,
}

-- What `set_error_data` takes for a header: the longer one if there is an error.
abbrev pub header_length : ℕ → ℕ
header_length error_id =
    if error_id == 0 then basic_frame_header_length else error_frame_header_length

pub length-padded : (n : ℕ) (s : Text) → length (padded n s) ≡ n
length-padded zero s = refl
length-padded (suc n) [] = ap suc (length-padded n [])
length-padded (suc n) (c ∷ s) = ap suc (length-padded n s)

pub address_add-eq : (x d : ℕ) → x + d < 2 ^ 64 → address_add x d ≡ x + d
unfolding address_add
address_add-eq x d h = omega arith

-- A frame small enough for its length to be an int, at an address that does not wrap.
pub record Fits (frame error_id n : ℕ) : Type 0 where
  pub length_fits : header_length error_id + n < 2 ^ 31
  pub address_fits : frame + 2 ^ 32 < 2 ^ 64
  pub error_id_fits : error_id < 2 ^ 32

-- The last two steps of both setters: copy behind a header of `h` bytes, and set the length.
get_field-filled :
    (g : Field) (frame h n : ℕ) (bytes : List ℕ) (m : Mem)
    → n < 2 ^ 31
    → frame + h < 2 ^ 64
    → basic_frame_header_length ≤ h
    → get_field g frame
        (set_field length_field frame (to_int n) (blit (address_add frame h) bytes m))
      ≡ (if field_eq length_field g then n else get_field g frame m)
unfolding width
get_field-filled g frame h n bytes m n_fits h_fits behind =
    let n_int : to_int n ≡ n = omega arith in
    rw (
      n_int,
      address_add-eq frame h h_fits,
      get_field-set_field length_field g frame n _ (omega arith),
      get_field-blit g frame (frame + h) bytes m (omega arith),
    )

get_field-set_error_msg :
    (g : Field) (frame : ℕ) (error_msg : Option Text) (m : Mem)
    → frame + basic_frame_header_length < 2 ^ 64
    → get_field g frame (set_error_msg frame error_msg m) ≡ get_field g frame m
get_field-set_error_msg g frame none m h = refl
get_field-set_error_msg g frame (some s) m h =
    rw (address_add-eq frame basic_frame_header_length h) (
      get_field-blit g frame (frame + basic_frame_header_length) (padded error_msg_max_length s) m
        (omega arith))

set_error_msg-outside :
    (frame : ℕ) (error_msg : Option Text) (m : Mem) (x : ℕ)
    → frame + basic_frame_header_length < 2 ^ 64
    → IsOutside x frame error_frame_header_length
    → set_error_msg frame error_msg m x ≡ m x
set_error_msg-outside frame none m x h o = refl
set_error_msg-outside frame (some s) m x h o =
    rw (address_add-eq frame basic_frame_header_length h) (
      blit-outside (frame + basic_frame_header_length) (padded error_msg_max_length s) m x
        (omega (arith, length-padded error_msg_max_length s)))

abbrev DataKept : ℕ → ℕ → List ℕ → Mem → Type 0
DataKept frame h bytes m = bytes_at (length bytes) (frame + h) m ≡ bytes

filled-DataKept :
    (frame h n : ℕ) (bytes : List ℕ) (m : Mem)
    → frame + h < 2 ^ 64
    → basic_frame_header_length ≤ h
    → DataKept frame h bytes (set_field length_field frame n (blit (address_add frame h) bytes m))
unfolding set_field width offset
filled-DataKept frame h n bytes m h_fits behind = rw (address_add-eq frame h h_fits) (
    bytes_at-store_apart (length bytes) (frame + h) 4 (frame + 11) n (blit (frame + h) bytes m)
      (omega arith)
    ∙ bytes_at-blit_self (frame + h) bytes m)

filled-outside :
    (frame h n : ℕ) (bytes : List ℕ) (m : Mem) (x : ℕ)
    → frame + h < 2 ^ 64
    → basic_frame_header_length ≤ h
    → IsOutside x frame (h + length bytes)
    → set_field length_field frame n (blit (address_add frame h) bytes m) x ≡ m x
filled-outside frame h n bytes m x h_fits behind o = rw (address_add-eq frame h h_fits) (
    set_field-outside length_field frame n (blit (frame + h) bytes m) x (omega arith)
    ∙ blit-outside (frame + h) bytes m x (omega arith))

module _ (frame error_id : ℕ) (error_msg : Option Text) (bytes : List ℕ) (m : Mem)
    (fits : Fits frame error_id (length bytes)) where
  -- `set_error_data` sets `length` and `err_id`, and no other field of the header.
  pub get_field-set_error_data :
      (g : Field)
      → get_field g frame (set_error_data frame error_id error_msg bytes m) ≡ (
          if field_eq length_field g
          then header_length error_id + length bytes
          else if field_eq err_id g
          then error_id
          else get_field g frame m)
  unfolding set_error_data set_data width
  get_field-set_error_data g = elim (Bool-cases (error_id == 0)) [
    | inl z ↦
        let e : error_id ≡ 0 = ground arith in
        let n_fits : basic_frame_header_length + length bytes < 2 ^ 31 =
          ground (arith, fits.length_fits) in
        rw z (
          get_field-filled g frame basic_frame_header_length
            (basic_frame_header_length + length bytes) bytes (set_field err_id frame 0 m) n_fits
            (omega (arith, fits.address_fits)) (omega arith)
          ∙ rw (get_field-set_field err_id g frame 0 m (omega arith), e))
    | inr e ↦
        let n_fits : error_frame_header_length + length bytes < 2 ^ 31 =
          ground (arith, fits.length_fits) in
        rw e (
          get_field-filled g frame error_frame_header_length
            (error_frame_header_length + length bytes) bytes
            (set_error_msg frame error_msg (set_field err_id frame error_id m)) n_fits
            (omega (arith, fits.address_fits)) (omega arith)
          ∙ rw (
            get_field-set_error_msg g frame error_msg (set_field err_id frame error_id m)
                (omega (arith, fits.address_fits)),
            get_field-set_field err_id g frame error_id m (omega (arith, fits.error_id_fits)),
          ))
  ]

  -- The data lie behind the header, byte for byte.
  pub set_error_data-DataKept :
      DataKept frame
        (header_length error_id)
        bytes
        (set_error_data frame error_id error_msg bytes m)
  unfolding set_error_data set_data
  set_error_data-DataKept = elim (Bool-cases (error_id == 0)) [
    | inl z ↦ rw z (
        filled-DataKept frame basic_frame_header_length _ bytes _ (omega (arith, fits.address_fits))
          (omega arith))
    | inr e ↦ rw e (
        filled-DataKept frame error_frame_header_length _ bytes _ (omega (arith, fits.address_fits))
          (omega arith))
  ]

  -- No byte outside the frame changes.
  pub set_error_data-outside :
      (x : ℕ)
      → IsOutside x frame (header_length error_id + length bytes)
      → set_error_data frame error_id error_msg bytes m x ≡ m x
  unfolding set_error_data set_data
  set_error_data-outside x o = elim (Bool-cases (error_id == 0)) [
    | inl z ↦
        let o' : IsOutside x frame (basic_frame_header_length + length bytes) = rw z at o in
        rw z (
          filled-outside frame basic_frame_header_length _ bytes _ x
            (omega (arith, fits.address_fits)) (omega arith) o'
          ∙ set_field-outside err_id frame 0 m x (omega (arith, o')))
    | inr e ↦
        let o' : IsOutside x frame (error_frame_header_length + length bytes) = rw e at o in
        rw e (
          filled-outside frame error_frame_header_length _ bytes _ x
            (omega (arith, fits.address_fits)) (omega arith) o'
          ∙ set_error_msg-outside frame error_msg _ x (omega (arith, fits.address_fits))
              (omega (arith, o'))
          ∙ set_field-outside err_id frame error_id m x (omega (arith, o')))
  ]
