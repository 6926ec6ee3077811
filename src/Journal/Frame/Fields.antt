-- ===== src/Journal/Frame/Fields.antt =====
-- The packed layout of FrameHeader: setters and getters do not disturb one another.
use option_hedge.Base.{
  ℕ, ◌+◌, ◌<◌, ◌≤◌, ◌≡◌, ◌≢◌, ◌↔◌, refl, sym, arith, inl, inr, Bool, true, false, List, Bool-cases,
  if◌then◌else◌,
}
use option_hedge.Base.Memory.{
  Mem, span, IsOutside, IsApart, store-outside, load-store_self, load-store_apart, load_cong, blit,
  load-blit_apart,
}
use option_hedge.Journal.Frame.{
  Field, status, source, nano, length_field, hash, msg_type, last_flag, req_id, extra_nano, err_id,
  width, offset, get_field, set_field, basic_frame_header_length,
}

fields-IsApart :
    (f g : Field) (a : ℕ) → g ≢ f → IsApart (a + offset g) (width g) (a + offset f) (width f)
unfolding offset
fields-IsApart status status a h = absurd (h refl)
fields-IsApart source source a h = absurd (h refl)
fields-IsApart nano nano a h = absurd (h refl)
fields-IsApart length_field length_field a h = absurd (h refl)
fields-IsApart hash hash a h = absurd (h refl)
fields-IsApart msg_type msg_type a h = absurd (h refl)
fields-IsApart last_flag last_flag a h = absurd (h refl)
fields-IsApart req_id req_id a h = absurd (h refl)
fields-IsApart extra_nano extra_nano a h = absurd (h refl)
fields-IsApart err_id err_id a h = absurd (h refl)
fields-IsApart _ _ a h = omega arith

-- Every field lies within the header.
pub field_within : (f : Field) → offset f + width f ≤ basic_frame_header_length
unfolding offset
field_within status = omega arith
field_within _ = omega arith

pub get_field-set_field_self :
    (f : Field) (a v : ℕ) (m : Mem) → v < span (width f) → get_field f a (set_field f a v m) ≡ v
unfolding get_field set_field
get_field-set_field_self f a v m h = load-store_self (width f) (a + offset f) v m h

pub get_field-set_field_ne :
    (f g : Field) (a v : ℕ) (m : Mem) → g ≢ f → get_field g a (set_field f a v m) ≡ get_field g a m
unfolding get_field set_field
get_field-set_field_ne f g a v m h =
    load-store_apart (width g) (a + offset g) (width f) (a + offset f) v m (fields-IsApart f g a h)

pub set_field-outside :
    (f : Field) (a v : ℕ) (m : Mem) (x : ℕ)
    → IsOutside x a basic_frame_header_length
    → set_field f a v m x ≡ m x
unfolding set_field
set_field-outside f a v m x h =
    store-outside (width f) (a + offset f) v m x (omega (arith, field_within f))

-- A field set to a value that fits reads back as that value; every other field and every byte
-- outside the header keep what they held.
pub set_field_lem :
    (f : Field) (a v : ℕ) (m : Mem)
    → v < span (width f)
    → (get_field f a (set_field f a v m) ≡ v)
      × ((g : Field) → g ≢ f → get_field g a (set_field f a v m) ≡ get_field g a m)
      × ((x : ℕ) → IsOutside x a basic_frame_header_length → set_field f a v m x ≡ m x)
set_field_lem f a v m h = (
  get_field-set_field_self f a v m h,
  λ g n. get_field-set_field_ne f g a v m n,
  λ x o. set_field-outside f a v m x o,
)

-- A field depends on the header's bytes alone.
pub get_field_cong :
    (f : Field) (a : ℕ) (m m' : Mem)
    → ((x : ℕ) → a ≤ x → x < a + basic_frame_header_length → m x ≡ m' x)
    → get_field f a m ≡ get_field f a m'
unfolding get_field
get_field_cong f a m m' h =
    load_cong (width f) (a + offset f) m m'
      (λ x l u. h x (omega arith) (omega (arith, field_within f)))

-- Whether two fields are the same, by their offsets.
abbrev pub field_eq : Field → Field → Bool
field_eq status status = true
field_eq source source = true
field_eq nano nano = true
field_eq length_field length_field = true
field_eq hash hash = true
field_eq msg_type msg_type = true
field_eq last_flag last_flag = true
field_eq req_id req_id = true
field_eq extra_nano extra_nano = true
field_eq err_id err_id = true
field_eq _ _ = false

field_eq_iff : (f g : Field) → (field_eq f g ≡ true) ↔ (f ≡ g)
field_eq_iff f g = ground arith

-- The setters in the form that rewriting uses.
pub get_field-set_field :
    (f g : Field) (a v : ℕ) (m : Mem)
    → v < span (width f)
    → get_field g a (set_field f a v m) ≡ (if field_eq f g then v else get_field g a m)
get_field-set_field f g a v m h = elim (Bool-cases (field_eq f g)) [
  | inl e ↦ rw (e, ← (field_eq_iff f g).0 e) (get_field-set_field_self f a v m h)
  | inr n ↦ rw n (get_field-set_field_ne f g a v m (λ e. cc (n, (field_eq_iff f g).1 (sym e))))
]

-- A block copied behind the header leaves the header's fields.
pub get_field-blit :
    (f : Field) (a d : ℕ) (bs : List ℕ) (m : Mem)
    → a + basic_frame_header_length ≤ d
    → get_field f a (blit d bs m) ≡ get_field f a m
unfolding get_field
get_field-blit f a d bs m h =
    load-blit_apart (width f) (a + offset f) d bs m (omega (arith, field_within f))

-- So does setting a field of a frame that lies behind the header.
pub get_field-set_field_behind :
    (f g : Field) (a b v : ℕ) (m : Mem)
    → a + basic_frame_header_length ≤ b
    → get_field g a (set_field f b v m) ≡ get_field g a m
unfolding get_field set_field
get_field-set_field_behind f g a b v m h =
    load-store_apart (width g) (a + offset g) (width f) (b + offset f) v m
      (omega (arith, field_within g))

pub get_field-set_field_before :
    (f g : Field) (a b v : ℕ) (m : Mem)
    → b + basic_frame_header_length ≤ a
    → get_field g a (set_field f b v m) ≡ get_field g a m
unfolding get_field set_field
get_field-set_field_before f g a b v m h =
    load-store_apart (width g) (a + offset g) (width f) (b + offset f) v m
      (omega (arith, field_within f))
