-- ===== src/Journal/Log.antt =====
-- What a page's frames say, as a list of entries: the abstract log that Frame.hpp, Page.h and
-- JournalWriter.cpp keep.
pub mod ErrorText
pub mod Append
pub mod Scan
pub mod Close
use option_hedge.Base.{
  ℕ, ◌+◌, ◌^◌, ◌<◌, ◌≤◌, ◌≡◌, refl, arith, List, [], ◌∷◌, ◌++◌, length, ◌∙◌, sym, ap,
}
use option_hedge.Base.Memory.{Mem, bytes_at, bytes_at_cong}
use option_hedge.Journal.Frame.{
  Field, status, source, nano, length_field, msg_type, last_flag, req_id, extra_nano, err_id,
  get_field, basic_frame_header_length,
}
use option_hedge.Journal.Frame.Data.{header_length}
use option_hedge.Journal.Frame.Fields.{get_field_cong}

pub record Entry : Type 0 where
  pub source_of : ℕ
  pub msg_type_of : ℕ
  pub last_flag_of : ℕ
  pub request_id_of : ℕ
  pub nano_of : ℕ
  pub extra_nano_of : ℕ
  pub error_id_of : ℕ
  pub bytes_of : List ℕ

abbrev pub entry_length : Entry → ℕ
entry_length e = header_length e.error_id_of + length e.bytes_of

-- The frame at `a` is published and holds the entry.
pub record Holds (m : Mem) (a : ℕ) (e : Entry) : Type 0 where
  pub is_written : get_field status a m ≡ 1
  pub has_length : get_field length_field a m ≡ entry_length e
  pub has_source : get_field source a m ≡ e.source_of
  pub has_msg_type : get_field msg_type a m ≡ e.msg_type_of
  pub has_last_flag : get_field last_flag a m ≡ e.last_flag_of
  pub has_request_id : get_field req_id a m ≡ e.request_id_of
  pub has_nano : get_field nano a m ≡ e.nano_of
  pub has_extra_nano : get_field extra_nano a m ≡ e.extra_nano_of
  pub has_error_id : get_field err_id a m ≡ e.error_id_of
  pub has_bytes : bytes_at (length e.bytes_of) (a + header_length e.error_id_of) m ≡ e.bytes_of
  pub length_int : entry_length e < 2 ^ 31
  pub address_long : a + 2 ^ 32 < 2 ^ 64

-- Frames that lie one behind the other from `a` up to `b`.
abbrev pub IsLog : Mem → ℕ → List Entry → ℕ → Type 0
IsLog m a [] b = a ≡ b
IsLog m a (e ∷ es) b = Holds m a e × IsLog m (a + entry_length e) es b

pub header_length-ge : (error_id : ℕ) → basic_frame_header_length ≤ header_length error_id
header_length-ge error_id = ground arith

abbrev pub Agree : Mem → Mem → ℕ → ℕ → Type 0
Agree m m' a b = (x : ℕ) → a ≤ x → x < b → m x ≡ m' x

pub Holds-Agree :
    {m : Mem} (m' : Mem) {a : ℕ} {e : Entry}
    → Agree m m' a (a + entry_length e)
    → Holds m a e
    → Holds m' a e
Holds-Agree {m} m' {a} {e} same h =
    let long = header_length-ge e.error_id_of in
    let field : (f : Field) → get_field f a m ≡ get_field f a m' =
      λ f. get_field_cong f a m m' (λ x l u. same x l (omega arith)) in
    record {
      is_written = sym (field status) ∙ h.is_written;
      has_length = sym (field length_field) ∙ h.has_length;
      has_source = sym (field source) ∙ h.has_source;
      has_msg_type = sym (field msg_type) ∙ h.has_msg_type;
      has_last_flag = sym (field last_flag) ∙ h.has_last_flag;
      has_request_id = sym (field req_id) ∙ h.has_request_id;
      has_nano = sym (field nano) ∙ h.has_nano;
      has_extra_nano = sym (field extra_nano) ∙ h.has_extra_nano;
      has_error_id = sym (field err_id) ∙ h.has_error_id;
      has_bytes =
          sym (
            bytes_at_cong (length e.bytes_of) (a + header_length e.error_id_of) m m'
              (λ x l u. same x (omega arith) (omega arith)))
          ∙ h.has_bytes;
      length_int = h.length_int;
      address_long = h.address_long;
    }

pub IsLog-le : (m : Mem) (es : List Entry) (a b : ℕ) → IsLog m a es b → a ≤ b
IsLog-le m [] a b l = omega arith
IsLog-le m (e ∷ es) a b l = omega (arith, IsLog-le m es (a + entry_length e) b l.1)

pub IsLog-Agree :
    (m m' : Mem) (es : List Entry) (a b : ℕ) → Agree m m' a b → IsLog m a es b → IsLog m' a es b
IsLog-Agree m m' [] a b same l = l
IsLog-Agree m m' (e ∷ es) a b same l =
    let tail = IsLog-le m es (a + entry_length e) b l.1 in
    (
      Holds-Agree m' (λ x lo hi. same x lo (omega arith)) l.0,
      IsLog-Agree m m' es (a + entry_length e) b (λ x lo hi. same x (omega arith) hi) l.1,
    )

pub IsLog-append :
    (m : Mem) (es : List Entry) (a b : ℕ) (e : Entry)
    → IsLog m a es b
    → Holds m b e
    → IsLog m a (es ++ e ∷ []) (b + entry_length e)
IsLog-append m [] a b e l h = (rw l h, ap (λ x. x + entry_length e) l)
IsLog-append m (d ∷ es) a b e l h = (l.0, IsLog-append m es (a + entry_length d) b e l.1 h)
