-- ===== src/Paged/Socket/Reply.antt =====
-- The bytes of a response, from the handler's buffer to the client's: `process_msg` of
-- paged/PageSocketHandler.cpp and paged/PageSocketStruct.h.
use option_hedge.Base.{
  ℕ, ◌+◌, ◌-◌, ◌*◌, ◌^◌, ◌<◌, ◌≡◌, refl, ◌∙◌, arith, Bool, true, false, not, some, [], ◌∷◌, ◌++◌,
  length, length-append, All, ◌==◌,
}
use option_hedge.Base.Text.{Text}
use option_hedge.Base.Memory.{
  Mem, load, store, blit, bytes_at, load_cong, bytes_at_cong, load-store_self, load-store_apart,
  load-blit_apart, bytes_at-blit_self,
}
use option_hedge.Paged.Socket.{
  RequestType, request_type_code, rsp_journal, rsp_client, socket_message_max_length,
}
use option_hedge.Paged.Socket.Wire.{
  type_of, clear, text_at, write_base, write_response, read_rsp_journal, read_rsp_client, bool_code,
}
use option_hedge.Paged.Socket.Request.{text_at-bytes_at}

-- What both kinds of responses begin with.
module _ (t : RequestType) (success : Bool) (m : Mem) (known : type_of (request_type_code t) ≡ t)
    (byte : request_type_code t < 2 ^ 8) where
  load-write_base :
      (load 1 0 (write_base t success m) ≡ request_type_code t)
      × (load 1 1 (write_base t success m) ≡ bool_code success)
  unfolding write_base
  load-write_base = (
    load-store_apart 1 0 1 1 (bool_code success) _ (omega arith)
        ∙ load-store_self 1 0 (request_type_code t) m (omega arith),
    load-store_self 1 1 (bool_code success) _ (bool_byte success),
  )
    where
      bool_byte : (b : Bool) → bool_code b < 256 * 1
      bool_byte true = omega arith
      bool_byte false = omega arith

bool_back : (b : Bool) → not (bool_code b == 0) ≡ b
bool_back true = refl
bool_back false = refl

pub read_rsp_journal_of :
    (unset : ℕ) (t : RequestType) (success : Bool) (idx : ℕ) (m0 m : Mem)
    → type_of (request_type_code t) ≡ t
    → request_type_code t < 2 ^ 8
    → idx < 2 ^ 32
    → ((x : ℕ)
        → x < socket_message_max_length
        → m x ≡ write_response unset (rsp_journal t success idx) m0 x)
    → read_rsp_journal m ≡ rsp_journal t success idx
unfolding read_rsp_journal write_response
read_rsp_journal_of unset t success idx m0 m known byte idx_int same =
    let base = clear 108 0 m0 in
    let (first, second) = load-write_base t success base known byte in
    let w = store 4 104 idx (write_base t success base) in
    let t' : load 1 0 m ≡ request_type_code t =
      load_cong 1 0 m w (λ x l u. same x (omega arith))
      ∙ load-store_apart 1 0 4 104 idx (write_base t success base) (omega arith)
      ∙ first in
    let success' : load 1 1 m ≡ bool_code success =
      load_cong 1 1 m w (λ x l u. same x (omega arith))
      ∙ load-store_apart 1 1 4 104 idx (write_base t success base) (omega arith)
      ∙ second in
    let idx' : load 4 104 m ≡ idx =
      load_cong 4 104 m w (λ x l u. same x (omega arith))
      ∙ load-store_self 4 104 idx (write_base t success base) (omega arith) in
    rw (t', success', idx', known, bool_back success) refl

pub read_rsp_client_of :
    (unset : ℕ) (t : RequestType) (success : Bool) (file : Text) (size : ℕ) (m0 m : Mem)
    → type_of (request_type_code t) ≡ t
    → request_type_code t < 2 ^ 8
    → length file < 100
    → All (λ c. 0 < c) file
    → size < 2 ^ 32
    → ((x : ℕ)
        → x < socket_message_max_length
        → m x ≡ write_response unset (rsp_client t success file (some size)) m0 x)
    → read_rsp_client m ≡ some (rsp_client t success file (some size))
unfolding read_rsp_client write_response
read_rsp_client_of unset t success file size m0 m known byte fits text size_int same =
    let base = clear 208 0 m0 in
    let (first, second) = load-write_base t success base known byte in
    let sized = store 4 204 size (write_base t success base) in
    let w = blit 102 (file ++ 0 ∷ []) sized in
    let len : length (file ++ 0 ∷ []) ≡ length file + 1 = length-append file (0 ∷ []) in
    let t' : load 1 0 m ≡ request_type_code t =
      load_cong 1 0 m w (λ x l u. same x (omega arith))
      ∙ load-blit_apart 1 0 102 (file ++ 0 ∷ []) sized (omega arith)
      ∙ load-store_apart 1 0 4 204 size (write_base t success base) (omega arith)
      ∙ first in
    let success' : load 1 1 m ≡ bool_code success =
      load_cong 1 1 m w (λ x l u. same x (omega arith))
      ∙ load-blit_apart 1 1 102 (file ++ 0 ∷ []) sized (omega arith)
      ∙ load-store_apart 1 1 4 204 size (write_base t success base) (omega arith)
      ∙ second in
    let size' : load 4 204 m ≡ size =
      load_cong 4 204 m w (λ x l u. same x (omega arith))
      ∙ load-blit_apart 4 204 102 (file ++ 0 ∷ []) sized (omega (arith, len))
      ∙ load-store_self 4 204 size (write_base t success base) (omega arith) in
    let bytes : bytes_at (length (file ++ 0 ∷ [])) 102 m ≡ file ++ 0 ∷ [] =
      bytes_at_cong (length (file ++ 0 ∷ [])) 102 m w (λ x l u. same x (omega (arith, len)))
      ∙ bytes_at-blit_self 102 (file ++ 0 ∷ []) sized in
    let file' : text_at (socket_message_max_length - 102) 102 m ≡ some file =
      text_at-bytes_at (socket_message_max_length - 102) 102 file m text (omega arith) bytes in
    ground (arith, file', t', success', size', known, bool_back success)
