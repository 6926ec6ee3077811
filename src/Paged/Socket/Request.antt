-- ===== src/Paged/Socket/Request.antt =====
-- The bytes of a request, from the client's buffer to the handler's: `getSocketRspOnReq` of
-- journal/PageProvider.cpp and paged/PageSocketStruct.h.
use option_hedge.Base.{
  ℕ, zero, suc, ◌+◌, ◌-◌, ◌^◌, ◌<◌, ◌≤◌, ◌≡◌, ◌⊎◌, refl, ap, ◌∙◌, arith, inl, inr, some, [], ◌∷◌,
  ◌++◌, length, length-append, All, take,
}
use option_hedge.Base.Text.{Text}
use option_hedge.Base.Memory.{
  Mem, load, blit, set_byte, bytes_at, load_cong, bytes_at_cong, load-store_self, load-store_apart,
  load-blit_apart, bytes_at-blit_self, bytes_at-store_apart, blit-outside,
}
use option_hedge.Paged.Socket.{request_type_code, PagedSocketRequest, socket_message_max_length}
use option_hedge.Paged.Socket.Wire.{type_of, write_request, text_at, read_request, request_length}

pub text_at-bytes_at :
    (n a : ℕ) (cs : Text) (m : Mem)
    → All (λ c. 0 < c) cs
    → length cs < n
    → bytes_at (length (cs ++ 0 ∷ [])) a m ≡ cs ++ 0 ∷ []
    → text_at n a m ≡ some cs
unfolding text_at bytes_at
text_at-bytes_at zero a cs m text h e = absurd (omega arith)
text_at-bytes_at (suc n) a [] m text h e = let at_end : m a ≡ 0 = cc e in rw at_end refl
text_at-bytes_at (suc n) a (c ∷ cs) m (more, text) h e =
    let here : m a ≡ c = cc e in
    let there : bytes_at (length (cs ++ 0 ∷ [])) (suc a) m ≡ cs ++ 0 ∷ [] = cc e in
    ground (arith, here, text_at-bytes_at n (suc a) cs m text (omega arith) there)

-- A request whose members fit the struct: the type is one that the header names, and the name is a text
-- with no NUL in it.
pub record IsRequest (req : PagedSocketRequest) : Type 0 where
  pub type_known : type_of (request_type_code req.type) ≡ req.type
  pub type_byte : request_type_code req.type < 2 ^ 8
  pub name_fits : length req.name < 30
  pub name_text : All (λ c. 0 < c) req.name
  pub pid_int : req.pid < 2 ^ 32
  pub source_short : req.source < 2 ^ 16

module _ (req : PagedSocketRequest) (junk : Mem) (is_request : IsRequest req) where
  name_length : length (req.name ++ 0 ∷ []) < 31
  name_length = omega (arith, length-append req.name (0 ∷ []), is_request.name_fits)

  load-write_request :
      (load 1 0 (write_request req junk) ≡ request_type_code req.type)
      × (load 4 31 (write_request req junk) ≡ req.pid)
      × (load 2 35 (write_request req junk) ≡ req.source)
      × (bytes_at (length (req.name ++ 0 ∷ [])) 1 (write_request req junk) ≡ req.name ++ 0 ∷ [])
  unfolding write_request
  load-write_request = (
    load-store_apart 1 0 2 35 req.source _ (omega arith)
        ∙ load-store_apart 1 0 4 31 req.pid _ (omega arith)
        ∙ load-blit_apart 1 0 1 (req.name ++ 0 ∷ []) _ (omega arith)
        ∙ load-store_self 1 0 (request_type_code req.type) _ (omega (arith, is_request.type_byte)),
    load-store_apart 4 31 2 35 req.source _ (omega arith)
        ∙ load-store_self 4 31 req.pid _ (omega (arith, is_request.pid_int)),
    load-store_self 2 35 req.source _ (omega (arith, is_request.source_short)),
    bytes_at-store_apart (length (req.name ++ 0 ∷ [])) 1 2 35 req.source _
          (omega (arith, name_length))
        ∙ bytes_at-store_apart (length (req.name ++ 0 ∷ [])) 1 4 31 req.pid _
            (omega (arith, name_length))
        ∙ bytes_at-blit_self 1 (req.name ++ 0 ∷ []) _,
  )

  -- Any memory that has the request's bytes reads as the request.
  pub read_request_of :
      (m : Mem)
      → ((x : ℕ) → x < request_length → m x ≡ write_request req junk x)
      → read_request m ≡ some req
  unfolding read_request
  read_request_of m same =
      let (t, pid, source, name) = load-write_request in
      let t' = load_cong 1 0 m (write_request req junk) (λ x l u. same x (omega arith)) ∙ t in
      let pid' = load_cong 4 31 m (write_request req junk) (λ x l u. same x (omega arith)) ∙ pid in
      let source' =
        load_cong 2 35 m (write_request req junk) (λ x l u. same x (omega arith)) ∙ source in
      let bytes =
        bytes_at_cong (length (req.name ++ 0 ∷ [])) 1 m (write_request req junk)
          (λ x l u. same x (omega (arith, name_length)))
        ∙ name in
      let text : text_at (socket_message_max_length - 1) 1 m ≡ some req.name =
        text_at-bytes_at (socket_message_max_length - 1) 1 req.name m is_request.name_text
          (omega (arith, is_request.name_fits)) bytes in
      ground (arith, text, t', pid', source', is_request.type_known)

first_or_later : (x a : ℕ) → a ≤ x → (x ≡ a) ⊎ (suc a ≤ x)
first_or_later x a lo = ground arith

pub blit-bytes_at :
    (n a : ℕ) (m d : Mem) (x : ℕ) → a ≤ x → x < a + n → blit a (bytes_at n a m) d x ≡ m x
unfolding blit bytes_at set_byte
blit-bytes_at zero a m d x lo hi = absurd (omega arith)
blit-bytes_at (suc n) a m d x lo hi = elim (first_or_later x a lo) [
  | inl here ↦
      blit-outside (suc a) (bytes_at n (suc a) m) (set_byte a (m a) d) x (inl (omega arith))
      ∙ ground arith
  | inr later ↦ blit-bytes_at n (suc a) m (set_byte a (m a) d) x later (omega arith)
]

pub take-bytes_at : (k n a : ℕ) (m : Mem) → n ≤ k → take k (bytes_at n a m) ≡ bytes_at n a m
unfolding bytes_at
take-bytes_at zero zero a m h = refl
take-bytes_at (suc k) zero a m h = refl
take-bytes_at zero (suc n) a m h = absurd (omega arith)
take-bytes_at (suc k) (suc n) a m h =
    ap (λ xs. m a ∷ xs) (take-bytes_at k n (suc a) m (omega arith))

-- A message of at most 500 bytes, copied to the front of a buffer by one end of the socket, has there
-- the bytes that it has at the other end.
pub received :
    (n : ℕ) (sent m : Mem) (x : ℕ)
    → n ≤ socket_message_max_length
    → x < n
    → blit 0 (take socket_message_max_length (bytes_at n 0 sent)) m x ≡ sent x
received n sent m x fits inside =
    ap (λ bs. blit 0 bs m x) (take-bytes_at socket_message_max_length n 0 sent fits)
    ∙ blit-bytes_at n 0 sent m x (omega arith) (omega arith)
