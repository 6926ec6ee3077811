-- ===== src/Base/Memory.antt =====
-- Byte memory: little-endian words and block copies, as a packed struct and `memcpy` use them.
use Prim.Native.Nat.{ℕ, zero, suc, ◌+◌, ◌*◌, ◌/◌, ◌%◌, ◌≤◌, ◌<◌}
use mathlib.Core.Path.{◌≡◌, refl, ◌∙◌}
use mathlib.Core.Logic.{◌⊎◌, inl}
use mathlib.Core.List.{List, [], ◌∷◌}
use native.Mathlib.Omega.{arith}
use option_hedge.Base.Tests.{◌==◌, if◌then◌else◌}
use option_hedge.Base.Lists.{length}

-- The byte at each address.
abbrev pub Mem : Type 0
Mem = ℕ → ℕ

unfoldable pub set_byte : ℕ → ℕ → Mem → Mem
set_byte a v m x = if x == a then v else m x

-- The number in the `k` bytes at `a`, lowest first.
unfoldable pub load : ℕ → ℕ → Mem → ℕ
load zero a m = 0
load (suc k) a m = m a + 256 * load k (suc a) m

unfoldable pub store : ℕ → ℕ → ℕ → Mem → Mem
unfolding set_byte
store zero a v m = m
store (suc k) a v m = store k (suc a) (v / 256) (set_byte a (v % 256) m)

-- `memcpy (a, bytes)`
unfoldable pub blit : ℕ → List ℕ → Mem → Mem
unfolding set_byte
blit a [] m = m
blit a (b ∷ bs) m = blit (suc a) bs (set_byte a b m)

unfoldable pub bytes_at : ℕ → ℕ → Mem → List ℕ
bytes_at zero a m = []
bytes_at (suc n) a m = m a ∷ bytes_at n (suc a) m

-- 256 ^ k
abbrev pub span : ℕ → ℕ
span zero = 1
span (suc k) = 256 * span k

abbrev pub IsOutside : ℕ → ℕ → ℕ → Type 0
IsOutside x a n = (x < a) ⊎ (a + n ≤ x)

pub store-outside : (k a v : ℕ) (m : Mem) (x : ℕ) → IsOutside x a k → store k a v m x ≡ m x
unfolding store
store-outside zero a v m x h = refl
store-outside (suc k) a v m x h =
    store-outside k (suc a) (v / 256) (set_byte a (v % 256) m) x (omega arith) ∙ ground arith

pub blit-outside :
    (a : ℕ) (bs : List ℕ) (m : Mem) (x : ℕ) → IsOutside x a (length bs) → blit a bs m x ≡ m x
unfolding blit
blit-outside a [] m x h = refl
blit-outside a (b ∷ bs) m x h =
    blit-outside (suc a) bs (set_byte a b m) x (omega arith) ∙ ground arith

-- A word depends on its own bytes.
pub load_cong :
    (k a : ℕ) (m m' : Mem) → ((x : ℕ) → a ≤ x → x < a + k → m x ≡ m' x) → load k a m ≡ load k a m'
unfolding load
load_cong zero a m m' h = refl
load_cong (suc k) a m m' h = omega (
  arith,
  h a (omega arith) (omega arith),
  load_cong k (suc a) m m' (λ x l u. h x (omega arith) (omega arith)),
)

pub bytes_at_cong :
    (n a : ℕ) (m m' : Mem)
    → ((x : ℕ) → a ≤ x → x < a + n → m x ≡ m' x)
    → bytes_at n a m ≡ bytes_at n a m'
unfolding bytes_at
bytes_at_cong zero a m m' h = refl
bytes_at_cong (suc n) a m m' h =
    let first = h a (omega arith) (omega arith) in
    let rest = bytes_at_cong n (suc a) m m' (λ x l u. h x (omega arith) (omega arith)) in
    cc (first, rest)

-- What is stored in a word is read back, if it fits.
pub load-store_self : (k a v : ℕ) (m : Mem) → v < span k → load k a (store k a v m) ≡ v
unfolding load store
load-store_self zero a v m h = omega arith
load-store_self (suc k) a v m h = omega (
  arith,
  load-store_self k (suc a) (v / 256) (set_byte a (v % 256) m) (omega arith),
  store-outside k (suc a) (v / 256) (set_byte a (v % 256) m) a (inl (omega arith)),
  byte,
)
  where
    byte : set_byte a (v % 256) m a ≡ v % 256
    byte = ground arith

abbrev pub IsApart : ℕ → ℕ → ℕ → ℕ → Type 0
IsApart a n b k = (a + n ≤ b) ⊎ (b + k ≤ a)

pub load-store_apart :
    (j b k a v : ℕ) (m : Mem) → IsApart b j a k → load j b (store k a v m) ≡ load j b m
load-store_apart j b k a v m h =
    load_cong j b (store k a v m) m (λ x l u. store-outside k a v m x (omega arith))

pub load-blit_apart :
    (j b a : ℕ) (bs : List ℕ) (m : Mem)
    → IsApart b j a (length bs)
    → load j b (blit a bs m) ≡ load j b m
load-blit_apart j b a bs m h =
    load_cong j b (blit a bs m) m (λ x l u. blit-outside a bs m x (omega arith))

pub bytes_at-store_apart :
    (n b k a v : ℕ) (m : Mem) → IsApart b n a k → bytes_at n b (store k a v m) ≡ bytes_at n b m
bytes_at-store_apart n b k a v m h =
    bytes_at_cong n b (store k a v m) m (λ x l u. store-outside k a v m x (omega arith))

-- What is copied is read back.
pub bytes_at-blit_self : (a : ℕ) (bs : List ℕ) (m : Mem) → bytes_at (length bs) a (blit a bs m) ≡ bs
unfolding bytes_at blit
bytes_at-blit_self a [] m = refl
bytes_at-blit_self a (b ∷ bs) m =
    let rest = bytes_at-blit_self (suc a) bs (set_byte a b m) in
    let first = blit-outside (suc a) bs (set_byte a b m) a (inl (omega arith)) in
    let byte : set_byte a b m a ≡ b = ground arith in cc (rest, first, byte)
