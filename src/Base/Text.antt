-- ===== src/Base/Text.antt =====
-- C strings: the bytes before the terminating NUL, and `strcmp` on them.
use Prim.Native.Nat.{ℕ, compare, Ordering}
use Prim.Native.Char.{code}
use Prim.Native.String.{String}
use mathlib.Core.Path.{◌≡◌, refl}
use mathlib.Core.Logic.{◌↔◌}
use mathlib.Core.Bool.{Bool, true, false, ◌&&◌}
use mathlib.Core.List.{List, [], ◌∷◌}
use native.Mathlib.Omega.{arith}
use option_hedge.Base.Tests.{◌==◌}

abbrev pub Text : Type 0
Text = List ℕ

abbrev pub codes : String → Text
codes String.[] = []
codes (String.◌∷◌ c s) = code c ∷ codes s

-- The sign of `strcmp (a, b)`.
unfoldable pub strcmp : Text → Text → Ordering
strcmp [] [] = Ordering.eq
strcmp [] (y ∷ ys) = Ordering.lt
strcmp (x ∷ xs) [] = Ordering.gt
strcmp (x ∷ xs) (y ∷ ys) = elim (compare x y) [
  | Ordering.lt ↦ Ordering.lt
  | Ordering.eq ↦ strcmp xs ys
  | Ordering.gt ↦ Ordering.gt
]

-- `std::string` equality.
unfoldable pub text_eq : Text → Text → Bool
text_eq [] [] = true
text_eq [] (y ∷ ys) = false
text_eq (x ∷ xs) [] = false
text_eq (x ∷ xs) (y ∷ ys) = x == y && text_eq xs ys

pub text_eq_iff : (a b : Text) → (text_eq a b ≡ true) ↔ (a ≡ b)
unfolding text_eq
text_eq_iff [] [] = (λ _. refl, λ _. refl)
text_eq_iff [] (y ∷ ys) = (λ h. cc, λ h. cc)
text_eq_iff (x ∷ xs) [] = (λ h. cc, λ h. cc)
text_eq_iff (x ∷ xs) (y ∷ ys) =
    (λ h. ground (arith, text_eq_iff xs ys), λ h. ground (arith, text_eq_iff xs ys))

pub text_eq_refl : (a : Text) → text_eq a a ≡ true
text_eq_refl a = (text_eq_iff a a).1 refl

pub strcmp-eq_iff : (a b : Text) → (strcmp a b ≡ Ordering.eq) ↔ (a ≡ b)
unfolding strcmp
strcmp-eq_iff [] [] = (λ _. refl, λ _. refl)
strcmp-eq_iff [] (y ∷ ys) = (λ h. cc, λ h. cc)
strcmp-eq_iff (x ∷ xs) [] = (λ h. cc, λ h. cc)
strcmp-eq_iff (x ∷ xs) (y ∷ ys) =
    (λ h. ground (arith, strcmp-eq_iff xs ys), λ h. ground (arith, strcmp-eq_iff xs ys))

abbrev pub swapped : Ordering → Ordering
swapped Ordering.lt = Ordering.gt
swapped Ordering.eq = Ordering.eq
swapped Ordering.gt = Ordering.lt

-- Swapping the arguments swaps the sign.
pub strcmp_swap : (a b : Text) → strcmp b a ≡ swapped (strcmp a b)
unfolding strcmp
strcmp_swap [] [] = refl
strcmp_swap [] (y ∷ ys) = refl
strcmp_swap (x ∷ xs) [] = refl
strcmp_swap (x ∷ xs) (y ∷ ys) = ground (arith, strcmp_swap xs ys)

pub strcmp-lt_trans :
    (a b c : Text) → strcmp a b ≡ Ordering.lt → strcmp b c ≡ Ordering.lt → strcmp a c ≡ Ordering.lt
unfolding strcmp
strcmp-lt_trans [] [] c h k = cc
strcmp-lt_trans [] (y ∷ ys) [] h k = cc
strcmp-lt_trans [] (y ∷ ys) (z ∷ zs) h k = refl
strcmp-lt_trans (x ∷ xs) [] c h k = cc
strcmp-lt_trans (x ∷ xs) (y ∷ ys) [] h k = cc
strcmp-lt_trans (x ∷ xs) (y ∷ ys) (z ∷ zs) h k = ground (arith, strcmp-lt_trans xs ys zs)
