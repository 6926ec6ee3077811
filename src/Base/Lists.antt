-- ===== src/Base/Lists.antt =====
-- Lists measured and indexed by native numbers, and the predicate that all entries satisfy another.
use Prim.Native.Nat.{ℕ, zero, suc, ◌+◌}
use mathlib.Core.Path.{◌≡◌, refl, sym, subst}
use mathlib.Core.Logic.{◌⊎◌, inl, inr}
use mathlib.Core.List.{List, [], ◌∷◌, ◌++◌}
use mathlib.Core.Option.{Option, none, some}
use native.Mathlib.Omega.{arith}

module _ {ℓ} {A : Type ℓ} where
  abbrev pub length : List A → ℕ
  length [] = 0
  length (x ∷ xs) = suc (length xs)

  abbrev pub get_elem? : List A → ℕ → Option A
  get_elem? [] i = none
  get_elem? (x ∷ xs) zero = some x
  get_elem? (x ∷ xs) (suc i) = get_elem? xs i

  abbrev pub take : ℕ → List A → List A
  take zero xs = []
  take (suc n) [] = []
  take (suc n) (x ∷ xs) = x ∷ take n xs

  abbrev pub drop : ℕ → List A → List A
  drop zero xs = xs
  drop (suc n) [] = []
  drop (suc n) (x ∷ xs) = drop n xs

  pub length-append : (xs ys : List A) → length (xs ++ ys) ≡ length xs + length ys
  length-append [] ys = omega arith
  length-append (x ∷ xs) ys = omega (arith, length-append xs ys)

  abbrev pub All {κ} : (A → Type κ) → List A → Type κ
  All P [] = Unit
  All P (x ∷ xs) = P x × All P xs

  pub All-map {κ μ} :
      (P : A → Type κ) (Q : A → Type μ) (xs : List A) → ((x : A) → P x → Q x) → All P xs → All Q xs
  All-map P Q [] f h = tt
  All-map P Q (x ∷ xs) f (p, ps) = (f x p, All-map P Q xs f ps)

  pub All-append {κ} :
      (P : A → Type κ) (xs : List A) (y : A) → All P xs → P y → All P (xs ++ y ∷ [])
  All-append P [] y h q = (q, tt)
  All-append P (x ∷ xs) y (p, ps) q = (p, All-append P xs y ps q)

  pub All-join {κ} : (P : A → Type κ) (xs ys : List A) → All P xs → All P ys → All P (xs ++ ys)
  All-join P [] ys h k = k
  All-join P (x ∷ xs) ys (p, h) k = (p, All-join P xs ys h k)

  -- Where an entry stands in a list.
  pub data In (a : A) : List A → Type ℓ where
    first : {x : A} {xs : List A} → a ≡ x → In a (x ∷ xs)
    later : {x : A} {xs : List A} → In a xs → In a (x ∷ xs)

  pub All-In {κ} : (P : A → Type κ) (xs : List A) (a : A) → All P xs → In a xs → P a
  All-In P [] a u i = elim i [ ]
  All-In P (x ∷ xs) a (p, ps) (first e) = subst P (sym e) p
  All-In P (x ∷ xs) a (p, ps) (later i) = All-In P xs a ps i

  pub All-of_In {κ} : (P : A → Type κ) (xs : List A) → ((a : A) → In a xs → P a) → All P xs
  All-of_In P [] f = tt
  All-of_In P (x ∷ xs) f = (f x (first refl), All-of_In P xs (λ a i. f a (later i)))

  pub In-append : (a : A) (xs : List A) (y : A) → In a (xs ++ y ∷ []) → In a xs ⊎ (a ≡ y)
  In-append a [] y (first e) = inr e
  In-append a [] y (later i) = elim i [ ]
  In-append a (x ∷ xs) y (first e) = inl (first e)
  In-append a (x ∷ xs) y (later i) = elim (In-append a xs y i) [
    | inl h ↦ inl (later h)
    | inr e ↦ inr e
  ]
