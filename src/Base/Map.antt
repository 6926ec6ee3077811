-- ===== src/Base/Map.antt =====
-- std::map, of which the code uses `find`, `operator []`, `erase` and `end`: a partial function.
use Prim.Native.Nat.{ℕ}
use mathlib.Core.Path.{◌≡◌, refl}
use mathlib.Core.Logic.{◌↔◌, ◌≢◌}
use mathlib.Core.Bool.{Bool, true, false}
use mathlib.Core.Option.{Option, none, some}
use native.Mathlib.Omega.{arith}
use option_hedge.Base.Tests.{if◌then◌else◌, ==_iff, ◌==◌ as nat_beq}
use option_hedge.Base.Text.{Text, text_eq, text_eq_iff}

pub record Eq {ℓ} (A : Type ℓ) : Type ℓ where
  pub beq : A → A → Bool
  pub beq_iff : (a b : A) → (beq a b ≡ true) ↔ (a ≡ b)

instance abbrev pub nat_eq : Eq ℕ
nat_eq = record { beq = nat_beq; beq_iff = ==_iff }

instance abbrev pub text_key : Eq Text
text_key = record { beq = text_eq; beq_iff = text_eq_iff }

abbrev pub Map : Type 0 → Type 0 → Type 0
Map K V = K → Option V

module _ {K V : Type 0} ⦃e : Eq K⦄ where
  abbrev pub insert : K → V → Map K V → Map K V
  insert k v m j = if e.beq j k then some v else m j

  abbrev pub erase : K → Map K V → Map K V
  erase k m j = if e.beq j k then none else m j

module _ {K : Type 0} ⦃e : Eq K⦄ where
  pub beq_refl : (k : K) → e.beq k k ≡ true
  beq_refl k = (e.beq_iff k k).1 refl

  pub beq_ne : (j k : K) → j ≢ k → e.beq j k ≡ false
  beq_ne j k h = ground (arith, e.beq_iff j k)
