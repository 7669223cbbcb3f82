-- ===== src/Base/Float.antt =====
-- Python's floats as the program meets them: no NaN, and -0.0 is 0.0. The operations are IEEE 754's
-- and are not given here; the laws are those of its comparisons, and two of its addition that hold
-- whatever is rounded.
use Prim.Native.Nat.{ℕ}
use mathlib.Core.Path.{◌≡◌}
use mathlib.Core.Bool.{Bool, true, false, not, ◌&&◌}
use mathlib.Core.Logic.{◌↔◌}
use native.Mathlib.Omega.{arith}
use poly_bob.Base.Tests.{Eq, if◌then◌else◌}

pub record Floats : Type 1 where
  pub Carrier : Type 0
  pub lt : Carrier → Carrier → Bool
  pub add : Carrier → Carrier → Carrier
  pub sub : Carrier → Carrier → Carrier
  pub mul : Carrier → Carrier → Carrier
  -- Python raises on a zero divisor: the program tests for it before it divides.
  pub div : Carrier → Carrier → Carrier
  pub neg : Carrier → Carrier
  pub sqrt : Carrier → Carrier
  -- `literal n d` is the float nearest to n / 10 ^ d, so `literal 5 2` is 0.05.
  pub literal : ℕ → ℕ → Carrier
  -- `round(x, 4)`
  pub round_4 : Carrier → Carrier
  pub lt_irrefl : (a : Carrier) → lt a a ≡ false
  pub lt_trans : (a b c : Carrier) → lt a b ≡ true → lt b c ≡ true → lt a c ≡ true
  pub lt_connex : (a b : Carrier) → lt a b ≡ false → lt b a ≡ false → a ≡ b
  pub zero_add : (a : Carrier) → add (literal 0 0) a ≡ a
  -- A sum of two positive floats is positive.
  pub add_pos :
      (a b : Carrier)
      → lt (literal 0 0) a ≡ true
      → lt (literal 0 0) b ≡ true
      → lt (literal 0 0) (add a b) ≡ true

abbrev pub Float : ⦃fl : Floats⦄ → Type 0
Float ⦃fl⦄ = fl.Carrier

module _ ⦃fl : Floats⦄ where
  infix 50 ◌<f◌ ◌≤f◌ ◌==f◌
  abbrev pub ◌<f◌ : Float → Float → Bool
  a <f b = fl.lt a b

  abbrev pub ◌≤f◌ : Float → Float → Bool
  a ≤f b = not (fl.lt b a)

  abbrev pub ◌==f◌ : Float → Float → Bool
  a ==f b = not (fl.lt a b) && not (fl.lt b a)

  infixl 65 ◌+f◌ ◌-f◌
  infixl 70 ◌*f◌ ◌/f◌
  abbrev pub ◌+f◌ : Float → Float → Float
  a +f b = fl.add a b

  abbrev pub ◌-f◌ : Float → Float → Float
  a -f b = fl.sub a b

  abbrev pub ◌*f◌ : Float → Float → Float
  a *f b = fl.mul a b

  abbrev pub ◌/f◌ : Float → Float → Float
  a /f b = fl.div a b

  abbrev pub lit : ℕ → ℕ → Float
  lit n d = fl.literal n d

  abbrev pub 0f : Float
  0f = fl.literal 0 0

  abbrev pub 1f : Float
  1f = fl.literal 1 0

  -- `abs(x)`
  unfoldable pub abs : Float → Float
  abs x = if x <f 0f then fl.neg x else x

  pub ==f_refl : (a : Float) → (a ==f a) ≡ true
  ==f_refl a = ground (arith, fl.lt_irrefl a)

  pub ==f_iff : (a b : Float) → ((a ==f b) ≡ true) ↔ (a ≡ b)
  ==f_iff a b = (λ h. ground (arith, fl.lt_connex a b), λ h. rw h (==f_refl b))

  pub lt_asymm : (a b : Float) → (a <f b) ≡ true → (b <f a) ≡ false
  lt_asymm a b h = ground (arith, fl.lt_trans a b a, fl.lt_irrefl a)

  -- Prices are dictionary keys.
  instance abbrev pub float_eq : Eq Float
  float_eq = record { beq = ◌==f◌; beq_iff = ==f_iff }
