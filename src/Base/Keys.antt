-- ===== src/Base/Keys.antt =====
-- What the maps and searches of the servers need of a key: equality and an order.
use Prim.Native.Nat.{ℕ}
use mathlib.Core.Path.{◌≡◌}
use mathlib.Core.Logic.{◌↔◌}
use mathlib.Core.Bool.{Bool, true, false, ◌&&◌}
use native.Mathlib.Omega.{arith}
use mock_services.Base.Tests.{nat_eq, ltb, nat_eq_iff, if◌then◌else◌}
use mock_services.Base.Texts.{Text, text_eq, text_ltb, text_eq_iff}

pub record Key {ℓ} (K : Type ℓ) : Type ℓ where
  pub beq : K → K → Bool
  pub before : K → K → Bool
  pub beq_iff : (a b : K) → (beq a b ≡ true) ↔ (a ≡ b)

infix 50 ◌==◌
abbrev pub ◌==◌ {ℓ} : {K : Type ℓ} ⦃k : Key K⦄ → K → K → Bool
◌==◌ ⦃k⦄ = k.beq

instance abbrev pub nat_key : Key ℕ
nat_key = record { beq = nat_eq; before = ltb; beq_iff = nat_eq_iff }

instance abbrev pub text_key : Key Text
text_key = record { beq = text_eq; before = text_ltb; beq_iff = text_eq_iff }

-- Keys of two strings, as `std::pair` compares them.
abbrev pub pair_beq : Text × Text → Text × Text → Bool
pair_beq a b = text_eq a.0 b.0 && text_eq a.1 b.1

abbrev pub pair_before : Text × Text → Text × Text → Bool
pair_before a b =
    if text_ltb a.0 b.0 then true else if text_eq a.0 b.0 then text_ltb a.1 b.1 else false

pub pair_beq_iff : (a b : Text × Text) → (pair_beq a b ≡ true) ↔ (a ≡ b)
pair_beq_iff (a, b) (c, d) = ground (arith, text_eq_iff a c, text_eq_iff b d)

instance abbrev pub pair_key : Key (Text × Text)
pair_key = record { beq = pair_beq; before = pair_before; beq_iff = pair_beq_iff }
