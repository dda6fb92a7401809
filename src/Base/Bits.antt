-- ===== src/Base/Bits.antt =====
-- Masks on one byte as arithmetic, by evaluation over every byte.
use Prim.Native.Nat.{ℕ, zero, suc, ◌+◌, ◌*◌, ◌/◌, ◌%◌, ◌<◌, bit_and, bit_or}
use mathlib.Core.Path.{◌≡◌, refl}
use mathlib.Core.Bool.{Bool, true, ◌&&◌}
use native.Mathlib.Omega.{arith}
use mock_services.Base.Tests.{nat_eq, nat_eq_iff}

holds_below : ℕ → (ℕ → Bool) → Bool
holds_below zero p = true
holds_below (suc n) p = p n && holds_below n p

holds_below_sound : (n : ℕ) (p : ℕ → Bool) (b : ℕ) → holds_below n p ≡ true → b < n → p b ≡ true
unfolding holds_below
holds_below_sound zero p b h lt = absurd (omega arith)
holds_below_sound (suc n) p b h lt = ground (arith, holds_below_sound n p b)

module _ (f g : ℕ → ℕ) (n : ℕ) (table : holds_below n (λ b. nat_eq (f b) (g b)) ≡ true) where
  same_below : (b : ℕ) → b < n → f b ≡ g b
  same_below b h = (nat_eq_iff (f b) (g b)).0 (holds_below_sound n _ b table h)

pub and_0x7f : (b : ℕ) → b < 256 → bit_and b 0x7f ≡ b % 128
unfolding holds_below
and_0x7f = same_below (λ b. bit_and b 0x7f) (λ b. b % 128) 256 refl

pub and_0x80 : (b : ℕ) → b < 256 → bit_and b 0x80 ≡ b / 128 * 128
unfolding holds_below
and_0x80 = same_below (λ b. bit_and b 0x80) (λ b. b / 128 * 128) 256 refl

pub or_0x80 : (b : ℕ) → b < 128 → bit_or b 0x80 ≡ b + 128
unfolding holds_below
or_0x80 = same_below (λ b. bit_or b 0x80) (λ b. b + 128) 128 refl
