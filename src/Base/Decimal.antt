-- ===== src/Base/Decimal.antt =====
-- `std::to_string` of a non-negative number.
use Prim.Native.Nat.{ℕ, zero, suc, ◌+◌, ◌/◌, ◌%◌}
use mathlib.Core.List.{[], ◌∷◌, ◌++◌}
use mock_services.Base.Tests.{ltb, if◌then◌else◌}
use mock_services.Base.Texts.{Text}

-- The digits of `n`; each round takes one, so more rounds than `n` are never needed.
unfoldable pub digits : ℕ → ℕ → Text
digits zero n = []
digits (suc rounds) n =
    let front = digits rounds (n / 10) in
    let last : Text = (48 + n % 10) ∷ [] in if ltb n 10 then last else front ++ last

unfoldable pub to_string : ℕ → Text
unfolding digits
to_string n = digits (suc n) n
