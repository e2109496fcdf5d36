-- ===== src/Base/Numbers.antt =====
-- Boolean tests on the native numbers.
use Prim.Native.Nat.{ℕ, compare, Ordering}
use mathlib.Core.Bool.{Bool, true, false}

abbrev pub ltb : ℕ → ℕ → Bool
ltb a b = elim (compare a b) [ Ordering.lt ↦ true | _ ↦ false ]

abbrev pub leb : ℕ → ℕ → Bool
leb a b = elim (compare a b) [ Ordering.gt ↦ false | _ ↦ true ]

abbrev pub num_eq : ℕ → ℕ → Bool
num_eq a b = elim (compare a b) [ Ordering.eq ↦ true | _ ↦ false ]
