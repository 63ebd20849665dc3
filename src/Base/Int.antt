-- ===== src/Base/Int.antt =====
-- The values of a C `int`, as far as the code compares and returns them.
use Prim.Native.Nat.{ℕ, zero, suc, compare, Ordering}
use mathlib.Core.Bool.{Bool, true, false}

-- `negsuc n` is -(n + 1).
pub data ℤ : Type 0 where
  pos : ℕ → ℤ
  negsuc : ℕ → ℤ

-- -n
abbrev pub minus : ℕ → ℤ
minus zero = pos 0
minus (suc n) = negsuc n

-- v < 0, 0 < v and v ≠ 0
abbrev pub is_neg : ℤ → Bool
is_neg (pos n) = false
is_neg (negsuc n) = true

abbrev pub is_pos : ℤ → Bool
is_pos (pos zero) = false
is_pos (pos (suc n)) = true
is_pos (negsuc n) = false

abbrev pub is_nonzero : ℤ → Bool
is_nonzero (pos zero) = false
is_nonzero (pos (suc n)) = true
is_nonzero (negsuc n) = true

-- v = w
abbrev pub int_eq : ℤ → ℤ → Bool
int_eq (pos a) (pos b) = elim (compare a b) [ Ordering.eq ↦ true | _ ↦ false ]
int_eq (pos a) (negsuc b) = false
int_eq (negsuc a) (pos b) = false
int_eq (negsuc a) (negsuc b) = elim (compare a b) [ Ordering.eq ↦ true | _ ↦ false ]

-- The error numbers that the code returns, negated, and the one that it tests for.
abbrev pub e_srch : ℤ
e_srch = minus 3

abbrev pub e_nomem : ℤ
e_nomem = minus 12

abbrev pub e_nodev : ℤ
e_nodev = minus 19

abbrev pub e_inval : ℤ
e_inval = minus 22

abbrev pub e_msgsize : ℤ
e_msgsize = minus 90
