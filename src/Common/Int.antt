-- ===== src/Common/Int.antt =====
-- Python's integers.
use Prim.Native.Nat.{ℕ, zero, suc, ◌+◌, ◌-◌, ◌*◌, ◌/◌}
use Prim.Native.String.{String, ◌++◌, slice}
use tenjin.Common.Tests.{leb, ltb, ◌==◌, if◌then◌else◌}
use mathlib.Core.Bool.{Bool}

-- `negsuc n` is -(n + 1).
pub data ℤ : Type 0 where
  pos : ℕ → ℤ
  negsuc : ℕ → ℤ

infixl 65 ◌+ℤ◌
abbrev pub ◌+ℤ◌ : ℤ → ℤ → ℤ
pos a +ℤ pos b = pos (a + b)
pos a +ℤ negsuc b = if ltb b a then pos (a - (b + 1)) else negsuc (b - a)
negsuc a +ℤ pos b = if ltb a b then pos (b - (a + 1)) else negsuc (a - b)
negsuc a +ℤ negsuc b = negsuc (a + b + 1)

-- `a <= b`
abbrev pub leℤ : ℤ → ℤ → Bool
leℤ (pos a) (pos b) = leb a b
leℤ (pos a) (negsuc b) = Bool.false
leℤ (negsuc a) (pos b) = Bool.true
leℤ (negsuc a) (negsuc b) = leb b a

-- `min(a, b)`
abbrev pub minℤ : ℤ → ℤ → ℤ
minℤ a b = if leℤ a b then a else b

-- the digit of a number below ten
abbrev digit : ℕ → String
digit d = slice "0123456789" d (d + 1)

-- the decimal digits of `n`, at most `fuel` of them
unfoldable decimal : ℕ → ℕ → String
decimal zero n = ""
decimal (suc fuel) n =
    let rest = decimal fuel (n / 10) in
    if ltb n 10 then digit n else rest ++ digit (n - 10 * (n / 10))

-- `str(n)`; a number has fewer digits than `n + 1`.
unfoldable pub str_of_int : ℤ → String
unfolding decimal
str_of_int (pos n) = decimal (suc n) n
str_of_int (negsuc n) = "-" ++ decimal (suc (suc n)) (suc n)

-- `-a`
abbrev pub negℤ : ℤ → ℤ
negℤ (pos zero) = pos zero
negℤ (pos (suc n)) = negsuc n
negℤ (negsuc n) = pos (suc n)

-- `2 * a`
abbrev pub double : ℤ → ℤ
double a = a +ℤ a

-- `a == b`
abbrev pub eqℤ : ℤ → ℤ → Bool
eqℤ (pos a) (pos b) = a == b
eqℤ (pos a) (negsuc b) = Bool.false
eqℤ (negsuc a) (pos b) = Bool.false
eqℤ (negsuc a) (negsuc b) = a == b
