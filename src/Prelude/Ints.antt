-- ===== src/Prelude/Ints.antt =====
-- Go's `int` as strconv reads and prints it: `Itoa` and `Atoi`.
use Prim.Native.Nat.{ℕ, zero, suc, ◌+◌, ◌-◌, ◌*◌, ◌^◌}
use mathlib.Core.Path.{◌≡◌}
use mathlib.Core.Logic.{◌↔◌}
use mathlib.Core.Bool.{Bool, true, false, ◌&&◌}
use mathlib.Core.List.{[], ◌∷◌}
use mathlib.Core.Option.{Option, none, some}
use native.Mathlib.Omega.{arith}
use spectre.Prelude.Tests.{leb, if◌then◌else◌}
use spectre.Prelude.EqClass.{Eq, ◌==◌, eq_iff, nat_eq, Text, decimal}

pub data ℤ : Type 0 where
  pos negsuc : ℕ → ℤ

abbrev pub int_beq : ℤ → ℤ → Bool
int_beq (pos m) (pos n) = m == n
int_beq (negsuc m) (negsuc n) = m == n
int_beq _ _ = false

pub int_beq_iff : (a b : ℤ) → (int_beq a b ≡ true) ↔ (a ≡ b)
int_beq_iff (pos m) (pos n) = let i = eq_iff m n in (λ h. ground arith, λ h. ground arith)
int_beq_iff (pos m) (negsuc n) = (λ h. cc, λ h. cc)
int_beq_iff (negsuc m) (pos n) = (λ h. cc, λ h. cc)
int_beq_iff (negsuc m) (negsuc n) = let i = eq_iff m n in (λ h. ground arith, λ h. ground arith)

instance abbrev pub int_eq : Eq ℤ
int_eq = record { beq = int_beq; beq_iff = int_beq_iff }

-- `strconv.Itoa`.
abbrev pub itoa : ℤ → Text
itoa (pos n) = decimal n
itoa (negsuc n) = 45 ∷ decimal (suc n)

is_digit : ℕ → Bool
is_digit c = leb 48 c && leb c 57

-- The number that a run of digits adds to; none at any other byte.
digits_from : ℕ → Text → Option ℕ
unfolding is_digit
digits_from n [] = some n
digits_from n (c ∷ cs) =
    let rest = digits_from (10 * n + (c - 48)) cs in if is_digit c then rest else none

unsigned : Text → Option ℕ
unfolding digits_from
unsigned [] = none
unsigned (c ∷ cs) = digits_from 0 (c ∷ cs)

at_most : ℕ → Option ℕ → Option ℕ
at_most n none = none
at_most n (some m) = if leb m n then some m else none

positive : Option ℕ → Option ℤ
positive none = none
positive (some n) = some (pos n)

negative : Option ℕ → Option ℤ
negative none = none
negative (some zero) = some (pos 0)
negative (some (suc n)) = some (negsuc n)

from_sign : ℕ → Text → Option ℤ
unfolding unsigned at_most positive negative
from_sign c cs =
    if c == 45
    then negative (at_most (2 ^ 63) (unsigned cs))
    else if c == 43
    then positive (at_most (2 ^ 63 - 1) (unsigned cs))
    else positive (at_most (2 ^ 63 - 1) (unsigned (c ∷ cs)))

-- `strconv.Atoi` on an int of 64 bits; none is an error.
unfoldable pub atoi : Text → Option ℤ
unfolding from_sign
atoi [] = none
atoi (c ∷ cs) = from_sign c cs
