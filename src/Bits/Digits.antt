-- ===== src/Bits/Digits.antt =====
-- The native operations go digit by digit on fuel; one equation for the lowest digit frees them of it.
use Prim.Native.Nat.{digits, bit_and-bitwise, bit_or-bitwise}
use k2hash.Base.{ℕ, zero, suc, ◌+◌, ◌*◌, ◌/◌, ◌%◌, ◌≤◌, ◌≡◌, refl, bit_and, bit_or, arith, min, max}

-- More fuel than the number changes nothing.
module _ (rest : ℕ → ℕ) (op : ℕ → ℕ → ℕ) where
  digits_enough : (a b n m : ℕ) → a ≤ n → a ≤ m → digits rest op n a b ≡ digits rest op m a b
  digits_enough zero b zero zero p q = refl
  digits_enough zero b zero (suc m) p q = refl
  digits_enough zero b (suc n) zero p q = refl
  digits_enough zero b (suc n) (suc m) p q = refl
  digits_enough (suc a) b zero m p q = absurd (omega arith)
  digits_enough (suc a) b (suc n) zero p q = absurd (omega arith)
  digits_enough (suc a) b (suc n) (suc m) p q =
      rw (digits_enough (suc a / 2) (b / 2) n m (omega arith) (omega arith))

pub bit_and-halve : (a b : ℕ) → bit_and a b ≡ bit_and (a / 2) (b / 2) * 2 + min (a % 2) (b % 2)
bit_and-halve zero b = omega (arith, bit_and-bitwise 0 b, bit_and-bitwise 0 (b / 2))
bit_and-halve (suc a) b = omega (
  arith,
  bit_and-bitwise (suc a) b,
  bit_and-bitwise (suc a / 2) (b / 2),
  digits_enough (λ b. 0) min (suc a / 2) (b / 2) a (suc a / 2) (omega arith) (omega arith),
)

pub bit_or-halve : (a b : ℕ) → bit_or a b ≡ bit_or (a / 2) (b / 2) * 2 + max (a % 2) (b % 2)
bit_or-halve zero b = omega (arith, bit_or-bitwise 0 b, bit_or-bitwise 0 (b / 2))
bit_or-halve (suc a) b = omega (
  arith,
  bit_or-bitwise (suc a) b,
  bit_or-bitwise (suc a / 2) (b / 2),
  digits_enough (λ b. b) max (suc a / 2) (b / 2) a (suc a / 2) (omega arith) (omega arith),
)
