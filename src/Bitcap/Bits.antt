-- ===== src/Bitcap/Bits.antt =====
-- The binary digits of `bit_and`.
use Prim.Native.Nat.{bit_and, bit_and-bitwise, digits, min}
use v_c_agentd.Prelude.{ℕ, zero, suc, ◌+◌, ◌*◌, ◌/◌, ◌%◌, ◌^◌, ◌≤◌, ◌≡◌, refl, ap, ◌∙◌, ◌==◌, arith}

-- the digit of a power of two
unfoldable pub digit : ℕ → ℕ → ℕ
digit zero a = a % 2
digit (suc k) a = digit k (a / 2)

pub digit_le : (k a : ℕ) → digit k a ≤ 1
unfolding digit
digit_le zero a = omega arith
digit_le (suc k) a = digit_le k (a / 2)

-- More digits to go than the number has change nothing.
enough : (n m a b : ℕ) → a ≤ n → a ≤ m → digits (λ b. zero) min n a b ≡ digits (λ b. zero) min m a b
enough zero m zero b p q = elim m as (λ k. zero ≡ digits (λ b. zero) min k zero b) [
  | zero ↦ refl
  | suc k ↦ refl
]
enough (suc n) m zero b p q = elim m as (λ k. zero ≡ digits (λ b. zero) min k zero b) [
  | zero ↦ refl
  | suc k ↦ refl
]
enough zero m (suc a) b p q = absurd (omega arith)
enough (suc n) zero (suc a) b p q = absurd (omega arith)
enough (suc n) (suc m) (suc a) b p q =
    omega (arith, enough n m (suc a / 2) (b / 2) (omega arith) (omega arith))

unfold_and : (a b : ℕ) → bit_and a b ≡ digits (λ b. zero) min a a b
unfold_and a b = bit_and-bitwise a b

-- `bit_and` by its lowest digit and the others
pub bit_and-halves : (a b : ℕ) → bit_and a b ≡ 2 * bit_and (a / 2) (b / 2) + min (a % 2) (b % 2)
bit_and-halves zero b = omega (arith, unfold_and 0 b, unfold_and 0 (b / 2))
bit_and-halves (suc a) b = omega (
  arith,
  unfold_and (suc a) b,
  unfold_and (suc a / 2) (b / 2),
  enough (suc a / 2) a (suc a / 2) (b / 2) (omega arith) (omega arith),
)

pub digit-bit_and : (k a b : ℕ) → digit k (bit_and a b) ≡ min (digit k a) (digit k b)
unfolding digit
digit-bit_and zero a b = omega (arith, bit_and-halves a b)
digit-bit_and (suc k) a b = ap (digit k) half ∙ digit-bit_and k (a / 2) (b / 2)
  where
    half : bit_and a b / 2 ≡ bit_and (a / 2) (b / 2)
    half = omega (arith, bit_and-halves a b)

bit_and-zero : (n a : ℕ) → a ≤ n → bit_and a 0 ≡ 0
bit_and-zero zero zero h = unfold_and 0 0
bit_and-zero zero (suc a) h = absurd (omega arith)
bit_and-zero (suc n) zero h = unfold_and 0 0
bit_and-zero (suc n) (suc a) h =
    omega (arith, bit_and-halves (suc a) 0, bit_and-zero n (suc a / 2) (omega arith))

-- A test against a power of two tests the digit.
pub bit_and-power : (k a : ℕ) → (bit_and a (2 ^ k) == 0) ≡ (digit k a == 0)
unfolding digit
bit_and-power zero a =
    ap (λ n. n == 0) (omega (arith, bit_and-halves a 1, bit_and-zero (a / 2) (a / 2) (omega arith)))
bit_and-power (suc k) a =
    ap (λ n. n == 0) split ∙ twice (bit_and (a / 2) (2 ^ k)) ∙ bit_and-power k (a / 2)
  where
    half : 2 ^ suc k / 2 ≡ 2 ^ k
    half = omega arith

    split : bit_and a (2 ^ suc k) ≡ 2 * bit_and (a / 2) (2 ^ k)
    split = omega (arith, bit_and-halves a (2 ^ suc k), ap (bit_and (a / 2)) half)

    twice : (n : ℕ) → (2 * n == 0) ≡ (n == 0)
    twice n = ground arith
