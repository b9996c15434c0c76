-- ===== src/Base/Xor.antt =====
-- Exclusive or of binary digits: it is undone by itself, and stays below a power of two.
use Prim.Native.Nat.{digits, differ, bit_xor-bitwise}
use itrustee_tzdriver.Base.{ℕ, zero, suc, ◌+◌, ◌*◌, ◌/◌, ◌%◌, ◌≤◌, ◌<◌, ◌≡◌, refl, ap, ◌∙◌, arith}
use itrustee_tzdriver.Base.Pow.{pow2}
pub use Prim.Native.Nat.{bit_xor}

abbrev xor_digits : ℕ → ℕ → ℕ → ℕ
xor_digits n a b = digits (λ b. b) differ n a b

xor_digits_fuel : (n m a b : ℕ) → a ≤ n → a ≤ m → xor_digits n a b ≡ xor_digits m a b
xor_digits_fuel zero zero a b p q = refl
xor_digits_fuel zero (suc m) zero b p q = refl
xor_digits_fuel zero (suc m) (suc a) b p q = absurd (omega arith)
xor_digits_fuel (suc n) zero zero b p q = refl
xor_digits_fuel (suc n) zero (suc a) b p q = absurd (omega arith)
xor_digits_fuel (suc n) (suc m) zero b p q = refl
xor_digits_fuel (suc n) (suc m) (suc a) b p q =
    omega (arith, xor_digits_fuel n m (suc a / 2) (b / 2) (omega arith) (omega arith))

zero-bit_xor : (b : ℕ) → bit_xor 0 b ≡ b
zero-bit_xor b = bit_xor-bitwise 0 b

differ_zero : (y : ℕ) → differ 0 y ≡ y
differ_zero y = refl

bit_xor_step : (a b : ℕ) → bit_xor a b ≡ bit_xor (a / 2) (b / 2) * 2 + differ (a % 2) (b % 2)
bit_xor_step zero b = omega (arith, zero-bit_xor b, zero-bit_xor (b / 2), differ_zero (b % 2))
bit_xor_step (suc a) b = omega (
  arith,
  bit_xor-bitwise (suc a) b,
  bit_xor-bitwise (suc a / 2) (b / 2),
  xor_digits_fuel a (suc a / 2) (suc a / 2) (b / 2) (omega arith) (omega arith),
)

-- On digits.
differ_digits : (x y : ℕ) → x < 2 → y < 2 → (differ x y < 2) × (differ (differ x y) y ≡ x)
differ_digits zero zero p q = (omega arith, refl)
differ_digits zero (suc zero) p q = (omega arith, refl)
differ_digits (suc zero) zero p q = (omega arith, refl)
differ_digits (suc zero) (suc zero) p q = (omega arith, refl)
differ_digits (suc (suc x)) y p q = absurd (omega arith)
differ_digits zero (suc (suc y)) p q = absurd (omega arith)
differ_digits (suc zero) (suc (suc y)) p q = absurd (omega arith)

bit_xor_twice_fuel : (n a b : ℕ) → a ≤ n → b ≤ n → bit_xor (bit_xor a b) b ≡ a
bit_xor_twice_fuel zero zero zero p q = ap (λ c. bit_xor c 0) (zero-bit_xor 0) ∙ zero-bit_xor 0
bit_xor_twice_fuel zero (suc a) b p q = absurd (omega arith)
bit_xor_twice_fuel zero zero (suc b) p q = absurd (omega arith)
bit_xor_twice_fuel (suc n) a b p q =
    let c = bit_xor a b in
    let (small, undone) = differ_digits (a % 2) (b % 2) (omega arith) (omega arith) in
    let half : c / 2 ≡ bit_xor (a / 2) (b / 2) = omega (arith, bit_xor_step a b, small) in
    let digit : c % 2 ≡ differ (a % 2) (b % 2) = omega (arith, bit_xor_step a b, small) in
    omega (
      arith,
      bit_xor_step c b,
      ap (λ h. bit_xor h (b / 2)) half,
      bit_xor_twice_fuel n (a / 2) (b / 2) (omega arith) (omega arith),
      ap (λ d. differ d (b % 2)) digit,
      undone,
    )

pub bit_xor_twice : (a b : ℕ) → bit_xor (bit_xor a b) b ≡ a
bit_xor_twice a b = bit_xor_twice_fuel (a + b) a b (omega arith) (omega arith)

pub bit_xor-pow2 : (k a b : ℕ) → a < pow2 k → b < pow2 k → bit_xor a b < pow2 k
unfolding pow2
bit_xor-pow2 zero zero b p q = omega (arith, zero-bit_xor b)
bit_xor-pow2 zero (suc a) b p q = absurd (omega arith)
bit_xor-pow2 (suc k) a b p q =
    let (small, undone) = differ_digits (a % 2) (b % 2) (omega arith) (omega arith) in
    omega
      (arith, bit_xor_step a b, small, bit_xor-pow2 k (a / 2) (b / 2) (omega arith) (omega arith))
