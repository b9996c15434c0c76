-- ===== src/Base/Pow.antt =====
-- Powers of two (`1 << k` in the source), multiples of them, and the bit that XOR flips.
use native.Mathlib.Decide.{dec_le}
use native.Mathlib.Nat.{div-eq_of_eq-mul_left}
use itrustee_tzdriver.Base.{
  ℕ, zero, suc, ◌+◌, ◌-◌, ◌*◌, ◌/◌, ◌%◌, ◌≤◌, ◌<◌, ◌≡◌, refl, ap, ◌⊎◌, inl, inr, arith, ◌==◌,
  if◌then◌else◌,
}

unfoldable pub pow2 : ℕ → ℕ
pow2 zero = 1
pow2 (suc k) = pow2 k + pow2 k

pub pow2-zero : pow2 0 ≡ 1
unfolding pow2
pow2-zero = refl

pub pow2-suc : (k : ℕ) → pow2 (suc k) ≡ pow2 k + pow2 k
unfolding pow2
pow2-suc k = refl

pub pow2_pos : (k : ℕ) → 0 < pow2 k
unfolding pow2
pow2_pos zero = omega arith
pow2_pos (suc k) = omega (arith, pow2_pos k)

pub pow2_mono : (j k : ℕ) → j ≤ k → pow2 j ≤ pow2 k
unfolding pow2
pow2_mono zero zero h = omega arith
pow2_mono (suc j) zero h = absurd (omega arith)
pow2_mono zero (suc k) h = omega (arith, pow2_mono zero k (omega arith))
pow2_mono (suc j) (suc k) h = omega (arith, pow2_mono j k (omega arith))

-- `p` is a multiple of `2 ^ k`.
abbrev pub Aligned : ℕ → ℕ → Type 0
Aligned k p = (m : ℕ) × (p ≡ m * pow2 k)

pub Aligned-pred : (k p : ℕ) → Aligned (suc k) p → Aligned k p
Aligned-pred k p (m, e) = (m + m, omega (arith, ap (λ (t : ℕ). m * t) (pow2-suc k)))

pub Aligned-le : (j k p : ℕ) → j ≤ k → Aligned k p → Aligned j p
Aligned-le j zero p h a = let e : j ≡ zero = omega arith in rw e a
Aligned-le j (suc k) p h a = elim (dec_le j k) [
  | yes g ↦ Aligned-le j k p g (Aligned-pred k p a)
  | no g ↦ let e : j ≡ suc k = omega arith in rw e a
]

pub Aligned-add : (k p : ℕ) → Aligned k p → Aligned k (p + pow2 k)
Aligned-add k p (m, e) = (m + 1, omega arith)

pub Aligned-pow2 : (j k : ℕ) → j ≤ k → Aligned j (pow2 k)
Aligned-pow2 j k h = Aligned-le j k (pow2 k) h (1, omega arith)

-- Between multiples of `2 ^ k` there is room for `2 ^ k`.
pub Aligned-room : (k p q : ℕ) → Aligned k p → Aligned k q → p < q → p + pow2 k ≤ q
Aligned-room k p q (m, e) (n, f) h = elim (dec_le (m + 1) n) [
  | yes g ↦ omega (arith, ap (λ (t : ℕ). t * pow2 k) (gap g))
  | no g ↦ absurd (omega (arith, ap (λ (t : ℕ). t * pow2 k) (excess g)))
]
  where
    gap : m + 1 ≤ n → n ≡ m + 1 + (n - (m + 1))
    gap g = omega arith

    excess : ¬ (m + 1 ≤ n) → m ≡ n + (m - n)
    excess g = omega arith

-- `p ^ (1 << k)`.
unfoldable pub flip_bit : ℕ → ℕ → ℕ
flip_bit p k = if (p / pow2 k) % 2 == 0 then p + pow2 k else p - pow2 k

-- The two halves of a block of `2 ^ (k + 1)`: `p` is the lower one, or the upper one.
pub data Halves (k p : ℕ) : Type 0 where
  lower : Aligned (suc k) p → flip_bit p k ≡ p + pow2 k → Halves k p
  upper : (b : ℕ) → Aligned (suc k) b → flip_bit p k ≡ b → p ≡ b + pow2 k → Halves k p

pub halves : (k p : ℕ) → Aligned k p → Halves k p
unfolding flip_bit
halves k p (m, e) = go (div-eq_of_eq-mul_left (pow2_pos k) e) (half m)
  where
    half : (n : ℕ) → (n ≡ n / 2 + n / 2) ⊎ (n ≡ n / 2 + n / 2 + 1)
    half n = omega arith

    times : {a b : ℕ} → a ≡ b → a * pow2 k ≡ b * pow2 k
    times q = ap (λ (t : ℕ). t * pow2 k) q

    go : p / pow2 k ≡ m → (m ≡ m / 2 + m / 2) ⊎ (m ≡ m / 2 + m / 2 + 1) → Halves k p
    go d (inl h) =
        lower (m / 2, omega (arith, times h, ap (λ (t : ℕ). m / 2 * t) (pow2-suc k)))
          (ground (arith, d, h))
    go d (inr h) =
        upper (p - pow2 k) (m / 2, omega (arith, times h, ap (λ (t : ℕ). m / 2 * t) (pow2-suc k)))
          (ground (arith, d, h)) (omega (arith, times h))
