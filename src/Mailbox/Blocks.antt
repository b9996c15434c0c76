-- ===== src/Mailbox/Blocks.antt =====
-- The blocks into which the pool is cut: `ord p` is the order of the block that page `p` heads, and
-- `no_order` if it heads none. While `mailbox_alloc` splits a block, the pages from `a` to `b` are in
-- no block; otherwise there is no such gap.
use native.Mathlib.Decide.{dec_le}
use itrustee_tzdriver.Base.{ℕ, suc, ◌+◌, ◌≤◌, ◌<◌, ◌≡◌, ap, sym, subst, ◌⊎◌, inl, inr, arith}
use itrustee_tzdriver.Base.Update.{update, update_cases}
use itrustee_tzdriver.Base.Pow.{pow2, pow2-suc, pow2_pos, pow2_mono, Aligned}
use itrustee_tzdriver.Mailbox.{no_order}

-- Page `x` lies in the block that page `p` heads.
abbrev pub Holds : ℕ → (ℕ → ℕ) → ℕ → ℕ → Type 0
Holds m ord x p = (ord p ≤ m) × (p ≤ x) × (x < p + pow2 (ord p))

pub record Blocks (m : ℕ) (ord : ℕ → ℕ) (a b : ℕ) : Type 0 where
  pub small : m < no_order
  pub aligned : (p : ℕ) → ord p ≤ m → Aligned (ord p) p
  pub inside : (p : ℕ) → ord p ≤ m → p + pow2 (ord p) ≤ pow2 m
  pub apart : (p q : ℕ) → ord p ≤ m → ord q ≤ m → p < q → p + pow2 (ord p) ≤ q
  pub beside : (p : ℕ) → ord p ≤ m → (p + pow2 (ord p) ≤ a) ⊎ (b ≤ p)
  pub covered : (x : ℕ) → x < pow2 m → ((a ≤ x) × (x < b)) ⊎ ((p : ℕ) × Holds m ord x p)
  pub orders : (p : ℕ) → (ord p ≤ m) ⊎ (ord p ≡ no_order)

Holds-eq : (m : ℕ) (ord : ℕ → ℕ) (x : ℕ) {p q : ℕ} → q ≡ p → Holds m ord x p → Holds m ord x q
Holds-eq m ord x e h = subst (Holds m ord x) (sym e) h

-- The orders once the halves `lo` and `hi`, of order `i`, are one block.
abbrev pub merged : (ℕ → ℕ) → ℕ → ℕ → ℕ → ℕ → ℕ
merged ord lo hi i = update (update ord lo (suc i)) hi no_order

module _ {m : ℕ} {ord : ℕ → ℕ} where
  -- The block at `pos` is cut down to order `k`; what it loses is the gap.
  pub shrink :
      (pos k : ℕ)
      → Blocks m ord 0 0
      → ord pos ≤ m
      → k ≤ ord pos
      → Aligned k pos
      → Blocks m (update ord pos k) (pos + pow2 k) (pos + pow2 (ord pos))
  shrink pos k v h le al = record {
    small = v.small;
    aligned = λ p. elim (update_cases ord pos k p) [
      | inl (e, u) ↦ rw (u, ← e) (λ _. al)
      | inr (_, u) ↦ rw u (v.aligned p)
    ];
    inside = λ p g. ground (arith, v.inside p, v.inside pos, pow2_mono k (ord pos));
    apart = λ p q g g' lt. ground (arith, v.apart p q, pow2_mono k (ord pos));
    beside = λ p g. ground (arith, v.apart p pos, v.apart pos p);
    covered = λ x g. cover x g;
    orders = λ p. ground (arith, v.orders p);
  }
    where
      cover :
          (x : ℕ)
          → x < pow2 m
          → ((pos + pow2 k ≤ x) × (x < pos + pow2 (ord pos)))
            ⊎ ((p : ℕ) × Holds m (update ord pos k) x p)
      cover x g = elim (v.covered x g) [
        | inl (_, bad) ↦ absurd (omega arith)
        | inr (p, held) ↦ elim (update_cases ord pos k p) [
          | inl (e, u) ↦ elim (dec_le (pos + pow2 k) x) [
            | yes up ↦ inl (up, ground arith)
            | no low ↦ inr (pos, (ground arith, ground arith, ground arith))
          ]
          | inr (_, u) ↦ inr (p, rw u held)
        ]
      ]

  -- A block of order `j` is cut off the front of the gap.
  pub carve :
      (a b j : ℕ)
      → Blocks m ord a b
      → j ≤ m
      → Aligned j a
      → a + pow2 j ≤ b
      → b ≤ pow2 m
      → Blocks m (update ord a j) (a + pow2 j) b
  carve a b j v le al fits top = record {
    small = v.small;
    aligned = λ p. elim (update_cases ord a j p) [
      | inl (e, u) ↦ rw (u, ← e) (λ _. al)
      | inr (_, u) ↦ rw u (v.aligned p)
    ];
    inside = λ p g. ground (arith, v.inside p);
    apart = λ p q g g' lt. ground (arith, v.apart p q, v.beside p, v.beside q, pow2_pos j);
    beside = λ p g. ground (arith, v.beside p, pow2_pos j);
    covered = cover;
    orders = λ p. ground (arith, v.orders p);
  }
    where
      cover :
          (x : ℕ)
          → x < pow2 m
          → ((a + pow2 j ≤ x) × (x < b)) ⊎ ((p : ℕ) × Holds m (update ord a j) x p)
      cover x g = elim (v.covered x g) [
        | inl (lo, hi) ↦ elim (dec_le (a + pow2 j) x) [
          | yes up ↦ inl (up, hi)
          | no low ↦ inr (a, (ground arith, lo, ground arith))
        ]
        | inr (p, held) ↦ elim (update_cases ord a j p) [
          | inl (e, u) ↦ absurd (ground (arith, v.beside p held.0, pow2_pos j, pow2_pos (ord p)))
          | inr (_, u) ↦ inr (p, rw u held)
        ]
      ]

  -- No block starts in the gap.
  pub gap-no_order : (a b p : ℕ) → Blocks m ord a b → a ≤ p → p < b → ord p ≡ no_order
  gap-no_order a b p v h g = ground (arith, v.orders p, v.beside p, pow2_pos (ord p))

  -- An empty gap is none.
  pub close_gap : (a b : ℕ) → Blocks m ord a b → b ≤ a → Blocks m ord 0 0
  close_gap a b v h = record {
    small = v.small;
    aligned = v.aligned;
    inside = v.inside;
    apart = v.apart;
    beside = λ p g. omega arith;
    covered = λ x g. elim (v.covered x g) [ inl bad ↦ absurd (omega arith) | inr held ↦ inr held ];
    orders = v.orders;
  }

  -- The two halves of a block become it.
  pub merge :
      (lo hi i : ℕ)
      → Blocks m ord 0 0
      → ord lo ≡ i
      → ord hi ≡ i
      → hi ≡ lo + pow2 i
      → i < m
      → Aligned (suc i) lo
      → Blocks m (merged ord lo hi i) 0 0
  merge lo hi i v elo ehi ehalf lt al = record {
    small = v.small;
    aligned = align;
    inside = λ p g. ground (arith, v.inside p, v.inside hi, pow2-suc i, v.small);
    apart = λ p q g g' l.
        ground (arith, v.apart p q, v.apart hi q, v.apart lo q, pow2-suc i, v.small, pow2_pos i);
    beside = λ p g. omega arith;
    covered = cover;
    orders = λ p. ground (arith, v.orders p);
  }
    where
      align : (p : ℕ) → merged ord lo hi i p ≤ m → Aligned (merged ord lo hi i p) p
      align p g = elim (update_cases (update ord lo (suc i)) hi no_order p) [
        | inl (_, u) ↦ absurd (omega (arith, u, v.small))
        | inr (_, u) ↦ rw u (elim (update_cases ord lo (suc i) p) [
          | inl (e, w) ↦ rw (w, ← e) al
          | inr (_, w) ↦ rw w (v.aligned p (omega (arith, u, w)))
        ])
      ]

      whole : merged ord lo hi i lo ≡ suc i
      whole = ground (arith, pow2_pos i)

      cover :
          (x : ℕ) → x < pow2 m → ((0 ≤ x) × (x < 0)) ⊎ ((p : ℕ) × Holds m (merged ord lo hi i) x p)
      cover x g = elim (v.covered x g) [
        | inl bad ↦ absurd (omega arith)
        | inr (p, held) ↦ elim (update_cases (update ord lo (suc i)) hi no_order p) [
          | inl (e, _) ↦
              inr (lo, rw whole (omega (arith, ap pow2 ehi, Holds-eq m ord x e held, pow2-suc i)))
          | inr (_, u) ↦ elim (update_cases ord lo (suc i) p) [
            | inl (e, _) ↦
                inr (lo, rw whole (omega (arith, ap pow2 elo, Holds-eq m ord x e held, pow2-suc i)))
            | inr (_, w) ↦ inr (p, rw (u, w) held)
          ]
        ]
      ]
