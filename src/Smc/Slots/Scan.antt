-- ===== src/Smc/Slots/Scan.antt =====
-- The scan of the bitmap for a free slot (core/smc_smp.c).
use native.Mathlib.Decide.{ℕ_discrete}
use itrustee_tzdriver.Base.{
  ℕ, zero, suc, ◌+◌, ◌≤◌, ◌<◌, ◌≡◌, refl, sym, ap, ◌∙◌, Bool, true, false, Option, none, some,
  arith,
}
use itrustee_tzdriver.Smc.Slots.{free_slot}

-- The scan finds the lowest slot that is free.
abbrev pub FreeSlot : ℕ → ℕ → (ℕ → Bool) → Option ℕ → Type 0
FreeSlot n i bits none = (j : ℕ) → i ≤ j → j < n + i → bits j ≡ true
FreeSlot n i bits (some k) =
    (i ≤ k) × (k < n + i) × (bits k ≡ false) × ((j : ℕ) → i ≤ j → j < k → bits j ≡ true)

scan :
    (bits : ℕ → Bool) (i j : ℕ)
    → bits i ≡ true
    → (suc i ≤ j → bits j ≡ true)
    → i ≤ j
    → bits j ≡ true
scan bits i j e h le = elim (ℕ_discrete i j) [
  | yes q ↦ ap bits (sym q) ∙ e
  | no ne ↦ h (omega (arith, ne))
]

FreeSlot-suc :
    (n i : ℕ) (bits : ℕ → Bool) (r : Option ℕ)
    → bits i ≡ true
    → FreeSlot n (suc i) bits r
    → FreeSlot (suc n) i bits r
FreeSlot-suc n i bits none e h = λ j le lt. scan bits i j e (λ l. h j l (omega arith)) le
FreeSlot-suc n i bits (some k) e (ge, lt, free, low) =
    (omega (arith, ge), omega (arith, lt), free, λ j le l. scan bits i j e (λ g. low j g l) le)

pub free_slot-FreeSlot : (n i : ℕ) (bits : ℕ → Bool) → FreeSlot n i bits (free_slot n i bits)
unfolding free_slot
free_slot-FreeSlot zero i bits = λ j le lt. absurd (omega arith)
free_slot-FreeSlot (suc n) i bits = go (bits i) refl (free_slot-FreeSlot n (suc i) bits)
  where
    go :
        (b : Bool)
        → bits i ≡ b
        → FreeSlot n (suc i) bits (free_slot n (suc i) bits)
        → FreeSlot (suc n) i bits (elim b [ true ↦ free_slot n (suc i) bits | false ↦ some i ])
    go true e h = FreeSlot-suc n i bits (free_slot n (suc i) bits) e h
    go false e h = (omega arith, omega arith, e, λ j le lt. absurd (omega arith))
