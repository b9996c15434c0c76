-- ===== src/Base/Update.antt =====
-- A C array, or a bitmap, as a function of its index, and the write of one entry.
use native.Mathlib.Decide.{ℕ_discrete}
use itrustee_tzdriver.Base.{ℕ, ◌≡◌, ◌≢◌, ◌⊎◌, inl, inr, arith, ◌==◌, if◌then◌else◌}

abbrev pub update {ℓ} : {A : Type ℓ} → (ℕ → A) → ℕ → A → ℕ → A
update f i a j = if i == j then a else f j

-- To split on whether the entry read is the one written.
pub update_cases {ℓ} :
    {A : Type ℓ} (f : ℕ → A) (i : ℕ) (a : A) (j : ℕ)
    → ((i ≡ j) × (update f i a j ≡ a)) ⊎ ((i ≢ j) × (update f i a j ≡ f j))
update_cases f i a j = elim (ℕ_discrete i j) [
  | yes e ↦ inl (e, ground arith)
  | no ne ↦ inr (ne, ground arith)
]

pub update_same {ℓ} : {A : Type ℓ} (f : ℕ → A) (i : ℕ) (a : A) → update f i a i ≡ a
update_same f i a = ground arith

pub update_other {ℓ} :
    {A : Type ℓ} (f : ℕ → A) (i : ℕ) (a : A) (j : ℕ) → i ≢ j → update f i a j ≡ f j
update_other f i a j ne = ground arith
