-- ===== src/Client/Check.antt =====
-- What an operation that `teek_check_operation` lets through has.
use native.Mathlib.Decide.{ℕ_discrete}
use itrustee_tzdriver.Base.{
  ℕ, zero, suc, ◌+◌, ◌/◌, ◌%◌, ◌≤◌, ◌<◌, ◌≡◌, ◌≢◌, ◌↔◌, ◌⊎◌, true, false, Option, none, some, refl,
  subst, arith,
}
use itrustee_tzdriver.Param.{
  is_tmp_mem, is_ref_mem, is_val_param, is_ion_param, teec_param_type_get,
}
use itrustee_tzdriver.Client.{
  size_max, SharedMemory, RegisteredMemoryReference, Parameter, Operation, teec_success,
  is_offset_invalid, check_flags, has_input, has_output, is_partical_mem, check_parent,
  teek_check_ref_mem, teek_check_tmp_mem, check_param, check_params, teek_check_operation,
}

-- The check of an offset and a size of 64 bits, overflow or not, is whether the reference runs past
-- its parent.
pub is_offset_invalid_iff :
    (parent_size offset size : ℕ)
    → parent_size < size_max
    → offset < size_max
    → size < size_max
    → (is_offset_invalid parent_size offset size ≡ false) ↔ (offset + size ≤ parent_size)
unfolding is_offset_invalid
is_offset_invalid_iff parent_size offset size h g k = ground arith

-- A partial reference of type `t` lies in its parent, which allows the type's directions.
abbrev pub Inside : Option SharedMemory → ℕ → ℕ → ℕ → Type 0
Inside none offset size t = ⊥
Inside (some parent) offset size t =
    (parent.buffer ≢ 0)
    × (offset + size ≤ parent.size)
    × (t ≢ 14 → parent.flags % 2 ≡ 1)
    × (t ≢ 13 → (parent.flags / 2) % 2 ≡ 1)

-- What a parameter of type `t` must be.
abbrev pub Fit : Parameter → ℕ → Type 0
Fit p t =
    (t ≡ 0)
    ⊎ ((1 ≤ t) × (t ≤ 3))
    ⊎ ((8 ≤ t) × (t ≤ 9))
    ⊎ ((5 ≤ t) × (t ≤ 7) × (p.tmpref.buffer ≢ 0) × (p.tmpref.size ≢ 0))
    ⊎ ((13 ≤ t) × (t ≤ 15) × Inside p.memref.parent p.memref.offset p.memref.size t)

-- The sizes that the parameter gives fit a `size_t`.
abbrev pub Sized : Parameter → Type 0
Sized p =
    (p.memref.size < size_max)
    × (p.memref.offset < size_max)
    × ((parent : SharedMemory) → p.memref.parent ≡ some parent → parent.size < size_max)

check_flags_iff :
    (flags t : ℕ)
    → 13 ≤ t
    → t ≤ 15
    → (check_flags flags t ≡ none) ↔ ((t ≢ 14 → flags % 2 ≡ 1) × (t ≢ 13 → (flags / 2) % 2 ≡ 1))
unfolding check_flags has_input has_output
check_flags_iff flags t h g = ground arith

-- No code that the flags give is the one of success.
check_flags_bad : (flags t e : ℕ) → check_flags flags t ≡ some e → e ≢ teec_success
unfolding check_flags has_input has_output
check_flags_bad flags t e h = ground arith

check_parent_iff :
    (parent : SharedMemory) (offset size t : ℕ)
    → 13 ≤ t
    → t ≤ 15
    → offset < size_max
    → size < size_max
    → parent.size < size_max
    → (check_parent parent offset size t ≡ teec_success) ↔ Inside (some parent) offset size t
unfolding check_parent is_partical_mem
check_parent_iff parent offset size t h g ho hs hp = go (check_flags parent.flags t) refl
  where
    part : is_partical_mem t ≡ true
    part = ground arith

    go :
        (r : Option ℕ)
        → check_flags parent.flags t ≡ r
        → (check_parent parent offset size t ≡ teec_success) ↔ Inside (some parent) offset size t
    go none e = ground (
      arith,
      e,
      check_flags_iff parent.flags t h g,
      is_offset_invalid_iff parent.size offset size hp ho hs,
    )
    go (some c) e =
        ground (arith, e, check_flags_iff parent.flags t h g, check_flags_bad parent.flags t c e)

teek_check_ref_mem_iff :
    (memref : RegisteredMemoryReference) (t : ℕ) (parent : Option SharedMemory)
    → memref.parent ≡ parent
    → 13 ≤ t
    → t ≤ 15
    → memref.offset < size_max
    → memref.size < size_max
    → ((m : SharedMemory) → parent ≡ some m → m.size < size_max)
    → (teek_check_ref_mem memref t ≡ teec_success) ↔ Inside parent memref.offset memref.size t
unfolding teek_check_ref_mem
teek_check_ref_mem_iff memref t none e h g ho hs hp = rw e (λ k. absurd (ground arith), absurd)
teek_check_ref_mem_iff memref t (some parent) e h g ho hs hp =
    rw e (check_parent_iff parent memref.offset memref.size t h g ho hs (hp parent refl))

-- `Ref` stands for what a partial reference must be.
check_param_of :
    (p : Parameter) (t : ℕ) (Ref : Type 0)
    → (13 ≤ t → t ≤ 15 → (teek_check_ref_mem p.memref t ≡ teec_success) ↔ Ref)
    → (check_param p t ≡ teec_success) ↔ (
        (t ≡ 0)
        ⊎ ((1 ≤ t) × (t ≤ 3))
        ⊎ ((8 ≤ t) × (t ≤ 9))
        ⊎ ((5 ≤ t) × (t ≤ 7) × (p.tmpref.buffer ≢ 0) × (p.tmpref.size ≢ 0))
        ⊎ ((13 ≤ t) × (t ≤ 15) × Ref))
unfolding check_param is_tmp_mem is_ref_mem is_val_param is_ion_param teek_check_tmp_mem
check_param_of p t Ref h = ground arith

check_param_iff : (p : Parameter) (t : ℕ) → Sized p → (check_param p t ≡ teec_success) ↔ Fit p t
check_param_iff p t (hs, ho, hp) =
    check_param_of p t (Inside p.memref.parent p.memref.offset p.memref.size t)
      (λ h g. teek_check_ref_mem_iff p.memref t p.memref.parent refl h g ho hs hp)

check_params_iff :
    (n index : ℕ) (op : Operation)
    → ((i : ℕ) → Sized (op.params i))
    → (check_params n index op ≡ teec_success) ↔ (
        (i : ℕ)
        → index ≤ i
        → i < n + index
        → Fit (op.params i) (teec_param_type_get op.paramtypes i))
unfolding check_params
check_params_iff zero index op s = (λ _ i le lt. absurd (omega arith), λ _. refl)
check_params_iff (suc n) index op s =
    let (to, from) =
      check_param_iff (op.params index) (teec_param_type_get op.paramtypes index) (s index) in
    let (later, back) = check_params_iff n (suc index) op s in
    (
      λ e i le lt. elim (ℕ_discrete index i) [
        | yes q ↦
            subst (λ k. Fit (op.params k) (teec_param_type_get op.paramtypes k)) q
              (to (ground (arith, e)))
        | no ne ↦ later (ground (arith, e)) i (omega (arith, le, ne)) (omega (arith, lt))
      ],
      λ fit.
          let here = from (fit index (omega arith) (omega arith)) in
          let there = back (λ i le lt. fit i (omega (arith, le)) (omega (arith, lt))) in
          ground (arith, here, there),
    )

-- With sizes of 64 bits, an operation passes exactly when it is started and each of its
-- four parameters is what its type asks for: a value or none; a temporary buffer that is not NULL nor
-- empty; or a reference inside a shared memory that allows the type's directions. No other type passes,
-- and of an ION parameter nothing is asked.
pub teek_check_operation_iff :
    (op : Operation)
    → ((i : ℕ) → Sized (op.params i))
    → (teek_check_operation (some op) ≡ teec_success) ↔ (
        (op.started ≢ 0)
        × ((i : ℕ) → i < 4 → Fit (op.params i) (teec_param_type_get op.paramtypes i)))
unfolding teek_check_operation
teek_check_operation_iff op s =
    let (to, from) = check_params_iff 4 0 op s in
    (
      λ e. (ground (arith, e), λ i lt. to (ground (arith, e)) i (omega arith) lt),
      λ h. ground (arith, h.0, from (λ i _ lt. h.1 i lt)),
    )
