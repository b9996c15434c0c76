-- ===== src/Param/Bounds.antt =====
-- The checks of core/gp_ops.c against what they are for.
use itrustee_tzdriver.Base.{ℕ, ◌+◌, ◌^◌, ◌≤◌, ◌<◌, ◌≡◌, ◌≢◌, ◌↔◌, ◌⊎◌, true, arith}
use itrustee_tzdriver.Param.{
  User, ClientParam, ClientContext, is_refmem_offset_valid, tc_user_param_valid, usr_param_valid,
  is_mem_param, is_val_param, is_tmp_mem, is_ref_mem, teec_param_type_get, is_usr_refmem_valid,
  is_usr_valmem_valid, teec_none, alloc_kind, no_alloc, is_input_type, is_output_type,
  teec_value_type, teec_tmpmem_type, teec_memref_type,
}

-- For a length of 32 bits and an offset of 64, the check passes exactly when the offset lies in the
-- shared memory and the bytes after it fit, whatever overflows.
pub is_refmem_offset_valid_iff :
    (len offset size : ℕ)
    → len < 2 ^ 32
    → offset < 2 ^ 64
    → (is_refmem_offset_valid len offset size ≡ true) ↔ ((offset < len) × (offset + size ≤ len))
unfolding is_refmem_offset_valid
is_refmem_offset_valid_iff len offset size h g = ground arith

-- What a parameter of some type must name in the caller's memory.
abbrev pub Usable : User → ClientParam → ℕ → Type 0
Usable user p t =
    (t ≡ 0)
    ⊎ ((((5 ≤ t) × (t ≤ 7)) ⊎ ((13 ≤ t) × (t ≤ 15)))
        × (user.access_ok p.size_addr 4 ≡ true)
        × (user.access_ok p.buffer (user.get_user p.size_addr) ≡ true))
    ⊎ ((((1 ≤ t) × (t ≤ 3)) ⊎ ((8 ≤ t) × (t ≤ 9)))
        × (user.access_ok p.a_addr 4 ≡ true)
        × (user.access_ok p.b_addr 4 ≡ true))

usr_param_valid_iff :
    (user : User) (p : ClientParam) (t : ℕ) → (usr_param_valid user p t ≡ true) ↔ Usable user p t
unfolding usr_param_valid is_mem_param is_val_param is_tmp_mem is_ref_mem is_usr_refmem_valid
    is_usr_valmem_valid
usr_param_valid_iff user p t = ground arith

-- A parameter passes exactly when there is one of that number and what its type makes the driver read
-- lies in the caller's memory; other types never pass.
pub tc_user_param_valid_iff :
    (user : User) (context : ClientContext) (index : ℕ)
    → (tc_user_param_valid user context index ≡ true) ↔ (
        (index < 4)
        × Usable user (context.params index) (teec_param_type_get context.param_types index))
unfolding tc_user_param_valid
tc_user_param_valid_iff user context index =
    let (to, from) =
      usr_param_valid_iff user (context.params index)
        (teec_param_type_get context.param_types index) in
    (λ h. (ground arith, to (ground arith)), λ h. ground (arith, from h.1))

-- Every type that passes `tc_user_param_valid`, the empty one aside, has an operation that prepares it.
pub alloc_kind_total :
    (user : User) (p : ClientParam) (t : ℕ)
    → Usable user p t
    → t ≢ teec_none
    → alloc_kind t ≢ no_alloc
unfolding alloc_kind is_input_type is_output_type teec_value_type teec_tmpmem_type teec_memref_type
alloc_kind_total user p t h ne = ground arith
