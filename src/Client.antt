-- ===== src/Client.antt =====
-- core/teek_client_api.c: the checks and the encoding of an operation of a kernel client.
pub mod Check
pub mod Encode
mod Tests
use itrustee_tzdriver.Base.{
  ℕ, zero, suc, ◌+◌, ◌-◌, ◌*◌, ◌/◌, ◌%◌, ◌^◌, Bool, true, false, ◌&&◌, ◌||◌, not, Option, none,
  some, ltb, leb, ◌==◌, if◌then◌else◌,
}
use itrustee_tzdriver.Param.{
  teec_none, teec_memref_temp_input, teec_memref_partial_input, teec_memref_partial_output,
  teec_memref_partial_inout, teec_memref_whole, param_num, teec_param_types, teec_param_type_get,
  is_tmp_mem, is_ref_mem, is_val_param, is_ion_param,
}
use itrustee_tzdriver.Base.Update.{update}

abbrev pub teec_success : ℕ
teec_success = 0

abbrev pub teec_error_bad_parameters : ℕ
teec_error_bad_parameters = 0xFFFF0006

abbrev pub teec_error_not_implemented : ℕ
teec_error_not_implemented = 0xFFFF0009

-- A `size_t` is of 64 bits.
abbrev pub size_max : ℕ
size_max = 2 ^ 64

-- `struct teec_sharedmemory`; a NULL buffer is 0.
pub record SharedMemory : Type 0 where
  pub buffer : ℕ
  pub size : ℕ
  pub flags : ℕ
  pub is_allocated : Bool

-- `struct teec_registeredmemory_reference`; `none` is a NULL parent.
pub record RegisteredMemoryReference : Type 0 where
  pub parent : Option SharedMemory
  pub size : ℕ
  pub offset : ℕ

pub record TempMemoryReference : Type 0 where
  pub buffer : ℕ
  pub size : ℕ

-- `union teec_parameter`, by the views that are read; `ion_share_fd` is whether it is negative.
pub record Parameter : Type 0 where
  pub tmpref : TempMemoryReference
  pub memref : RegisteredMemoryReference
  pub ion_fd_negative : Bool

pub record Operation : Type 0 where
  pub started : ℕ
  pub paramtypes : ℕ
  pub params : ℕ → Parameter

unfoldable pub teek_check_tmp_mem : TempMemoryReference → ℕ
teek_check_tmp_mem tmpref =
    if tmpref.buffer == 0 || tmpref.size == 0 then teec_error_bad_parameters else teec_success

-- `flags & TEEC_MEM_INPUT` and `flags & TEEC_MEM_OUTPUT`.
unfoldable pub has_input : ℕ → Bool
has_input flags = flags % 2 == 1

unfoldable pub has_output : ℕ → Bool
has_output flags = (flags / 2) % 2 == 1

unfoldable pub is_partical_mem : ℕ → Bool
is_partical_mem t =
    t == teec_memref_partial_input
    || t == teec_memref_partial_output
    || t == teec_memref_partial_inout

unfoldable pub is_offset_invalid : ℕ → ℕ → ℕ → Bool
is_offset_invalid parent_size offset size =
    let last = (offset + size) % size_max in
    ltb parent_size last || ltb last offset || ltb last size

-- The flags of the parent that the type asks for; `none` where the function goes on.
unfoldable pub check_flags : ℕ → ℕ → Option ℕ
unfolding has_input has_output
check_flags flags t =
    if t == teec_memref_partial_input
    then (if not (has_input flags) then some teec_error_bad_parameters else none)
    else if t == teec_memref_partial_output
    then (if not (has_output flags) then some teec_error_bad_parameters else none)
    else if t == teec_memref_partial_inout
    then (if not (has_input flags)
        then some teec_error_bad_parameters
        else if not (has_output flags)
        then some teec_error_bad_parameters
        else none)
    else if t == teec_memref_whole
    then none
    else some teec_error_bad_parameters

unfoldable pub check_parent : SharedMemory → ℕ → ℕ → ℕ → ℕ
unfolding check_flags is_partical_mem is_offset_invalid
check_parent parent offset size t =
    if parent.buffer == 0 then teec_error_bad_parameters else elim (check_flags parent.flags t) [
      | some e ↦ e
      | none ↦
          if is_partical_mem t && is_offset_invalid parent.size offset size
          then teec_error_bad_parameters
          else teec_success
    ]

unfoldable pub teek_check_ref_mem : RegisteredMemoryReference → ℕ → ℕ
unfolding check_parent
teek_check_ref_mem memref t = elim (memref.parent) [
  | none ↦ teec_error_bad_parameters
  | some parent ↦ check_parent parent memref.offset memref.size t
]

-- The body of the loop of `teek_check_operation`, for a parameter and its type.
unfoldable pub check_param : Parameter → ℕ → ℕ
unfolding is_tmp_mem is_ref_mem is_val_param is_ion_param teek_check_tmp_mem teek_check_ref_mem
check_param p t =
    if is_tmp_mem t
    then teek_check_tmp_mem p.tmpref
    else if is_ref_mem t
    then teek_check_ref_mem p.memref t
    else if is_val_param t
    then teec_success
    else if is_ion_param t
    then (if p.ion_fd_negative then teec_error_bad_parameters else teec_success)
    else if t == teec_none
    then teec_success
    else teec_error_bad_parameters

-- The loop at `index` with `n` rounds left.
pub check_params : ℕ → ℕ → Operation → ℕ
unfolding check_param teec_param_type_get
check_params zero index op = teec_success
check_params (suc n) index op =
    let ret = check_param (op.params index) (teec_param_type_get op.paramtypes index) in
    let rest = check_params n (suc index) op in if not (ret == teec_success) then ret else rest

pub teek_check_operation : Option Operation → ℕ
unfolding check_params
teek_check_operation none = teec_success
teek_check_operation (some op) =
    if op.started == 0 then teec_error_not_implemented else check_params param_num 0 op
