-- ===== src/Param.antt =====
-- tc_ns_client.h and core/gp_ops.c: the types of an operation's four parameters, and the checks of what
-- a client passes for them.
pub mod Types
pub mod Bounds
mod Tests
use itrustee_tzdriver.Base.{
  ℕ, ◌+◌, ◌-◌, ◌*◌, ◌/◌, ◌%◌, ◌^◌, Bool, true, false, ◌&&◌, ◌||◌, not, ltb, leb, ◌==◌,
  if◌then◌else◌,
}

-- `enum TEEC_ParamType` of teek_client_constants.h.
abbrev pub teec_none : ℕ
teec_none = 0

abbrev pub teec_value_input : ℕ
teec_value_input = 1

abbrev pub teec_value_output : ℕ
teec_value_output = 2

abbrev pub teec_value_inout : ℕ
teec_value_inout = 3

abbrev pub teec_memref_temp_input : ℕ
teec_memref_temp_input = 5

abbrev pub teec_memref_temp_output : ℕ
teec_memref_temp_output = 6

abbrev pub teec_memref_temp_inout : ℕ
teec_memref_temp_inout = 7

abbrev pub teec_ion_input : ℕ
teec_ion_input = 8

abbrev pub teec_ion_sglist_input : ℕ
teec_ion_sglist_input = 9

abbrev pub teec_memref_whole : ℕ
teec_memref_whole = 12

abbrev pub teec_memref_partial_input : ℕ
teec_memref_partial_input = 13

abbrev pub teec_memref_partial_output : ℕ
teec_memref_partial_output = 14

abbrev pub teec_memref_partial_inout : ℕ
teec_memref_partial_inout = 15

abbrev pub param_num : ℕ
param_num = 4

-- The macro, for types of four bits each, where `|` adds.
unfoldable pub teec_param_types : ℕ → ℕ → ℕ → ℕ → ℕ
teec_param_types p0 p1 p2 p3 = p3 * 2 ^ 12 + p2 * 2 ^ 8 + p1 * 2 ^ 4 + p0

-- The macro: `(types >> (index << 2)) & 0x0F`.
unfoldable pub teec_param_type_get : ℕ → ℕ → ℕ
teec_param_type_get param_types index = (param_types / 2 ^ (index * 4)) % 16

unfoldable pub is_tmp_mem : ℕ → Bool
is_tmp_mem t =
    t == teec_memref_temp_input || t == teec_memref_temp_output || t == teec_memref_temp_inout

unfoldable pub is_ref_mem : ℕ → Bool
is_ref_mem t =
    t == teec_memref_partial_input
    || t == teec_memref_partial_output
    || t == teec_memref_partial_inout

unfoldable pub is_val_param : ℕ → Bool
is_val_param t =
    t == teec_value_input
    || t == teec_value_output
    || t == teec_value_inout
    || t == teec_ion_input
    || t == teec_ion_sglist_input

unfoldable pub is_ion_param : ℕ → Bool
is_ion_param t = t == teec_ion_input || t == teec_ion_sglist_input

unfoldable pub is_mem_param : ℕ → Bool
unfolding is_tmp_mem is_ref_mem
is_mem_param t = is_tmp_mem t || is_ref_mem t

-- `INPUT`, `OUTPUT` and `INOUT`.
pub data Dir : Type 0 where
  input output inout : Dir

unfoldable pub is_input_type : Dir → Bool
is_input_type input = true
is_input_type output = false
is_input_type inout = true

unfoldable pub is_output_type : Dir → Bool
is_output_type input = false
is_output_type output = true
is_output_type inout = true

unfoldable pub teec_value_type : ℕ → Dir → Bool
unfolding is_input_type is_output_type
teec_value_type t dir =
    (is_input_type dir && t == teec_value_input)
    || (is_output_type dir && t == teec_value_output)
    || t == teec_value_inout

unfoldable pub teec_tmpmem_type : ℕ → Dir → Bool
unfolding is_input_type is_output_type
teec_tmpmem_type t dir =
    (is_input_type dir && t == teec_memref_temp_input)
    || (is_output_type dir && t == teec_memref_temp_output)
    || t == teec_memref_temp_inout

unfoldable pub teec_memref_type : ℕ → Dir → Bool
unfolding is_input_type is_output_type
teec_memref_type t dir =
    (is_input_type dir && t == teec_memref_partial_input)
    || (is_output_type dir && t == teec_memref_partial_output)
    || t == teec_memref_partial_inout

-- `union tc_ns_client_param`, by its two views.
pub record ClientParam : Type 0 where
  pub buffer : ℕ
  pub offset : ℕ
  pub size_addr : ℕ
  pub a_addr : ℕ
  pub b_addr : ℕ

pub record ClientContext : Type 0 where
  pub params : ℕ → ClientParam
  pub param_types : ℕ

-- The kernel's `access_ok` of so many bytes at an address, and what `get_user` leaves in a `uint32_t`.
pub record User : Type 0 where
  pub access_ok : ℕ → ℕ → Bool
  pub get_user : ℕ → ℕ

module _ (user : User) where
  unfoldable pub is_usr_refmem_valid : ClientParam → Bool
  is_usr_refmem_valid p =
      if not (user.access_ok p.size_addr 4)
      then false
      else if not (user.access_ok p.buffer (user.get_user p.size_addr))
      then false
      else true

  unfoldable pub is_usr_valmem_valid : ClientParam → Bool
  is_usr_valmem_valid p =
      if not (user.access_ok p.a_addr 4)
      then false
      else if not (user.access_ok p.b_addr 4)
      then false
      else true

  -- The part of `tc_user_param_valid` that follows `check_user_param`, for a parameter's type.
  unfoldable pub usr_param_valid : ClientParam → ℕ → Bool
  unfolding is_mem_param is_val_param is_usr_refmem_valid is_usr_valmem_valid
  usr_param_valid p t =
      if t == teec_none
      then true
      else if is_mem_param t
      then is_usr_refmem_valid p
      else if is_val_param t
      then is_usr_valmem_valid p
      else false

  -- The context is not NULL.
  unfoldable pub tc_user_param_valid : ClientContext → ℕ → Bool
  unfolding usr_param_valid teec_param_type_get
  tc_user_param_valid context index =
      if leb param_num index
      then false
      else usr_param_valid (context.params index) (teec_param_type_get context.param_types index)

-- `shared_mem->len` is an `unsigned int`, `offset` a `__u64`, and the difference one of 64 bits.
unfoldable pub is_refmem_offset_valid : ℕ → ℕ → ℕ → Bool
is_refmem_offset_valid len offset buffer_size =
    leb buffer_size ((len + 2 ^ 64 - offset) % 2 ^ 64) && ltb offset len

-- The order in which `alloc_operation` of core/gp_ops.c tells the types apart.
pub data Alloc : Type 0 where
  tmp_mem ref_mem client_value ion ion_sglist no_alloc : Alloc

unfoldable pub alloc_kind : ℕ → Alloc
unfolding teec_tmpmem_type teec_memref_type teec_value_type
alloc_kind t =
    if teec_tmpmem_type t inout
    then tmp_mem
    else if teec_memref_type t inout
    then ref_mem
    else if teec_value_type t inout
    then client_value
    else if t == teec_ion_input
    then ion
    else if t == teec_ion_sglist_input
    then ion_sglist
    else no_alloc
