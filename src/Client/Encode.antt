-- ===== src/Client/Encode.antt =====
-- core/teek_client_api.c, `proc_teek_encode`: how a checked operation is written into the context that
-- the driver works on.
pub mod Accepted
use itrustee_tzdriver.Base.{
  ℕ, zero, suc, ◌+◌, ◌-◌, ◌*◌, ◌%◌, ◌^◌, Bool, true, false, ◌||◌, not, Option, none, some, ◌==◌,
  if◌then◌else◌,
}
use itrustee_tzdriver.Base.Update.{update}
use itrustee_tzdriver.Param.{
  ClientParam, ClientContext, teec_none, teec_memref_temp_input, teec_memref_partial_input,
  teec_memref_partial_output, teec_memref_partial_inout, teec_memref_whole, param_num,
  teec_param_types, teec_param_type_get, is_tmp_mem, is_ref_mem, is_val_param, is_ion_param,
}
use itrustee_tzdriver.Client.{
  teec_success, teec_error_bad_parameters, size_max, SharedMemory, RegisteredMemoryReference,
  Parameter, Operation,
}

-- Where the fields of parameter `i` of the operation lie in memory.
pub record Fields : Type 0 where
  pub tmpref_size : ℕ → ℕ
  pub memref_size : ℕ → ℕ
  pub parent_size : ℕ → ℕ
  pub value_a : ℕ → ℕ
  pub value_b : ℕ → ℕ
  pub ion_share_fd : ℕ → ℕ
  pub ion_size : ℕ → ℕ

abbrev pub type_diff : ℕ
type_diff = teec_memref_partial_input - teec_memref_temp_input

-- The type of a whole reference, by the flags of its parent.
unfoldable pub whole_type : ℕ → ℕ
whole_type flags =
    if flags == 1
    then teec_memref_partial_input
    else if flags == 2
    then teec_memref_partial_output
    else if flags == 3
    then teec_memref_partial_inout
    else teec_memref_partial_inout

unfoldable pub part_type : SharedMemory → ℕ → ℕ
unfolding whole_type
part_type parent t =
    let t' = if t == teec_memref_whole then whole_type parent.flags else t in
    if not parent.is_allocated then (t' + 2 ^ 32 - type_diff) % 2 ^ 32 else t'

unfoldable pub part_param : Fields → ℕ → SharedMemory → ℕ → ℕ → ClientParam → ClientParam
part_param fields idex parent offset t p =
    let size_addr =
      if t == teec_memref_whole then fields.parent_size idex else fields.memref_size idex in
    let offset' = if t == teec_memref_whole then 0 else offset in
    if parent.is_allocated
    then record p { buffer = parent.buffer; offset = offset'; size_addr = size_addr }
    else record p {
      buffer = (parent.buffer + offset) % size_max;
      offset = 0;
      size_addr = size_addr;
    }

-- One round of the loop: a NULL parent is read, the type is refused, or the parameter and its type are
-- written.
pub data Encoded : Type 0 where
  fault refused : Encoded
  encoded : ClientParam → ℕ → Encoded

unfoldable pub encode_for_part_mem :
    Fields → ℕ → RegisteredMemoryReference → ℕ → ClientParam → Encoded
unfolding part_type part_param
encode_for_part_mem fields idex memref t p = elim (memref.parent) [
  | none ↦ fault
  | some parent ↦ encoded (part_param fields idex parent memref.offset t p) (part_type parent t)
]

unfoldable pub encode_param : Fields → ℕ → Parameter → ℕ → ClientParam → Encoded
unfolding is_tmp_mem is_ref_mem is_val_param is_ion_param encode_for_part_mem
encode_param fields idex op t p =
    if is_tmp_mem t
    then encoded (record p { buffer = op.tmpref.buffer; size_addr = fields.tmpref_size idex }) t
    else if is_ref_mem t
    then encode_for_part_mem fields idex op.memref t p
    else if is_val_param t
    then encoded (record p { a_addr = fields.value_a idex; b_addr = fields.value_b idex }) t
    else if is_ion_param t
    then encoded (record p { a_addr = fields.ion_share_fd idex; b_addr = fields.ion_size idex }) t
    else if t == teec_none
    then encoded p t
    else refused

-- The context's parameters and the array `param_type`.
pub record Encoding : Type 0 where
  pub params : ℕ → ClientParam
  pub types : ℕ → ℕ

-- The loop at `idex` with `n` rounds left: the code, or `none` for the fault, and what was written.
pub encode_params : Fields → Operation → ℕ → ℕ → Encoding → Option ℕ × Encoding
unfolding encode_param
encode_params fields op zero idex e = (some teec_success, e)
encode_params fields op (suc n) idex e =
    elim (encode_param fields idex (op.params idex) (e.types idex) (e.params idex)) [
      | fault ↦ (none, e)
      | refused ↦ (some teec_error_bad_parameters, e)
      | encoded p t ↦
          encode_params fields op n (suc idex)
            (record { params = update e.params idex p; types = update e.types idex t })
    ]

-- The end of `proc_teek_encode`.
pub encode_types : ClientContext → Option ℕ × Encoding → Option ℕ × ClientContext
unfolding teec_param_types
encode_types context (code, e) = elim code [
  | none ↦ (none, record context { params = e.params })
  | some zero ↦ (
    some teec_success,
    record {
      params = e.params;
      param_types = teec_param_types (e.types 0) (e.types 1) (e.types 2) (e.types 3);
    },
  )
  | some (suc c) ↦ (some (suc c), record context { params = e.params })
]

pub proc_teek_encode : Fields → ClientContext → Operation → Option ℕ × ClientContext
unfolding encode_params encode_types teec_param_type_get
proc_teek_encode fields context op = encode_types context (
    encode_params fields op param_num 0
      (record { params = context.params; types = teec_param_type_get op.paramtypes }))
