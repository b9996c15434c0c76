-- ===== src/Client/Tests.antt =====
-- The checks and the encoding of a small operation, and what they say of whole references.
use itrustee_tzdriver.Base.{
  ℕ, ◌+◌, ◌<◌, ◌≡◌, ◌≢◌, ◌↔◌, refl, ap, true, false, Option, none, some, arith,
}
use itrustee_tzdriver.Param.{
  ClientContext, teec_param_type_get, is_tmp_mem, is_ref_mem, is_val_param, is_ion_param,
}
use itrustee_tzdriver.Client.{
  size_max, SharedMemory, Parameter, Operation, teec_success, teec_error_bad_parameters,
  is_offset_invalid, has_input, has_output, is_partical_mem, check_flags, check_parent,
  teek_check_tmp_mem, teek_check_ref_mem, check_param, check_params, teek_check_operation,
}
use itrustee_tzdriver.Client.Check.{Sized, Fit, teek_check_operation_iff}
use itrustee_tzdriver.Client.Encode.{Fields, proc_teek_encode}
use itrustee_tzdriver.Client.Encode.Accepted.{Accepted, proc_teek_encode-Accepted}

abbrev memory : SharedMemory
memory = record { buffer = 4096; size = 100; flags = 3; is_allocated = false }

abbrev parameter : Parameter
parameter = record {
  tmpref = record { buffer = 8192; size = 10 };
  memref = record { parent = some memory; size = 60; offset = 40 };
  ion_fd_negative = true;
}

-- A partial reference, a temporary one, a value, and an ION parameter of a negative descriptor.
abbrev operation : Operation
operation = record { started = 1; paramtypes = 0x825F; params = λ i. parameter }

abbrev whole_operation : Operation
whole_operation = record { started = 1; paramtypes = 0x000C; params = λ i. parameter }

abbrev fields : Fields
fields = record {
  tmpref_size = λ i. 100 + i;
  memref_size = λ i. 200 + i;
  parent_size = λ i. 300;
  value_a = λ i. 400 + i;
  value_b = λ i. 500 + i;
  ion_share_fd = λ i. 600 + i;
  ion_size = λ i. 700 + i;
}

abbrev context : ClientContext
context = record {
  params = λ i. record { buffer = 0; offset = 0; size_addr = 0; a_addr = 0; b_addr = 0 };
  param_types = 0;
}

parameter-Sized : Sized parameter
parameter-Sized = (omega arith, omega arith, λ m e. small m e)
  where
    some_size : Option SharedMemory → ℕ
    some_size none = 0
    some_size (some m) = m.size

    small : (m : SharedMemory) → some memory ≡ some m → m.size < size_max
    small m e = omega (arith, ap some_size e)

operation_passes : teek_check_operation (some operation) ≡ teec_success
unfolding teek_check_operation check_params check_param teec_param_type_get is_tmp_mem is_ref_mem
    is_val_param is_ion_param teek_check_tmp_mem teek_check_ref_mem check_parent check_flags
    has_input has_output is_partical_mem is_offset_invalid
operation_passes = refl

-- A whole reference is refused before `teek_check_ref_mem`, which would take it.
whole_refused :
    (teek_check_operation (some whole_operation) ≡ teec_error_bad_parameters)
    × (teek_check_ref_mem parameter.memref 12 ≡ teec_success)
unfolding teek_check_operation check_params check_param teec_param_type_get is_tmp_mem is_ref_mem
    is_val_param is_ion_param teek_check_tmp_mem teek_check_ref_mem check_parent check_flags
    has_input has_output is_partical_mem is_offset_invalid
whole_refused = (refl, refl)

teek_check_operation_iff_example : (teek_check_operation (some operation) ≡ teec_success) ↔ (
    (operation.started ≢ 0)
    × ((i : ℕ) → i < 4 → Fit (operation.params i) (teec_param_type_get operation.paramtypes i)))
teek_check_operation_iff_example = teek_check_operation_iff operation (λ i. parameter-Sized)

proc_teek_encode-Accepted_example : Accepted operation (proc_teek_encode fields context operation)
proc_teek_encode-Accepted_example =
    proc_teek_encode-Accepted fields context operation (λ i. parameter-Sized) operation_passes
