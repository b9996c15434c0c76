-- ===== src/Param/Tests.antt =====
-- The parameter checks on small inputs.
use itrustee_tzdriver.Base.{◌+◌, ◌<◌, ◌≡◌, ◌↔◌, refl, true, false, ltb}
use itrustee_tzdriver.Param.{
  User, ClientParam, ClientContext, teec_param_type_get, is_refmem_offset_valid,
  tc_user_param_valid,
}
use itrustee_tzdriver.Param.Bounds.{Usable, tc_user_param_valid_iff}

-- The user's memory ends at 65536, and every size in it is 16.
abbrev user : User
user = record { access_ok = λ addr size. ltb (addr + size) 65537; get_user = λ addr. 16 }

abbrev param : ClientParam
param = record { buffer = 4096; offset = 0; size_addr = 8192; a_addr = 0; b_addr = 4 }

abbrev context : ClientContext
context = record { params = λ i. param; param_types = 0x015 }

tc_user_param_valid_iff_example :
    (tc_user_param_valid user context 1 ≡ true)
    ↔ ((1 < 4) × Usable user (context.params 1) (teec_param_type_get context.param_types 1))
tc_user_param_valid_iff_example = tc_user_param_valid_iff user context 1

-- A difference that wraps is not taken for a large one.
wrapped_offset : is_refmem_offset_valid 4096 5000 16 ≡ false
unfolding is_refmem_offset_valid
wrapped_offset = refl
