-- ===== src/Param/Types.antt =====
-- The four types of an operation, packed and read back.
use itrustee_tzdriver.Base.{ℕ, ◌<◌, ◌≡◌, arith}
use itrustee_tzdriver.Param.{teec_param_types, teec_param_type_get}

-- Each of the four types packed into a number, being of four bits, is read back from it.
pub teec_param_type_get-teec_param_types :
    (p0 p1 p2 p3 : ℕ)
    → p0 < 16
    → p1 < 16
    → p2 < 16
    → p3 < 16
    → (teec_param_type_get (teec_param_types p0 p1 p2 p3) 0 ≡ p0)
      × (teec_param_type_get (teec_param_types p0 p1 p2 p3) 1 ≡ p1)
      × (teec_param_type_get (teec_param_types p0 p1 p2 p3) 2 ≡ p2)
      × (teec_param_type_get (teec_param_types p0 p1 p2 p3) 3 ≡ p3)
unfolding teec_param_types teec_param_type_get
teec_param_type_get-teec_param_types p0 p1 p2 p3 h0 h1 h2 h3 =
    (omega arith, omega arith, omega arith, omega arith)
