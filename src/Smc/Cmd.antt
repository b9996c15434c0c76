-- ===== src/Smc/Cmd.antt =====
-- teek_ns_client.h, `struct tc_ns_smc_cmd`: a command as the driver and the TEE exchange it, with the
-- values of teek_client_constants.h that core/smc_smp.c tests and writes.
use itrustee_tzdriver.Base.{ℕ, Bool, List}

-- `ret_val` is read as an unsigned number of 32 bits.
pub record Cmd : Type 0 where
  pub uuid : List ℕ
  pub cmd_type : ℕ
  pub cmd_id : ℕ
  pub dev_file_id : ℕ
  pub context_id : ℕ
  pub agent_id : ℕ
  pub operation_phys : ℕ
  pub operation_h_phys : ℕ
  pub login_method : ℕ
  pub login_data_phy : ℕ
  pub login_data_h_addr : ℕ
  pub login_data_len : ℕ
  pub err_origin : ℕ
  pub ret_val : ℕ
  pub event_nr : ℕ
  pub uid : ℕ
  pub ca_pid : ℕ
  pub token_phys : ℕ
  pub token_h_phys : ℕ
  pub pid : ℕ
  pub params_phys : ℕ
  pub params_h_phys : ℕ
  pub eventindex : ℕ
  pub started : Bool

abbrev pub cmd_type_global : ℕ
cmd_type_global = 0

abbrev pub global_cmd_id_kill_task : ℕ
global_cmd_id_kill_task = 0x10

abbrev pub teec_pending : ℕ
teec_pending = 0xFFFF2000

abbrev pub teec_pending2 : ℕ
teec_pending2 = 0xFFFF2001
