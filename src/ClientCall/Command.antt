-- ===== src/ClientCall/Command.antt =====
-- core/gp_ops.c: the command of a call, and what a call returns.
use itrustee_tzdriver.Base.{
  ℕ, ◌/◌, ◌%◌, ◌^◌, Bool, true, false, ◌&&◌, not, none, List, ◌==◌, if◌then◌else◌,
}
use itrustee_tzdriver.Base.Errno.{Errno, Code, success, fail}
use itrustee_tzdriver.Auth.{cmd_type_ta, global_cmd_id_open_session}
use itrustee_tzdriver.Smc.Send.Func.{zero_cmd}
use itrustee_tzdriver.Smc.Cmd.{Cmd, cmd_type_global, teec_pending}
use itrustee_tzdriver.ClientCall.{NsOperation, CallEnv, tc_call_global, has_flag}

abbrev pub teec_origin_comms : ℕ
teec_origin_comms = 2

abbrev pub teec_client_intr : ℕ
teec_client_intr = 0xFFFF4000

abbrev pub teec_error_short_buffer : ℕ
teec_error_short_buffer = 0xFFFF0010

-- MAX_SHA_256_SZ * (NUM_OF_SO + 1)
abbrev pub login_data_size : ℕ
login_data_size = 64

-- What `tc_client_call` returns: 0, a negative error, -ERESTARTSYS, or the positive EFAULT that marks
-- an error of the TEE.
pub data Ret : Type 0 where
  done restart_sys tee_fault : Ret
  error : Errno → Ret

abbrev pub of_code : Code → Ret
of_code success = done
of_code (fail e) = error e

abbrev pub is_negative : Ret → Bool
is_negative done = false
is_negative tee_fault = false
is_negative restart_sys = true
is_negative (error e) = true

-- The parts of `struct tc_ns_client_context` that only the command needs.
pub record Context : Type 0 where
  pub uuid : List ℕ
  pub session_id : ℕ
  pub started : Bool
  pub login_method : ℕ
  pub code : ℕ
  pub origin : ℕ

-- A return of the TEE: `tc_ns_smc` or, later, `tc_ns_smc_with_no_nr`. `append` is the result of
-- `append_teec_token` before a later call, `post` that of `post_process_token` after it.
pub record TeeReturn : Type 0 where
  pub append : Code
  pub tee_ret : ℕ
  pub answer : Cmd → Cmd
  pub written : NsOperation → NsOperation
  pub post : Code

-- What the process, the kernel and the authentication answer. `login` is the result of `do_encryption`
-- and of the copy that follows it, `secured` that of `load_security_enhance_info` with its changes.
pub record CallerProcess : Type 0 where
  pub kzalloc : Bool
  pub uid : ℕ
  pub pid : ℕ
  pub has_mm : Bool
  pub dev_file_id : ℕ
  pub pub_key_len : ℕ
  pub has_session : Bool
  pub uuid_copied : Code
  pub tzmp2_uid : Cmd → Cmd
  pub login : Code
  pub login_data : ℕ → ℕ
  pub secured : Cmd → Code × Cmd

-- The command that `tc_client_call` starts with.
abbrev pub start_cmd : ℕ → Cmd
start_cmd uid = record zero_cmd { err_origin = teec_origin_comms; uid = uid }

abbrev pub zero_operation : NsOperation
zero_operation = record {
  paramtypes = 0;
  params = λ i. record { buffer = 0; size = 0 };
  buffer_h_addr = λ i. 0;
  sharemem = λ i. none;
  mb_buffer = λ i. none;
}

module _ (env : CallEnv) (caller : CallerProcess) where
  unfoldable pub init_smc_cmd : Context → ℕ → Cmd → Code × Cmd
  init_smc_cmd context pack cmd =
      let global = has_flag env.flags tc_call_global in
      let typed = record cmd { cmd_type = if global then cmd_type_global else cmd_type_ta } in
      let filled = caller.tzmp2_uid (record typed {
        uuid = context.uuid;
        cmd_id = env.cmd_id;
        dev_file_id = caller.dev_file_id;
        context_id = context.session_id;
        err_origin = context.origin;
        started = context.started;
        ca_pid = caller.pid;
      }) in
      let phys = if env.context.param_types == 0 then 0 else env.virt_to_phys pack in
      elim caller.uuid_copied [
        | fail e ↦ (fail e, typed)
        | success ↦ (
          success,
          record filled {
            operation_phys = phys % 2 ^ 32;
            operation_h_phys = phys / 2 ^ 32 % 2 ^ 32;
            login_method = context.login_method;
          },
        )
      ]

  unfoldable pub need_check_login : Cmd → Bool
  need_check_login cmd =
      caller.pub_key_len == 4
      && cmd.cmd_id == global_cmd_id_open_session
      && caller.has_mm
      && has_flag env.flags tc_call_global

  unfoldable pub check_login_for_encrypt : ℕ → Cmd → Code × Cmd
  unfolding need_check_login
  check_login_for_encrypt pack cmd =
      let phys = env.virt_to_phys (caller.login_data pack) in
      if need_check_login cmd && caller.has_session
      then elim caller.login [
        | fail e ↦ (fail e, cmd)
        | success ↦ (
          success,
          record cmd {
            login_data_phy = phys % 2 ^ 32;
            login_data_h_addr = phys / 2 ^ 32 % 2 ^ 32;
            login_data_len = login_data_size;
          },
        )
      ]
      else (success, record cmd { login_data_phy = 0; login_data_h_addr = 0; login_data_len = 0 })

  unfoldable pub config_smc_cmd_context : Context → ℕ → Cmd → Code × Cmd
  unfolding init_smc_cmd check_login_for_encrypt
  config_smc_cmd_context context pack cmd =
      let (code, inited) = init_smc_cmd context pack cmd in
      let (code', checked) = check_login_for_encrypt pack inited in
      elim code [
        | fail e ↦ (fail e, inited)
        | success ↦ elim code' [ fail e ↦ (fail e, checked) | success ↦ caller.secured checked ]
      ]

unfoldable pub reset_session_id : CallEnv → Cmd → ℕ → Context → Context
reset_session_id env cmd tee_ret context =
    if has_flag env.flags tc_call_global
      && env.cmd_id == global_cmd_id_open_session
      && not (tee_ret == 0)
      && not (tee_ret == teec_pending)
    then record context { session_id = 0 }
    else record context { session_id = cmd.context_id }
