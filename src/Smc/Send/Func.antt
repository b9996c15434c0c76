-- ===== src/Smc/Send/Func.antt =====
-- core/smc_smp.c, `smp_smc_send_func`: the whole way of a command, with the entry its thread waits in.
pub mod Slot
pub mod Entry
use itrustee_tzdriver.Base.{
  ℕ, ◌≡◌, ◌≤◌, refl, sym, ap, subst, ◌∙◌, ◌⊎◌, inl, inr, Bool, true, false, Option, none, some,
  List, [], All, arith, if◌then◌else◌,
}
use itrustee_tzdriver.Base.Nodes.{occurs, list_del, occurs-list_del}
use itrustee_tzdriver.Smc.Cmd.{Cmd}
use itrustee_tzdriver.Smc.Slots.{Queue, clear, resend}
use itrustee_tzdriver.Smc.Pending.{
  Pending, init_pending_entry, put_pending_entry, release_pending_entry,
}
use itrustee_tzdriver.Smc.Timeout.{invalid_step_size}
use itrustee_tzdriver.Smc.Send.{ops_normal}
use itrustee_tzdriver.Smc.Send.Wait.{Ticks}
use itrustee_tzdriver.Smc.Send.Round.{World, Call, CmdReuseInfo, teec_error_generic, send_loop}
use itrustee_tzdriver.Smc.Send.Held.{Final, Again, Quiet}
use itrustee_tzdriver.Smc.Send.Held.Loop.{Fresh, FinalOption, send_loop-FinalOption}

-- The calling thread: its number, the address that `kzalloc` gives it, whether copying the command
-- fails, and what other threads do to the pending entries until it is done.
pub record Caller : Type 0 where
  pub pid : ℕ
  pub alloc : Option ℕ
  pub copy_fails : Bool
  pub others : Pending → Pending

abbrev pub zero_cmd : Cmd
zero_cmd = record {
  uuid = [];
  cmd_type = 0;
  cmd_id = 0;
  dev_file_id = 0;
  context_id = 0;
  agent_id = 0;
  operation_phys = 0;
  operation_h_phys = 0;
  login_method = 0;
  login_data_phy = 0;
  login_data_h_addr = 0;
  login_data_len = 0;
  err_origin = 0;
  ret_val = 0;
  event_nr = 0;
  uid = 0;
  ca_pid = 0;
  token_phys = 0;
  token_h_phys = 0;
  pid = 0;
  params_phys = 0;
  params_h_phys = 0;
  eventindex = 0;
  started = false;
}

-- `*in` and `cmd` afterwards, for the entry; `none` is an error. A cleared `cmd` is `zero_cmd`.
unfoldable pub init_for_smc_send : Caller → Bool → Cmd → Pending → Option (ℕ × Cmd × Cmd) × Pending
init_for_smc_send k reuse input p =
    let p' = (init_pending_entry k.alloc k.pid p).1 in
    let input' = record input { ca_pid = k.pid } in
    elim k.alloc [
      | none ↦ (none, p')
      | some pe ↦
          if reuse
          then (some (pe, input', zero_cmd), p')
          else if k.copy_fails
          then (none, release_pending_entry pe p')
          else (some (pe, input', input'), p')
    ]

unfoldable pub start_info : Bool → Cmd → CmdReuseInfo
start_info reuse input =
    if reuse
    then record { cmd_index = input.event_nr; saved_index = input.event_nr; cmd_usage = resend }
    else record { cmd_index = 0; saved_index = 0; cmd_usage = clear }

-- The variables at the first `retry`; the driver's crash flag is not set.
unfoldable pub start_call : Bool → Cmd → Cmd → Queue → Call
start_call reuse input cmd q = record {
  info = start_info reuse input;
  cmd_ret = record { exit = 0; ta = 0; target = 0 };
  cmd = cmd;
  input = input;
  ops = ops_normal;
  step = record { steps = []; cur = invalid_step_size; timeout_reset = false };
  queue = q;
  run = 0;
  sys_crash = false;
  crashes = [];
  agent_works = [];
}

-- The result, the variables when a slot was asked for, and the pending entries, if it has returned.
abbrev pub Result : Type 0
Result = Option (ℕ × Option Call × Pending)

-- The loop and what follows it, for the pending entries after `init_for_smc_send`.
unfoldable pub send_func_end :
    Ticks → Caller → List World → Bool → Queue → Option (ℕ × Cmd × Cmd) × Pending → Result
send_func_end t k worlds reuse q (none, p) = some (teec_error_generic, none, p)
send_func_end t k worlds reuse q (some (pe, input, cmd), p) =
    elim (send_loop k.pid t worlds (start_call reuse input cmd q)) [
      | none ↦ none
      | some (ret, c) ↦ some (ret, some c, release_pending_entry pe (k.others p))
    ]

unfoldable pub smp_smc_send_func :
    Ticks → Caller → List World → Bool → Cmd → Queue → Pending → Result
smp_smc_send_func t k worlds reuse input q p =
    send_func_end t k worlds reuse q (init_for_smc_send k reuse input p)
