-- ===== src/Smc/Slots.antt =====
-- core/smc_smp.c: the slots of `struct tc_ns_smc_queue`, in which commands go to the TEE and its
-- answers come back. A bitmap is a function of the slot. What stands between an acquire and a release
-- of `smc_lock` is one function, `…_locked` where the caller goes on without the lock.
pub mod Scan
pub mod Contract
pub mod Lifecycle
pub mod Resend
mod Tests
use itrustee_tzdriver.Base.{
  ℕ, zero, suc, Bool, true, false, ◌&&◌, ◌||◌, not, Option, none, some, ◌==◌, if◌then◌else◌,
}
use itrustee_tzdriver.Base.Errno.{Code, success, fail, enoent, efault}
use itrustee_tzdriver.Base.Update.{update}
use itrustee_tzdriver.Smc.Cmd.{
  Cmd, cmd_type_global, global_cmd_id_kill_task, teec_pending, teec_pending2,
}

-- `MAX_SMC_CMD`, which is `CONFIG_BIG_SESSION`.
abbrev pub max_smc_cmd : ℕ
max_smc_cmd = 1000

abbrev pub find_smc_entry_retry_max_count : ℕ
find_smc_entry_retry_max_count = 25000

-- The fields `in` and `out` are `in_cmds` and `out_cmds`.
pub record Queue : Type 0 where
  pub in_bitmap : ℕ → Bool
  pub doing_bitmap : ℕ → Bool
  pub out_bitmap : ℕ → Bool
  pub in_cmds : ℕ → Cmd
  pub out_cmds : ℕ → Cmd

pub data CmdReuse : Type 0 where
  clear resend : CmdReuse

-- What the operations call: `memcpy_s` of a command reports an error or not; `update_timestamp`
-- reports an error or not, on the command and its token; `update_chksum` rewrites the command.
pub record Calls : Type 0 where
  pub memcpy_fails : Bool
  pub timestamp_fails : Cmd → Bool
  pub update_chksum : Cmd → Option Cmd

unfoldable pub set_in : ℕ → Cmd → Queue → Queue
set_in i cmd q = record q { in_cmds = update q.in_cmds i cmd }

unfoldable pub occupy_setbit_smc_in_doing_entry : ℕ → Queue → Queue
occupy_setbit_smc_in_doing_entry i q = record q {
  in_cmds = update q.in_cmds i (record (q.in_cmds i) { event_nr = i });
  in_bitmap = update q.in_bitmap i true;
  doing_bitmap = update q.doing_bitmap i true;
}

unfoldable pub occupy_clean_in_doing_entry : ℕ → Queue → Queue
occupy_clean_in_doing_entry i q = record q {
  in_bitmap = update q.in_bitmap i false;
  doing_bitmap = update q.doing_bitmap i false;
}

unfoldable pub clear_doing : ℕ → Queue → Queue
clear_doing i q = record q { doing_bitmap = update q.doing_bitmap i false }

-- The first slot from `i` on whose in bit is clear, among `n`.
unfoldable pub free_slot : ℕ → ℕ → (ℕ → Bool) → Option ℕ
free_slot zero i bits = none
free_slot (suc n) i bits = elim (bits i) [ true ↦ free_slot n (suc i) bits | false ↦ some i ]

-- The `for` loop of `occupy_free_smc_in_entry`, under the lock.
unfoldable pub occupy_locked : Calls → Cmd → Queue → Option ℕ × Queue
occupy_locked calls cmd q = elim (free_slot max_smc_cmd 0 q.in_bitmap) [
  | none ↦ (none, q)
  | some i ↦
      if calls.memcpy_fails
      then (none, q)
      else (some i, occupy_setbit_smc_in_doing_entry i (set_in i cmd q))
]

-- The attempts from `get_smc_retry` on with `n` sleeps left; `sleep` is what the others do meanwhile.
unfoldable pub occupy_retry : Calls → (ℕ → Queue → Queue) → Cmd → ℕ → Queue → Option ℕ × Queue
occupy_retry calls sleep cmd zero q = occupy_locked calls cmd q
occupy_retry calls sleep cmd (suc n) q = elim ((occupy_locked calls cmd q).0) [
  | none ↦ occupy_retry calls sleep cmd n (sleep n (occupy_locked calls cmd q).1)
  | some i ↦ occupy_locked calls cmd q
]

-- The end of `occupy_free_smc_in_entry`, for the slot found.
unfoldable pub occupy_finish : Calls → Option ℕ × Queue → Option ℕ × Queue
occupy_finish calls (none, q) = (none, q)
occupy_finish calls (some i, q) =
    if calls.timestamp_fails (q.in_cmds i)
    then (none, occupy_clean_in_doing_entry i q)
    else elim (calls.update_chksum (q.in_cmds i)) [
      | none ↦ (none, occupy_clean_in_doing_entry i q)
      | some cmd ↦ (some i, clear_doing i (set_in i cmd q))
    ]

-- -1 is `none`; the first attempt is followed by at most `find_smc_entry_retry_max_count + 1` more.
unfoldable pub occupy_free_smc_in_entry :
    Calls → (ℕ → Queue → Queue) → Cmd → Queue → Option ℕ × Queue
occupy_free_smc_in_entry calls sleep cmd q =
    occupy_finish calls (occupy_retry calls sleep cmd (suc find_smc_entry_retry_max_count) q)

-- The first locked part of `reuse_smc_in_entry`; `false` is -1.
unfoldable pub reuse_locked : Calls → ℕ → Queue → Bool × Queue
reuse_locked calls i q =
    if not (q.in_bitmap i && q.doing_bitmap i) || calls.memcpy_fails
    then (false, q)
    else (true, set_in i (q.out_cmds i) q)

unfoldable pub reuse_finish : Calls → ℕ → Bool × Queue → Bool × Queue
reuse_finish calls i (false, q) = (false, q)
reuse_finish calls i (true, q) =
    if calls.timestamp_fails (q.in_cmds i)
    then (false, q)
    else elim (calls.update_chksum (q.in_cmds i)) [
      | none ↦ (false, q)
      | some cmd ↦ (true, clear_doing i (set_in i cmd q))
    ]

unfoldable pub reuse_smc_in_entry : Calls → ℕ → Queue → Bool × Queue
reuse_smc_in_entry calls i q = reuse_finish calls i (reuse_locked calls i q)

-- The bits that `copy_smc_out_entry` clears, and how the slot is used next.
unfoldable pub take_out : ℕ → Queue → CmdReuse × Queue
take_out i q =
    let q' = record q { out_bitmap = update q.out_bitmap i false } in
    if (q.out_cmds i).ret_val == teec_pending2 || (q.out_cmds i).ret_val == teec_pending
    then (resend, q')
    else (clear, occupy_clean_in_doing_entry i q')

-- The code, what `copy` and `usage` are set to if they are, and the queue.
unfoldable pub copy_smc_out_entry : Calls → ℕ → Queue → Code × Option (Cmd × CmdReuse) × Queue
copy_smc_out_entry calls i q =
    let (usage, q') = take_out i q in
    if not (q.out_bitmap i)
    then (fail enoent, none, q)
    else if calls.memcpy_fails
    then (fail efault, none, q)
    else (success, some (q.out_cmds i, usage), q')

unfoldable pub release_smc_entry : ℕ → Queue → Queue
release_smc_entry i q = record q {
  in_bitmap = update q.in_bitmap i false;
  doing_bitmap = update q.doing_bitmap i false;
  out_bitmap = update q.out_bitmap i false;
}

unfoldable pub is_cmd_working_done : ℕ → Queue → Bool
is_cmd_working_done i q = q.out_bitmap i

-- The command that asks the TEE to kill the task of `cmd`.
pub abort_of : Cmd → Cmd
abort_of cmd = record cmd {
  cmd_id = global_cmd_id_kill_task;
  cmd_type = cmd_type_global;
  operation_phys = 0;
  operation_h_phys = 0;
  login_data_phy = 0;
  login_data_h_addr = 0;
  token_phys = 0;
  token_h_phys = 0;
  params_phys = 0;
  params_h_phys = 0;
}

-- `false` is -1.
unfoldable pub set_abort_cmd : ℕ → Queue → Bool × Queue
set_abort_cmd i q =
    if not (q.doing_bitmap i)
    then (false, q)
    else (true, clear_doing i (set_in i (abort_of (q.in_cmds i)) q))
