-- ===== src/Smc/Send/Round.antt =====
-- core/smc_smp.c, `smp_smc_send_func`: a command is sent, and sent again, until it has its answer.
use itrustee_tzdriver.Base.{
  ℕ, ◌%◌, ◌^◌, Bool, true, false, ◌&&◌, not, Option, none, some, List, [], ◌∷◌, ◌++◌, ◌==◌,
  if◌then◌else◌,
}
use itrustee_tzdriver.Base.Errno.{Code, success, fail, enomem}
use itrustee_tzdriver.Smc.Cmd.{Cmd, teec_pending, teec_pending2}
use itrustee_tzdriver.Smc.Slots.{
  Queue, Calls, CmdReuse, clear, resend, occupy_free_smc_in_entry, reuse_smc_in_entry,
  copy_smc_out_entry, release_smc_entry, is_cmd_working_done,
}
use itrustee_tzdriver.Smc.Timeout.{TimeoutStep, set_timeout_step}
use itrustee_tzdriver.Smc.Send.{
  SmcCmdRet, Answer, smp_smc_send, tsp_request, tsp_crash, ops_normal, ops_abort_task, exit_normal,
  exit_abort,
}
use itrustee_tzdriver.Smc.Send.Wait.{
  Ticks, Wakes, pd_wakeup, pd_timeout, pd_done, process_abort_cmd, proc_ta_pending,
}

abbrev pub teec_error_generic : ℕ
teec_error_generic = 0xFFFF0000

-- -1 in the `ret_val` of a command.
abbrev pub minus_one : ℕ
minus_one = 0xFFFFFFFF

abbrev pub tee_error_taget_dead : ℕ
tee_error_taget_dead = 0xFFFF3024

pub record CmdReuseInfo : Type 0 where
  pub cmd_index : ℕ
  pub saved_index : ℕ
  pub cmd_usage : CmdReuse

-- A crash that `cmd_monitor_ta_crash` is told of.
pub data Crash : Type 0 where
  type_crash_ta type_crash_tee : Crash

-- The variables of `smp_smc_send_func`, with what they point to: `input` is `*in`, `run` is in `*pe`.
-- The crashes told of and the commands handed to agents are in order.
pub record Call : Type 0 where
  pub info : CmdReuseInfo
  pub cmd_ret : SmcCmdRet
  pub cmd : Cmd
  pub input : Cmd
  pub ops : ℕ
  pub step : TimeoutStep
  pub queue : Queue
  pub run : ℕ
  pub sys_crash : Bool
  pub crashes : List Crash
  pub agent_works : List Cmd

-- What the others do in one turn of the loop: the outcomes of the calls, what happens to the queue
-- during each sleep for a slot, the TEE's answers and its work on the queue meanwhile, the waits, the
-- check of an answer's sum, the copying of it to the caller, the queue while an agent works.
pub record World : Type 0 where
  pub calls : Calls
  pub sleep : ℕ → Queue → Queue
  pub answers : List Answer
  pub tee : Queue → Queue
  pub wakes : Wakes
  pub chksum_fails : Cmd → Bool
  pub copy_fails : Bool
  pub agent : Queue → Queue

-- `smc_ops_normal` once a slot was looked for, the usage being `CLEAR`.
unfoldable pub new_entry : Call → Option ℕ × Queue → Code × Call
new_entry c (none, q) = (fail enomem, record c { queue = q })
new_entry c (some i, q) =
    (success, record c { queue = q; info = record c.info { cmd_index = i; saved_index = i } })

-- `smc_ops_normal` once the slot was tried again, the usage being `RESEND`.
unfoldable pub reused_entry : Call → Bool × Queue → Code × Call
reused_entry c (false, q) = (fail enomem, record c { queue = release_smc_entry c.info.cmd_index q })
reused_entry c (true, q) = (
  success,
  record c {
    queue = q;
    info = record c.info { cmd_index = c.info.saved_index; cmd_usage = clear };
  },
)

-- The function `smc_ops_normal`.
unfoldable pub submit_op : World → Call → Code × Call
submit_op w c = if not (c.ops == ops_normal) then (success, c) else elim c.info.cmd_usage [
  | resend ↦ reused_entry c (reuse_smc_in_entry w.calls c.info.cmd_index c.queue)
  | clear ↦ new_entry c (occupy_free_smc_in_entry w.calls w.sleep c.cmd c.queue)
]

abbrev pub with_ret_val : ℕ → Call → Call
with_ret_val v c = record c { cmd = record c.cmd { ret_val = v } }

-- What the TEE and the others have done when `smp_smc_send` is back, and what it gave.
abbrev pub sent : World → SmcCmdRet → Call → Call
sent w cmd_ret c = record c { queue = w.tee c.queue; cmd_ret = cmd_ret }

abbrev pub crashed : Call → Call
crashed c = record c {
  sys_crash = true;
  crashes = c.crashes ++ (type_crash_tee ∷ []);
  cmd = record c.cmd { ret_val = minus_one };
}

-- `smp_smc_send_process` once the TEE has come back, if it has.
unfoldable pub send_result : World → Call → Option (ℕ × SmcCmdRet) → Option (Bool × Call)
send_result w c none = none
send_result w c (some (ret, cmd_ret)) =
    if ret % 2 ^ 32 == tsp_crash
    then some (false, crashed (sent w cmd_ret c))
    else some (true, sent w cmd_ret c)

-- `false` is -1, `none` that the TEE has not come back. `power_on_cc` and `power_down_cc` do nothing.
unfoldable pub smp_smc_send_process : ℕ → World → Call → Option (Bool × Call)
smp_smc_send_process pid w c =
    send_result w c
      (smp_smc_send tsp_request c.ops pid c.cmd_ret (not (c.ops == ops_abort_task)) w.answers).1

-- Logs are left out.
unfoldable pub cmd_result_check : World → Call → Call
cmd_result_check w c =
    let c' =
      if (c.cmd.ret_val == 0) && w.chksum_fails c.cmd
      then with_ret_val teec_error_generic c
      else c in
    if c'.cmd.ret_val == tee_error_taget_dead
    then record c' { crashes = c'.crashes ++ (type_crash_ta ∷ []) }
    else c'

-- `true` is `PENDING2_RETRY`.
unfoldable pub smp_smc_send_cmd_done : World → Call → Bool × Call
smp_smc_send_cmd_done w c =
    let c' = cmd_result_check w c in
    if c'.cmd.ret_val == teec_pending2
    then (
      true,
      record c' { agent_works = c'.agent_works ++ (c'.cmd ∷ []); queue = w.agent c'.queue },
    )
    else if w.copy_fails
    then (false, with_ret_val minus_one c')
    else (false, record c' { input = c'.cmd })

pub data SmcStatus : Type 0 where
  st_done st_retry : SmcStatus

unfoldable pub proc_normal_exit : Ticks → World → Call → Option (SmcStatus × Call)
proc_normal_exit t w c =
    elim (proc_ta_pending t w.wakes c.cmd_ret.ta c.info.cmd_index
      (record { ops = c.ops; step = c.step; queue = c.queue; run = c.run })) [
        | none ↦ none
        | some (pd, l) ↦
            let c' = record c { ops = l.ops; step = l.step; queue = l.queue; run = l.run } in
            elim pd [
              | pd_done ↦ some (st_done, c')
              | pd_wakeup ↦
                  some (st_retry, record c' { step = record l.step { timeout_reset = true } })
              | pd_timeout ↦ some (st_retry, c')
            ]
      ]

-- `handle_cmd_working_done` once the answer is in `cmd`.
unfoldable pub answer_status : World → Call → SmcStatus × Call
answer_status w c =
    let (again, c') = smp_smc_send_cmd_done w c in
    if again then (st_retry, record c' { ops = ops_normal }) else (st_done, c')

-- `handle_cmd_working_done` with what `copy_smc_out_entry` gives; that sets `cmd` and `cmd_usage` when it
-- succeeds.
unfoldable pub take_answer :
    World → Call → Code × Option (Cmd × CmdReuse) × Queue → SmcStatus × Call
take_answer w c (code, none, q) =
    (st_done, with_ret_val teec_error_generic (record c { queue = q }))
take_answer w c (code, some (cmd, usage), q) =
    answer_status w (record c { queue = q; cmd = cmd; info = record c.info { cmd_usage = usage } })

unfoldable pub handle_cmd_working_done : World → Call → SmcStatus × Call
handle_cmd_working_done w c = take_answer w c (copy_smc_out_entry w.calls c.info.cmd_index c.queue)

-- Where a turn ends: at `retry`, at `clean`, with the error of `smc_ops_normal`, or not yet.
pub data Turn : Type 0 where
  retry clean not_sent : Call → Turn
  waiting : Turn

abbrev pub turn_done : SmcStatus × Call → Turn
turn_done (st_done, c) = clean c
turn_done (st_retry, c) = retry c

-- The TEE has come back and the answer is not there yet.
unfoldable pub not_done : Ticks → World → Call → Turn
not_done t w c =
    if c.cmd_ret.exit == exit_normal
    then elim (proc_normal_exit t w c) [
      | none ↦ waiting
      | some (st_retry, c') ↦ retry c'
      | some (st_done, c') ↦ turn_done (handle_cmd_working_done w c')
    ]
    else if c.cmd_ret.exit == exit_abort
    then (let (ops, q) = process_abort_cmd c.info.cmd_index c.queue in
        retry (record c { ops = ops; queue = q }))
    else clean (with_ret_val teec_error_generic c)

-- What follows `smp_smc_send_process`.
unfoldable pub process_turn : Ticks → World → Option (Bool × Call) → Turn
process_turn t w none = waiting
process_turn t w (some (false, c)) = clean c
process_turn t w (some (true, c)) =
    if not (is_cmd_working_done c.info.cmd_index c.queue)
    then not_done t w c
    else turn_done (handle_cmd_working_done w c)

-- What follows `smc_ops_normal`.
unfoldable pub submitted_turn : ℕ → Ticks → World → Code × Call → Turn
submitted_turn pid t w (fail e, c) = not_sent c
submitted_turn pid t w (success, c) = process_turn t w (smp_smc_send_process pid w c)

-- One turn of the loop from `retry` on.
unfoldable pub turn : ℕ → Ticks → World → Call → Turn
turn pid t w c = submitted_turn pid t w (submit_op w (record c { step = set_timeout_step c.step }))

-- The part of `clean_smc_resrc` on the slot.
unfoldable pub clean_smc_resrc : Call → Call
clean_smc_resrc c = elim c.info.cmd_usage [
  | clear ↦ c
  | resend ↦
      if c.cmd.ret_val == teec_pending
      then c
      else record c { queue = release_smc_entry c.info.cmd_index c.queue }
]

-- The loop, for as many turns as there are worlds; its result, if the function has returned by then.
unfoldable pub send_loop : ℕ → Ticks → List World → Call → Option (ℕ × Call)
send_loop pid t [] c = none
send_loop pid t (w ∷ later) c = elim (turn pid t w c) [
  | retry c' ↦ send_loop pid t later c'
  | clean c' ↦ some (c'.cmd.ret_val, clean_smc_resrc c')
  | not_sent c' ↦ some (teec_error_generic, c')
  | waiting ↦ none
]
